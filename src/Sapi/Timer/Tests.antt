-- ===== src/Sapi/Timer/Tests.antt =====
-- Runs of the timer thread, and its theorem at a concrete input.
use libvidcap.Base.{
  ℕ, ◌*◌, ◌/◌, ◌<◌, ◌≡◌, refl, arith, false, Option, some, none, List, [], ◌∷◌, ℤ, pos, negsuc,
  quot, rem, int32, ◌*ℤ◌, ◌+ℤ◌, ◌-ℤ◌, ◌≤ℤ◌, Bytes,
}
use libvidcap.Conv.Table.{ConvFunc}
use libvidcap.DoubleBuffer.{DoubleBuffer, free, read}
use libvidcap.Sapi.Time.{tv_greater_or_equal, tv_add_usecs}
use libvidcap.Sapi.TimeLaws.{micros, IsNormal}
use libvidcap.Sapi.Context.{FrameInfo}
use libvidcap.Sapi.Samples.{at_time, i420_at, no_bytes, capturing}
use libvidcap.Sapi.Deliver.{
  Event, info_with, picture_of, info_of, event_of, finish_frame, with_picture,
}
use libvidcap.Sapi.Timer.{
  TimerThread, frame_usecs, timer_started, with_frame, delivered, first_after, next_after,
  after_attempt, due_ms, pause_ms, asleep, deliver_read, read_result, timer_deliver, timer_round,
  Wake, add_activity, timer_rounds,
}
use libvidcap.Sapi.Timer.Rate.{Until, Paced, timer_rounds-rate}

abbrev no_conversion : ConvFunc → ℤ → ℤ → Bytes → Bytes → Option (ℤ × Bytes)
no_conversion function width height src dst = some (pos 0, dst)

abbrev frame_at : ℕ → FrameInfo
frame_at s = record {
  video_data = no_bytes;
  video_data_size = pos 4;
  error_status = pos 0;
  stride = pos 0;
  capture_time = at_time s 0;
}

-- The capture thread has written a frame of second 10, and the thread has not read it.
abbrev one_frame : DoubleBuffer FrameInfo
one_frame = record {
  read_count = pos 0;
  write_count = pos 1;
  object0 = frame_at 10;
  object1 = frame_at 0;
  lock0 = free;
  lock1 = free;
  count0 = pos 0;
  count1 = negsuc 0;
  num_insert_too_far_failures = pos 0;
}

-- Then the frame of second 11 is there, too.
abbrev two_frames : DoubleBuffer FrameInfo
two_frames = record one_frame {
  read_count = pos 1;
  write_count = pos 2;
  object1 = frame_at 11;
  count1 = pos 1;
}

abbrev waiting : TimerThread (Unit {0})
waiting =
    record (timer_started (at_time 9 0) one_frame (frame_at 0)
      (capturing (i420_at 1 1) none (at_time 0 0))) {
        first_time = false;
        ctx = capturing (i420_at 1 1) none (at_time 10 0);
      }

-- One second after the first frame the next is due.
abbrev wakes : List Wake
wakes =
    record { now = at_time 9 500000; double_buff = one_frame }
    ∷ record { now = at_time 10 500000; double_buff = one_frame }
    ∷ record { now = at_time 11 200000; double_buff = two_frames }
    ∷ []

abbrev event_at : ℕ → Event
event_at s = record {
  callback = 1;
  user_data = pos 7;
  info = info_with (with_frame (frame_at s) waiting.ctx) (some no_bytes) (pos 4) (pos 0);
}

abbrev afterwards : TimerThread (Unit {0})
afterwards = record waiting {
  sleep_ms = pos 500;
  double_buff = record two_frames { read_count = pos 2 };
  timer_thread_frame = frame_at 11;
  ctx = capturing (i420_at 1 1) none (at_time 12 0);
}

two_callbacks :
    timer_rounds no_conversion wakes waiting ≡ some (event_at 10 ∷ event_at 11 ∷ [], afterwards)
unfolding timer_rounds timer_round timer_deliver read_result deliver_read delivered after_attempt
    next_after first_after asleep pause_ms due_ms add_activity picture_of with_picture info_of
    finish_frame event_of read tv_greater_or_equal tv_add_usecs frame_usecs quot rem int32 ◌+ℤ◌ ◌-ℤ◌
    ◌*ℤ◌
two_callbacks = refl

IsNormal-at : (s u : ℕ) → u < 1000000 → IsNormal (at_time s u)
IsNormal-at s u h = record { nonneg = omega arith; part = omega arith }

waiting-Paced : Paced waiting 1 1
waiting-Paced = record {
  later = refl;
  capturing = refl;
  rate = record { numerator = refl; denominator = refl; positive = omega arith };
  normal = IsNormal-at 10 0 (omega arith);
}

wakes-Until : Until (pos 11200000) wakes
unfolding micros ◌+ℤ◌ ◌*ℤ◌
wakes-Until = (
  (IsNormal-at 9 500000 (omega arith), omega arith),
  (
    (IsNormal-at 10 500000 (omega arith), omega arith),
    ((IsNormal-at 11 200000 (omega arith), omega arith), tt),
  ),
)

timer_rounds-rate_example : micros (at_time 10 0) +ℤ pos (1 * (1000000 * 1 / 1)) ≤ℤ pos 11200000
timer_rounds-rate_example =
    timer_rounds-rate no_conversion 1 1 (pos 11200000) (omega arith) wakes waiting afterwards
      (event_at 10 ∷ event_at 11 ∷ []) 1 waiting-Paced wakes-Until two_callbacks (omega arith)
