-- ===== src/Sapi/Tests.antt =====
-- Runs of the source core, and its theorems at concrete inputs.
use libvidcap.Base.{
  ℕ, ◌*◌, ◌/◌, ◌≡◌, refl, arith, Bool, true, some, none, [], ◌∷◌, length, pos, quot, rem, int32,
  ◌*ℤ◌, ◌+ℤ◌, ◌≤ℤ◌, ◌<ℤ◌, ◌<◌, eqb_ℤ, if◌then◌else◌,
}
use libvidcap.Format.{FmtInfo, fourcc_i420, hot_fourcc_list}
use libvidcap.SlidingWindow.{SlidingWindow, slide, peek_front, count_of}
use libvidcap.SlidingWindow.Represents.{Represents}
use libvidcap.Sapi.Time.{Timeval, tv_greater_or_equal, tv_add_usecs}
use libvidcap.Sapi.TimeLaws.{micros, IsNormal}
use libvidcap.Sapi.Context.{SrcContext, Backend}
use libvidcap.Sapi.Pacing.{next_time, window_usecs, least_usecs, enforce_framerate}
use libvidcap.Sapi.Pacing.Usecs.{HasRate}
use libvidcap.Sapi.Pacing.Rate.{enforce_framerate-spacing, enforce_framerate-rate}
use libvidcap.Sapi.Pacing.Overflow.{next_time_overflow}
use libvidcap.Sapi.FormatList.{format_list_build, pointer_to, blocks}
use libvidcap.Sapi.FormatList.Accepted.{accepted, formats_of, Steady, format_list_build-accepted}
use libvidcap.Sapi.Samples.{at_time, i420_at, capturing}

-- Of a window of two frame times, one is used.
abbrev one_time : SlidingWindow Timeval
one_time = record {
  window_len = pos 2;
  object_size = pos 16;
  objects = at_time 10 0 ∷ at_time 0 0 ∷ at_time 0 0 ∷ [];
  count = pos 1;
  head = pos 0;
  tail = pos 0;
}

abbrev two_times : SlidingWindow Timeval
two_times = record one_time {
  objects = at_time 10 0 ∷ at_time 11 0 ∷ at_time 0 0 ∷ [];
  count = pos 2;
  head = pos 1;
}

one_time-Represents : Represents one_time 2 (at_time 10 0 ∷ [])
unfolding rem int32 ◌+ℤ◌
one_time-Represents = record {
  tail = 0;
  size = 16;
  size_eq = refl;
  offsets = omega arith;
  positive = omega arith;
  small = omega arith;
  len_eq = refl;
  slots = refl;
  count_eq = refl;
  fits = omega arith;
  tail_eq = refl;
  tail_in = omega arith;
  head_next = refl;
  holds = λ i h. ground arith;
}

abbrev before : SrcContext (Unit {0})
before = capturing (i420_at 1 1) (some one_time) (at_time 10 900000)

abbrev after : SrcContext (Unit {0})
after = capturing (i420_at 1 1) (some two_times) (at_time 11 900000)

abbrev after_third : SrcContext (Unit {0})
after_third =
    capturing (i420_at 1 1)
      (some (record two_times {
        objects = at_time 12 0 ∷ at_time 11 0 ∷ at_time 0 0 ∷ [];
        head = pos 0;
        tail = pos 1;
      }))
      (at_time 12 900000)

second_sent : enforce_framerate (at_time 11 0) before ≡ some (pos 1, after)
unfolding enforce_framerate next_time quot rem int32 ◌+ℤ◌ ◌*ℤ◌ tv_greater_or_equal tv_add_usecs
    slide peek_front window_usecs least_usecs count_of
second_sent = refl

IsNormal-at : (s u : ℕ) → u < 1000000 → IsNormal (at_time s u)
IsNormal-at s u h = record { nonneg = omega arith; part = omega arith }

early_at : micros (at_time 11 500000) <ℤ micros (at_time 11 0) +ℤ pos (900000 * 1 / 1)
unfolding micros ◌+ℤ◌ ◌*ℤ◌
early_at = omega arith

one_a_second : HasRate (i420_at 1 1) 1 1
one_a_second = record { numerator = refl; denominator = refl; positive = omega arith }

enforce_framerate-spacing_example :
    enforce_framerate (at_time 11 500000) after ≡ some (pos 0, after)
enforce_framerate-spacing_example =
    enforce_framerate-spacing before after (at_time 10 0 ∷ []) 1 1 (at_time 11 0)
      (at_time 11 500000) refl one_time-Represents one_a_second (IsNormal-at 11 0 (omega arith))
      (IsNormal-at 11 500000 (omega arith)) (omega arith) second_sent early_at

third_sent : enforce_framerate (at_time 12 0) after ≡ some (pos 1, after_third)
unfolding enforce_framerate next_time quot rem int32 ◌+ℤ◌ ◌*ℤ◌ tv_greater_or_equal tv_add_usecs
    slide peek_front window_usecs least_usecs count_of
third_sent = refl

enforce_framerate-rate_example : micros (at_time 10 0) +ℤ pos 1000000 ≤ℤ micros (at_time 12 0)
enforce_framerate-rate_example =
    enforce_framerate-rate before after (at_time 10 0 ∷ []) 1 1 (at_time 11 0) (at_time 12 0) refl
      one_time-Represents one_a_second (IsNormal-at 11 0 (omega arith))
      (IsNormal-at 12 0 (omega arith)) (at_time 10 0) refl (IsNormal-at 10 0 (omega arith))
      (omega arith) (omega arith) second_sent third_sent

next_time_overflow_example :
    next_time (i420_at 2997 100) (pos 30) (at_time 10 0) (at_time 11 0)
    ≡ tv_add_usecs (at_time 11 0) (pos 30030)
next_time_overflow_example =
    next_time_overflow (i420_at 2997 100) 30 (at_time 10 0) (at_time 11 0)
      (record { numerator = refl; denominator = refl; positive = omega arith }) (omega arith)
      (omega arith) (IsNormal-at 10 0 (omega arith)) (IsNormal-at 11 0 (omega arith)) order
  where
    order : tv_greater_or_equal (at_time 11 0) (at_time 10 0) ≡ true
    order = unfold tv_greater_or_equal in refl

-- A device that delivers I420 only.
abbrev i420_only : FmtInfo → Bool
i420_only f = eqb_ℤ f.fourcc fourcc_i420

abbrev camera : Backend (Unit {0})
camera = record {
  release = λ p. (pos 0, p);
  format_validate = λ p f for_binding. (if i420_only f then some f else none, p);
  format_bind = λ p f. (pos 0, p);
  start_capture = λ p. (pos 0, p);
  stop_capture = λ p. (pos 0, p);
}

camera-Steady : Steady camera i420_only
camera-Steady = record { native = λ f. f; answers = λ p f. refl }

i420_formats : length (accepted i420_only (formats_of hot_fourcc_list)) ≡ 20
i420_formats = refl

format_list_build-accepted_example :
    let ctx = capturing (i420_at 1 1) none (at_time 0 0) in
    let list = accepted i420_only (formats_of hot_fourcc_list) in
    format_list_build camera (λ n. true) ctx ≡ (
      pos 0,
      blocks list,
      record ctx { fmt_list = pointer_to list; fmt_list_len = pos (length list) },
    )
format_list_build-accepted_example =
    format_list_build-accepted camera i420_only camera-Steady (λ n. true) (λ n. refl)
      (capturing (i420_at 1 1) none (at_time 0 0)) refl
