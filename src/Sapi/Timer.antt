-- ===== src/Sapi/Timer.antt =====
-- The timer thread of src/sapi.c, `sapi_src_timer_thread_func`, and the branch of `deliver_frame`
-- that it takes. It reads frames from the double buffer that the capture thread writes. The flags by
-- which the main thread waits for it (`timer_thread_idle`, `capture_timer_thread_started`) are left
-- out; a round is one pass of the loop, before `kill_timer_thread` is set.
pub mod Steady
pub mod Rate
pub mod Stuck
mod Tests
use libvidcap.Base.{
  Bool, true, false, not, ◌&&◌, ◌||◌, Option, none, some, List, [], ◌∷◌, if◌then◌else◌, eqb_ℤ,
  ltb_ℤ, ℤ, pos, negsuc, ◌+ℤ◌, ◌-ℤ◌, ◌*ℤ◌, int32, quot, Bytes,
}
use libvidcap.Format.{FmtInfo}
use libvidcap.Conv.Table.{ConvFunc}
use libvidcap.DoubleBuffer.{DoubleBuffer, ReadResult, got, failed, fault, read}
use libvidcap.Sapi.Time.{Timeval, tv_greater_or_equal, tv_add_usecs}
use libvidcap.Sapi.Context.{SrcContext, SrcState, src_acquired, src_bound, src_capturing, FrameInfo}
use libvidcap.Sapi.Deliver.{Event, picture_of, with_picture}

-- The variables of the thread, and the fields of the context that the timer thread alone needs.
pub record TimerThread (P : Type 0) : Type 0 where
  pub sleep_ms : ℤ
  pub first_time : Bool
  pub capture_error : Bool
  pub double_buff : DoubleBuffer FrameInfo
  pub timer_thread_frame : FrameInfo
  pub capture_error_ack : Bool
  pub ctx : SrcContext P

abbrev pub captures : SrcState → Bool
captures src_acquired = false
captures src_bound = false
captures src_capturing = true

abbrev pub idle_state_sleep_period_ms : ℤ
idle_state_sleep_period_ms = pos 100

-- `1000000 * den / num`, the time of a frame, in `int`s.
unfoldable pub frame_usecs : FmtInfo → ℤ
frame_usecs fmt = int32 (quot (int32 (pos 1000000 *ℤ fmt.fps_denominator)) fmt.fps_numerator)

-- What a round of the loop does: it sleeps for a number of milliseconds, or it attempts to deliver a
-- frame, which makes a callback or not.
pub data Activity : Type 0 where
  slept : ℤ → Activity
  tried : Option Event → Activity

-- `first_time`, after `deliver_frame` returned `ret`.
unfoldable pub first_after : ℤ → Bool → Bool
first_after ret first_time = first_time && not (eqb_ℤ ret (pos 0))

-- The milliseconds until the next frame is due.
unfoldable pub due_ms : Timeval → Timeval → ℤ
due_ms next now =
    quot ((next.tv_sec -ℤ now.tv_sec) *ℤ pos 1000000 +ℤ next.tv_usec -ℤ now.tv_usec) (pos 1000)

abbrev pub not_negative : ℤ → ℤ
not_negative ms = if ltb_ℤ ms (pos 0) then pos 0 else ms

-- The start of a round: the time, and the double buffer as the capture thread has left it.
pub record Wake : Type 0 where
  pub now : Timeval
  pub double_buff : DoubleBuffer FrameInfo

module _ {P : Type 0} where
  -- Before the loop, at the time `now`.
  abbrev pub timer_started :
      Timeval → DoubleBuffer FrameInfo → FrameInfo → SrcContext P → TimerThread P
  timer_started now double_buff frame ctx = record {
    sleep_ms = idle_state_sleep_period_ms;
    first_time = true;
    capture_error = false;
    double_buff = double_buff;
    timer_thread_frame = frame;
    capture_error_ack = false;
    ctx = record ctx { frame_time_next = now };
  }

  -- The frame of the timer thread takes the place of the one of the callback.
  abbrev pub with_frame : FrameInfo → SrcContext P → SrcContext P
  with_frame frame ctx = record ctx { callback_frame = frame }

  abbrev pub with_ctx : SrcContext P → TimerThread P → TimerThread P
  with_ctx ctx t = record t { ctx = with_frame t.ctx.callback_frame ctx }

  -- The end of `deliver_frame`: after the callback for an error it is acknowledged.
  unfoldable pub delivered :
      TimerThread P
      → Option (Option Event × SrcContext P)
      → Option (ℤ × Option Event × TimerThread P)
  delivered t none = none
  delivered t (some (none, ctx)) = some (pos 0, none, with_ctx ctx t)
  delivered t (some (some event, ctx)) =
      if eqb_ℤ t.timer_thread_frame.error_status (pos 0)
      then some (pos 0, some event, with_ctx ctx t)
      else some (pos 1, some event, record (with_ctx ctx t) { capture_error_ack = true })

  -- When to check for a frame next, after the attempt at `now`: a first frame sets the time to
  -- `now`, and without one so far the time of a frame is added to `now` all the same.
  unfoldable pub next_after : Timeval → TimerThread P → Timeval
  next_after now t =
      let usecs = frame_usecs t.ctx.fmt_nominal in
      if t.first_time then tv_add_usecs now usecs else tv_add_usecs t.ctx.frame_time_next usecs

  -- After the attempt; the numerator divides.
  unfoldable pub after_attempt :
      Timeval → Option (ℤ × Option Event × TimerThread P) → Option (Activity × TimerThread P)
  after_attempt now none = none
  after_attempt now (some (ret, event, t)) =
      if eqb_ℤ t.ctx.fmt_nominal.fps_numerator (pos 0)
      then none
      else some (
        tried event,
        record t {
          first_time = first_after ret t.first_time;
          capture_error = ltb_ℤ (pos 0) ret;
          ctx = record t.ctx { frame_time_next = next_after now t };
        },
      )

  unfoldable pub pause_ms : Timeval → TimerThread P → ℤ
  pause_ms now t =
      if not (captures t.ctx.src_state)
      then idle_state_sleep_period_ms
      else if not t.capture_error
      then due_ms t.ctx.frame_time_next now
      else t.sleep_ms

  unfoldable pub asleep : Timeval → TimerThread P → Activity × TimerThread P
  asleep now t =
      let ms = not_negative (pause_ms now t) in
      (
        slept ms,
        record t { sleep_ms = ms; first_time = t.first_time || not (captures t.ctx.src_state) },
      )

  -- Adds the callback of a round to those of the rounds after it.
  unfoldable pub add_activity :
      Activity → Option (List Event × TimerThread P) → Option (List Event × TimerThread P)
  add_activity activity none = none
  add_activity (slept ms) (some (events, t)) = some (events, t)
  add_activity (tried none) (some (events, t)) = some (events, t)
  add_activity (tried (some event)) (some (events, t)) = some (event ∷ events, t)

-- `convert` stands for the conversion functions, as in `deliver_frame`.
module _ {P : Type 0} (convert : ConvFunc → ℤ → ℤ → Bytes → Bytes → Option (ℤ × Bytes)) where
  -- The frame that was read, with the error status as it is: every frame is to be sent.
  unfoldable pub deliver_read : TimerThread P → Option (Option Event × SrcContext P)
  deliver_read t =
      let ctx = with_frame t.timer_thread_frame t.ctx in
      let error_status = t.timer_thread_frame.error_status in
      with_picture convert (pos 1) error_status (picture_of error_status ctx)

  unfoldable pub read_result :
      TimerThread P → ReadResult FrameInfo → Option (ℤ × Option Event × TimerThread P)
  read_result t fault = none
  read_result t (failed db) = some (negsuc 0, none, record t { double_buff = db })
  read_result t (got frame db) =
      let t' = record t { double_buff = db; timer_thread_frame = frame } in
      delivered t' (deliver_read t')

  -- `deliver_frame` with `use_timer_thread`: what it returns, and the callback that it makes.
  unfoldable pub timer_deliver : TimerThread P → Option (ℤ × Option Event × TimerThread P)
  timer_deliver t = read_result t (read t.double_buff)

  -- A round of the loop, where `vc_now` gives `now`.
  unfoldable pub timer_round : Timeval → TimerThread P → Option (Activity × TimerThread P)
  timer_round now t =
      if t.capture_error
        || not (captures t.ctx.src_state)
        || not (tv_greater_or_equal now t.ctx.frame_time_next)
      then some (asleep now t)
      else after_attempt now (timer_deliver t)

  -- The callbacks of a run of rounds, in order.
  unfoldable pub timer_rounds : List Wake → TimerThread P → Option (List Event × TimerThread P)
  timer_rounds [] t = some ([], t)
  timer_rounds (w ∷ ws) t = elim (timer_round w.now (record t { double_buff = w.double_buff })) [
    | none ↦ none
    | some (activity, t') ↦ add_activity activity (timer_rounds ws t')
  ]
