-- ===== src/Vidcap/Capture.antt =====
-- `vidcap_src_capture_start` and `vidcap_src_capture_stop`, without the timer thread, and
-- `sapi_src_capture_notify`'s end of a capture.
use libvidcap.Base.{
  ℕ, ◌+◌, ◌-◌, ◌*◌, Option, none, some, Bool, not, eqb_ℤ, if◌then◌else◌, ℤ, pos, negsuc, int32,
  quot, ◌*ℤ◌,
}
use libvidcap.Format.{FmtInfo}
use libvidcap.SlidingWindow.{SlidingWindow, create}
use libvidcap.Sapi.Time.{Timeval}
use libvidcap.Sapi.Context.{SrcContext, Backend, src_bound, src_capturing}
use libvidcap.Vidcap.Blocks.{Outcome, held, minus, is_capturing, is_bound}

abbrev pub invalid_user_data : ℤ
invalid_user_data = negsuc 0

abbrev pub zero_time : Timeval
zero_time = record { tv_sec = pos 0; tv_usec = pos 0 }

abbrev pub sizeof_timeval : ℤ
sizeof_timeval = pos 16

-- The frames of four seconds, in `int`s.
unfoldable pub window_len : FmtInfo → ℤ
window_len fmt = int32 (quot (int32 (pos 4 *ℤ fmt.fps_numerator)) fmt.fps_denominator)

module _ {P : Type 0} where
  -- The capture's fields are cleared, the window freed.
  abbrev pub idle : SrcContext P → SrcContext P
  idle ctx = record ctx {
    frame_times = none;
    capture_callback = none;
    capture_data = invalid_user_data;
  }

  -- With what the backend's `start_capture` returns: the device runs, or the window is destroyed
  -- at `capture_start_bail`.
  unfoldable pub started : ℕ → SrcContext P → ℤ × P → Outcome P
  started live ctx (ret, p) =
      if eqb_ℤ ret (pos 0)
      then record {
        ret = ret;
        live = live;
        ctx = record ctx { src_state = src_capturing; priv = p };
      }
      else record {
        ret = ret;
        live = live - 2 * held ctx.frame_times;
        ctx = idle (record ctx { priv = p });
      }

  -- With what the backend's `stop_capture` returns.
  unfoldable pub stopped : ℕ → SrcContext P → ℤ × P → Outcome P
  stopped live ctx (ret, p) = record {
    ret = ret;
    live = live - 2 * held ctx.frame_times;
    ctx = idle (record ctx { src_state = src_bound; priv = p });
  }

module _ {P : Type 0} (backend : Backend P) where
  -- With what `sliding_window_create` returns, two blocks or a null pointer.
  unfoldable pub start_with :
      ℕ → SrcContext P → Option ℕ → ℤ → Option (SlidingWindow Timeval) → Outcome P
  start_with live ctx callback user_data none = record {
    ret = minus 2;
    live = live;
    ctx = record ctx { frame_times = none; frame_time_next = zero_time };
  }
  start_with live ctx callback user_data (some w) =
      let prepared = record ctx {
        frame_times = some w;
        frame_time_next = zero_time;
        capture_callback = callback;
        capture_data = user_data;
      } in
      started (live + 2) prepared (backend.start_capture ctx.priv)

  -- `calloc_ok` is the allocator's answer, as for `sliding_window_create`. `none` is a division
  -- by zero.
  unfoldable pub capture_start :
      (calloc_ok : ℕ → ℕ → Bool) → ℕ → SrcContext P → Option ℕ → ℤ → Option (Outcome P)
  capture_start calloc_ok live ctx callback user_data =
      if eqb_ℤ user_data invalid_user_data
      then some (record { ret = minus 3; live = live; ctx = ctx })
      else if not (is_bound ctx.src_state)
      then some (record { ret = minus 4; live = live; ctx = ctx })
      else if eqb_ℤ ctx.fmt_nominal.fps_denominator (pos 0)
      then none
      else some (
          start_with live ctx callback user_data
            (create calloc_ok zero_time (window_len ctx.fmt_nominal) sizeof_timeval))

  unfoldable pub capture_stop : ℕ → SrcContext P → Outcome P
  capture_stop live ctx =
      if not (is_capturing ctx.src_state)
      then record { ret = minus 1; live = live; ctx = ctx }
      else stopped live ctx (backend.stop_capture ctx.priv)
