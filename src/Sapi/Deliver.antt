-- ===== src/Sapi/Deliver.antt =====
-- `deliver_frame` and `sapi_src_capture_notify`, without the timer thread, which has its module
-- Sapi/Timer.
pub mod Errors
pub mod Runs
pub mod Silence
pub mod OneError
pub mod Frames
mod Tests
use libvidcap.Base.{
  ℕ, Option, none, some, List, [], ◌∷◌, ◌++◌, Bool, true, false, not, ◌&&◌, ◌||◌, eqb_ℤ, ltb_ℤ,
  if◌then◌else◌, ℤ, pos, negsuc, pos_part, Bytes,
}
use libvidcap.Format.{FmtInfo}
use libvidcap.Conv.Table.{ConvFunc}
use libvidcap.Conv.Destride.{destridify}
use libvidcap.Sapi.Time.{Timeval}
use libvidcap.Sapi.Context.{SrcContext, FrameInfo, src_bound}
use libvidcap.Sapi.Pacing.{enforce_framerate}

-- `struct vidcap_capture_info`
pub record CaptureInfo : Type 0 where
  pub video_data : Option Bytes
  pub video_data_size : ℤ
  pub error_status : ℤ
  pub capture_time_sec : ℤ
  pub capture_time_usec : ℤ
  pub format : FmtInfo

-- A call of the application's callback, with its two last arguments.
pub record Event : Type 0 where
  pub callback : ℕ
  pub user_data : ℤ
  pub info : CaptureInfo

-- `buf` and `buf_data_size`
pub record Picture : Type 0 where
  pub buf : Bytes
  pub buf_data_size : ℤ

abbrev pub no_user_data : ℤ
no_user_data = negsuc 0

-- A null pointer is a block of no bytes: any access faults.
abbrev pub or_null : Option Bytes → Bytes
or_null none = record { size = 0; at = λ i. 0 }
or_null (some b) = b

module _ {P : Type 0} where
  -- `enforce_framerate` is asked about frames without an error.
  unfoldable pub send_of : Timeval → SrcContext P → Option (ℤ × SrcContext P)
  send_of now ctx =
      if eqb_ℤ ctx.callback_frame.error_status (pos 0)
      then enforce_framerate now ctx
      else some (pos 0, ctx)

  -- `error_status`, once the frame rate was enforced.
  abbrev pub status : ℤ → SrcContext P → ℤ
  status send ctx = if ltb_ℤ send (pos 0) then negsuc 999 else ctx.callback_frame.error_status

  abbrev pub raw : SrcContext P → Picture
  raw ctx = record {
    buf = ctx.callback_frame.video_data;
    buf_data_size = ctx.callback_frame.video_data_size;
  }

  -- Negative sizes and strides are outside of the model: they count as a fault.
  unfoldable pub destride_frame : SrcContext P → Option (ℤ × Bytes)
  destride_frame ctx =
      let native = ctx.fmt_native in
      let stride = ctx.callback_frame.stride in
      if ltb_ℤ native.width (pos 0) || ltb_ℤ native.height (pos 0) || ltb_ℤ stride (pos 0)
      then none
      else destridify (pos_part native.width) (pos_part native.height) native.fourcc
          (pos_part stride) ctx.callback_frame.video_data (or_null ctx.stride_free_buf)

  -- With what `destridify` returns, and the bytes of `stride_free_buf`.
  unfoldable pub destrided : SrcContext P → Option (ℤ × Bytes) → Option (Picture × SrcContext P)
  destrided ctx none = none
  destrided ctx (some (ret, dst)) =
      if eqb_ℤ ret (pos 0)
      then some (
        record { buf = dst; buf_data_size = ctx.stride_free_buf_size },
        record ctx { stride_free_buf = some dst },
      )
      else some (raw ctx, ctx)

  unfoldable pub picture_of : ℤ → SrcContext P → Option (Picture × SrcContext P)
  picture_of error_status ctx =
      if eqb_ℤ error_status (pos 0) && not (eqb_ℤ ctx.callback_frame.stride (pos 0))
      then destrided ctx (destride_frame ctx)
      else some (raw ctx, ctx)

  abbrev pub info_with : SrcContext P → Option Bytes → ℤ → ℤ → CaptureInfo
  info_with ctx video_data size error_status = record {
    video_data = video_data;
    video_data_size = size;
    error_status = error_status;
    capture_time_sec = ctx.callback_frame.capture_time.tv_sec;
    capture_time_usec = ctx.callback_frame.capture_time.tv_usec;
    format = ctx.fmt_nominal;
  }

  -- With what the conversion returns, and the bytes of `fmt_conv_buf`.
  unfoldable pub converted : SrcContext P → Option (ℤ × Bytes) → Option (CaptureInfo × SrcContext P)
  converted ctx none = none
  converted ctx (some (ret, out)) = some (
    info_with ctx (some out) ctx.fmt_conv_buf_size (if eqb_ℤ ret (pos 0) then pos 0 else negsuc 0),
    record ctx { fmt_conv_buf = some out },
  )

  -- The callback is made if the frame is to be sent or has an error, and the application listens.
  unfoldable pub event_of : ℤ → ℤ → CaptureInfo → SrcContext P → Option Event
  event_of send error_status info ctx = elim (ctx.capture_callback) [
    | none ↦ none
    | some callback ↦
        if (not (eqb_ℤ send (pos 0)) || not (eqb_ℤ error_status (pos 0)))
          && not (eqb_ℤ ctx.capture_data no_user_data)
        then some (record { callback = callback; user_data = ctx.capture_data; info = info })
        else none
  ]

-- `convert function width height src dst` is a call of a conversion function: what it returns and
-- the new bytes of `dst`, or `none` for an access out of a block.
module _ {P : Type 0} (convert : ConvFunc → ℤ → ℤ → Bytes → Bytes → Option (ℤ × Bytes)) where
  unfoldable pub info_of : ℤ → Picture → SrcContext P → Option (CaptureInfo × SrcContext P)
  info_of error_status picture ctx =
      if not (eqb_ℤ error_status (pos 0))
      then some (info_with ctx none (pos 0) error_status, ctx)
      else elim (ctx.fmt_conv_func) [
        | none ↦ some (info_with ctx (some picture.buf) picture.buf_data_size error_status, ctx)
        | some function ↦ converted ctx (
            convert function ctx.fmt_native.width ctx.fmt_native.height picture.buf
              (or_null ctx.fmt_conv_buf))
      ]

  unfoldable pub finish_frame :
      ℤ → ℤ → Option (CaptureInfo × SrcContext P) → Option (Option Event × SrcContext P)
  finish_frame send error_status none = none
  finish_frame send error_status (some (info, ctx)) =
      some (event_of send error_status info ctx, ctx)

  unfoldable pub with_picture :
      ℤ → ℤ → Option (Picture × SrcContext P) → Option (Option Event × SrcContext P)
  with_picture send error_status none = none
  with_picture send error_status (some (picture, ctx)) =
      finish_frame send error_status (info_of error_status picture ctx)

  unfoldable pub with_send : Option (ℤ × SrcContext P) → Option (Option Event × SrcContext P)
  with_send none = none
  with_send (some (send, ctx)) =
      with_picture send (status send ctx) (picture_of (status send ctx) ctx)

  -- `deliver_frame` at the time `now`: the callback that it makes, if any, and the context.
  unfoldable pub deliver_frame : Timeval → SrcContext P → Option (Option Event × SrcContext P)
  deliver_frame now ctx = with_send (send_of now ctx)

  abbrev pub packaged : Timeval → SrcContext P → Bytes → ℤ → ℤ → ℤ → SrcContext P
  packaged now ctx video_data video_data_size stride error_status = record ctx {
    callback_frame = record {
      video_data = video_data;
      video_data_size = video_data_size;
      error_status = error_status;
      stride = stride;
      capture_time = now;
    };
  }

  -- The end of the capture, after an error.
  abbrev pub ended : ℤ → SrcContext P → SrcContext P
  ended error_status ctx = if eqb_ℤ error_status (pos 0) then ctx else record ctx {
    src_state = src_bound;
    capture_callback = none;
    capture_data = no_user_data;
  }

  unfoldable pub after_delivery :
      ℤ → Option (Option Event × SrcContext P) → Option (Option Event × SrcContext P)
  after_delivery error_status none = none
  after_delivery error_status (some (event, ctx)) = some (event, ended error_status ctx)

  -- `sapi_src_capture_notify`, which always returns 0. `vc_now` gives `now` both times.
  unfoldable pub capture_notify :
      Timeval → SrcContext P → Bytes → ℤ → ℤ → ℤ → Option (Option Event × SrcContext P)
  capture_notify now ctx video_data video_data_size stride error_status =
      if ltb_ℤ video_data_size (pos 1) && eqb_ℤ error_status (pos 0)
      then some (none, ctx)
      else after_delivery error_status
          (deliver_frame now (packaged now ctx video_data video_data_size stride error_status))
