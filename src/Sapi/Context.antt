-- ===== src/Sapi/Context.antt =====
-- src/sapi_context.h: the state of a source, and what a backend does for it.
use Prim.Native.String.{String}
use libvidcap.Base.{ℕ, Bool, Option, List, ℤ, Bytes}
use libvidcap.Format.{FmtInfo}
use libvidcap.Conv.Table.{ConvFunc}
use libvidcap.SlidingWindow.{SlidingWindow}
use libvidcap.Sapi.Time.{Timeval}

-- `enum state_enum`
pub data SrcState : Type 0 where
  src_acquired src_bound src_capturing : SrcState

-- `struct vidcap_src_info`
pub record SrcInfo : Type 0 where
  pub identifier : String
  pub description : String

-- `struct frame_info`
pub record FrameInfo : Type 0 where
  pub video_data : Bytes
  pub video_data_size : ℤ
  pub error_status : ℤ
  pub stride : ℤ
  pub capture_time : Timeval

-- A backend's functions, over its private state `P`, which is all that they write.
-- `format_validate` has the native format, or `none` where the function returns 0; its last
-- argument is `forBinding`.
pub record Backend (P : Type 0) : Type 0 where
  pub release : P → ℤ × P
  pub format_validate : P → FmtInfo → Bool → Option FmtInfo × P
  pub format_bind : P → FmtInfo → ℤ × P
  pub start_capture : P → ℤ × P
  pub stop_capture : P → ℤ × P

-- `struct sapi_src_context`. A pointer is an `Option` of what it points at. The functions at its
-- top are a `Backend`. The timer thread has no part in it: `vidcap_src_acquire` sets
-- `use_timer_thread` to 0, and nothing sets it otherwise.
pub record SrcContext (P : Type 0) : Type 0 where
  pub src_info : SrcInfo
  pub frame_times : Option (SlidingWindow Timeval)
  pub frame_time_next : Timeval
  pub fmt_nominal : FmtInfo
  pub fmt_native : FmtInfo
  pub fmt_conv_func : Option ConvFunc
  pub fmt_conv_buf : Option Bytes
  pub fmt_conv_buf_size : ℤ
  pub stride_free_buf : Option Bytes
  pub stride_free_buf_size : ℤ
  pub fmt_list : Option (List FmtInfo)
  pub fmt_list_len : ℤ
  pub src_state : SrcState
  pub capture_callback : Option ℕ
  pub capture_data : ℤ
  pub callback_frame : FrameInfo
  pub priv : P
