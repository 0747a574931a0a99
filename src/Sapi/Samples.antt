-- ===== src/Sapi/Samples.antt =====
-- Sources and times for the tests.
use libvidcap.Base.{ℕ, Option, some, none, pos, Bytes}
use libvidcap.Format.{FmtInfo, fourcc_i420}
use libvidcap.SlidingWindow.{SlidingWindow}
use libvidcap.Sapi.Time.{Timeval}
use libvidcap.Sapi.Context.{SrcContext, src_capturing}

abbrev pub at_time : ℕ → ℕ → Timeval
at_time s u = record { tv_sec = pos s; tv_usec = pos u }

-- 640x480 in I420, at `num` frames in `den` seconds.
abbrev pub i420_at : ℕ → ℕ → FmtInfo
i420_at num den = record {
  width = pos 640;
  height = pos 480;
  fourcc = fourcc_i420;
  fps_numerator = pos num;
  fps_denominator = pos den;
}

abbrev pub no_bytes : Bytes
no_bytes = record { size = 0; at = λ i. 0 }

abbrev pub capturing : FmtInfo → Option (SlidingWindow Timeval) → Timeval → SrcContext (Unit {0})
capturing fmt times next = record {
  src_info = record { identifier = "cam"; description = "camera" };
  frame_times = times;
  frame_time_next = next;
  fmt_nominal = fmt;
  fmt_native = fmt;
  fmt_conv_func = none;
  fmt_conv_buf = none;
  fmt_conv_buf_size = pos 0;
  stride_free_buf = some no_bytes;
  stride_free_buf_size = pos 460800;
  fmt_list = none;
  fmt_list_len = pos 0;
  src_state = src_capturing;
  capture_callback = some 1;
  capture_data = pos 7;
  callback_frame = record {
    video_data = no_bytes;
    video_data_size = pos 0;
    error_status = pos 0;
    stride = pos 0;
    capture_time = at_time 0 0;
  };
  priv = tt;
}
