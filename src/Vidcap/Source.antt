-- ===== src/Vidcap/Source.antt =====
-- `vidcap_src_acquire`, `vidcap_src_release` and the calls that only read a source.
use libvidcap.Base.{
  ℕ, ◌+◌, ◌-◌, ◌*◌, Option, none, some, List, get_elem?, Bool, not, ◌||◌, eqb_ℤ, ltb_ℤ, leb_ℤ,
  if◌then◌else◌, ℤ, pos, negsuc,
}
use libvidcap.Format.{FmtInfo}
use libvidcap.Sapi.Context.{SrcContext, SrcInfo, Backend, src_acquired}
use libvidcap.Sapi.FormatList.{format_list_build}
use libvidcap.Vidcap.Blocks.{held, minus, is_capturing}

abbrev no_format : FmtInfo
no_format = record {
  width = pos 0;
  height = pos 0;
  fourcc = pos 0;
  fps_numerator = pos 0;
  fps_denominator = pos 0;
}

-- The source that `calloc` gives, after `acquire_source` has filled in its own fields.
abbrev pub zeroed : {P : Type 0} → SrcInfo → P → SrcContext P
zeroed info p = record {
  src_info = info;
  frame_times = none;
  frame_time_next = record { tv_sec = pos 0; tv_usec = pos 0 };
  fmt_nominal = no_format;
  fmt_native = no_format;
  fmt_conv_func = none;
  fmt_conv_buf = none;
  fmt_conv_buf_size = pos 0;
  stride_free_buf = none;
  stride_free_buf_size = pos 0;
  fmt_list = none;
  fmt_list_len = pos 0;
  src_state = src_acquired;
  capture_callback = none;
  capture_data = pos 0;
  callback_frame = record {
    video_data = record { size = 0; at = λ i. 0 };
    video_data_size = pos 0;
    error_status = pos 0;
    stride = pos 0;
    capture_time = record { tv_sec = pos 0; tv_usec = pos 0 };
  };
  priv = p;
}

module _ {P : Type 0} (backend : Backend P) (realloc_ok : ℕ → Bool) where
  -- After the format list: the log of a failure reads `src_info->identifier`, a fault where it is
  -- null. `n` blocks are the list's.
  unfoldable pub acquired :
      Option SrcInfo → ℕ → ℤ × ℕ × SrcContext P → Option (ℕ × Option (SrcContext P))
  acquired src_info live (err, n, ctx) =
      if eqb_ℤ err (pos 0)
      then some (live + 1 + n, some (record ctx { src_state = src_acquired }))
      else elim src_info [ none ↦ none | some _ ↦ some (live + n, none) ]

  -- With what the backend's `acquire_source` returns.
  unfoldable pub source_acquired :
      Option SrcInfo → ℕ → ℤ × SrcInfo × P → Option (ℕ × Option (SrcContext P))
  source_acquired src_info live (ret, info, p) =
      if eqb_ℤ ret (pos 0)
      then acquired src_info live (format_list_build backend realloc_ok (zeroed info p))
      else some (live, none)

  -- `vidcap_src_acquire`: the number of blocks that are allocated after it, and the source, or
  -- `none` for a null pointer.
  -- `acquire_source` is the backend's function: what it returns, and the fields that it fills in.
  unfoldable pub src_acquire :
      (acquire_source : Option SrcInfo → ℤ × SrcInfo × P) (calloc_ok : Bool)
      → ℕ
      → Option SrcInfo
      → Option (ℕ × Option (SrcContext P))
  src_acquire acquire_source calloc_ok live src_info =
      if not calloc_ok
      then some (live, none)
      else source_acquired src_info live (acquire_source src_info)

module _ {P : Type 0} (backend : Backend P) where
  -- `free(src_ctx->fmt_list)` is called if the length is not 0.
  abbrev pub list_blocks : SrcContext P → ℕ
  list_blocks ctx = if eqb_ℤ ctx.fmt_list_len (pos 0) then 0 else held ctx.fmt_list

  -- `vidcap_src_release`: what it returns, the number of blocks that are allocated, and the source
  -- if it is still there.
  unfoldable pub src_release : ℕ → SrcContext P → ℤ × ℕ × Option (SrcContext P)
  src_release live ctx = if is_capturing ctx.src_state then (minus 1, live, some ctx) else (
    (backend.release ctx.priv).0,
    live
        - list_blocks ctx
        - held ctx.fmt_conv_buf
        - held ctx.stride_free_buf
        - 2 * held ctx.frame_times
        - 1,
    none,
  )

-- The entry of a list at an index that is not negative.
entry_at : Option (List FmtInfo) → ℤ → Option FmtInfo
entry_at (some list) (pos i) = get_elem? list i
entry_at (some list) (negsuc i) = none
entry_at none i = none

module _ {P : Type 0} where
  pub src_info_get : SrcContext P → ℤ × SrcInfo
  src_info_get ctx = (pos 0, ctx.src_info)

  pub format_info_get : SrcContext P → ℤ × FmtInfo
  format_info_get ctx = (pos 0, ctx.fmt_nominal)

  -- `vidcap_format_enumerate`: `some none` where it returns 0, `some (some fmt)` where it returns 1,
  -- and `none` a fault.
  unfoldable pub format_enumerate : SrcContext P → ℤ → Option (Option FmtInfo)
  unfolding entry_at
  format_enumerate ctx index =
      if ltb_ℤ index (pos 0) || leb_ℤ ctx.fmt_list_len index
      then some none
      else elim (entry_at ctx.fmt_list index) [ none ↦ none | some fmt ↦ some (some fmt) ]
