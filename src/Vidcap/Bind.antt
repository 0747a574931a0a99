-- ===== src/Vidcap/Bind.antt =====
-- `vidcap_format_bind`.
pub mod Ready
use libvidcap.Base.{
  ℕ, ◌+◌, ◌-◌, Option, none, some, List, get_elem?, Bool, true, false, eqb_ℤ, if◌then◌else◌, ℤ, pos,
  Bytes,
}
use libvidcap.Format.{FmtInfo}
use libvidcap.Conv.Table.{conversion_func_get}
use libvidcap.Conv.Size.{fmt_size_get}
use libvidcap.Sapi.Context.{SrcContext, Backend, src_bound}
use libvidcap.Vidcap.Blocks.{Outcome, held, minus, is_capturing}

-- The size of a frame of a format.
abbrev pub frame_size : FmtInfo → ℤ
frame_size fmt = fmt_size_get fmt.width fmt.height fmt.fourcc

module _ {P : Type 0} where
  abbrev pub fail : ℕ → SrcContext P → Outcome P
  fail live ctx = record { ret = minus 1; live = live; ctx = ctx }

  abbrev pub bound : ℕ → SrcContext P → Outcome P
  bound live ctx = record { ret = pos 0; live = live; ctx = record ctx { src_state = src_bound } }

  abbrev pub with_formats : SrcContext P → FmtInfo → FmtInfo → P → SrcContext P
  with_formats ctx native fmt p = record ctx {
    fmt_native = native;
    fmt_nominal = fmt;
    fmt_conv_func = conversion_func_get native.fourcc fmt.fourcc;
    priv = p;
  }

  -- `fmt_list[0]`, where no format is given: `some none` where the list is empty, and `none` a
  -- fault.
  unfoldable pub default_format : SrcContext P → Option (Option FmtInfo)
  default_format ctx = if eqb_ℤ ctx.fmt_list_len (pos 0) then some none else elim (ctx.fmt_list) [
    | none ↦ none
    | some list ↦ elim (get_elem? list 0) [ none ↦ none | some fmt ↦ some (some fmt) ]
  ]

-- `malloc i size` is what the call number `i` of `malloc` gives, and `none` its null pointer.
-- `live` is the number of blocks that are allocated.
module _ {P : Type 0} (backend : Backend P) (malloc : ℕ → ℤ → Option Bytes) where
  -- The buffer of a conversion, if there is one, and the new state.
  unfoldable pub bind_conv : ℕ → SrcContext P → Outcome P
  bind_conv live ctx = elim (ctx.fmt_conv_func) [
    | none ↦ bound live ctx
    | some function ↦
        let size = frame_size ctx.fmt_nominal in
        let sized = record ctx { fmt_conv_buf_size = size } in
        if eqb_ℤ size (pos 0) then fail live sized else elim (malloc 1 size) [
          | none ↦ fail live sized
          | some b ↦ bound (live + 1) (record sized { fmt_conv_buf = some b })
        ]
  ]

  -- With the new buffer for a frame without stride; the buffer of an old conversion is freed.
  unfoldable pub bind_stride : ℕ → SrcContext P → Option Bytes → Outcome P
  bind_stride live ctx none = fail live ctx
  bind_stride live ctx (some b) =
      bind_conv (live + 1 - held ctx.fmt_conv_buf)
        (record ctx { stride_free_buf = some b; fmt_conv_buf = none })

  -- From the first `free` to the end.
  unfoldable pub bind_buffers : ℕ → SrcContext P → Outcome P
  bind_buffers live ctx =
      let freed = live - held ctx.stride_free_buf in
      let size = frame_size ctx.fmt_native in
      let sized = record ctx { stride_free_buf = none; stride_free_buf_size = size } in
      if eqb_ℤ size (pos 0) then fail freed sized else bind_stride freed sized (malloc 0 size)

  -- With what the backend's `format_bind` returns.
  unfoldable pub bind_bound : ℕ → SrcContext P → FmtInfo → FmtInfo → ℤ × P → Outcome P
  bind_bound live ctx fmt native (err, p) =
      if eqb_ℤ err (pos 0)
      then bind_buffers live (with_formats ctx native fmt p)
      else fail live (record ctx { priv = p })

  -- With what the backend's `format_validate` returns.
  unfoldable pub bind_valid : ℕ → SrcContext P → FmtInfo → Option FmtInfo × P → Outcome P
  bind_valid live ctx fmt (none, p) = fail live (record ctx { priv = p })
  bind_valid live ctx fmt (some native, p) =
      bind_bound live ctx fmt native (backend.format_bind p fmt)

  -- With the format to bind.
  unfoldable pub bind_to : ℕ → SrcContext P → FmtInfo → Outcome P
  bind_to live ctx fmt = bind_valid live ctx fmt (backend.format_validate ctx.priv fmt true)

  unfoldable pub format_bind : ℕ → SrcContext P → Option FmtInfo → Option (Outcome P)
  format_bind live ctx fmt_info =
      if is_capturing ctx.src_state then some (fail live ctx) else elim fmt_info [
        | some fmt ↦ some (bind_to live ctx fmt)
        | none ↦ elim (default_format ctx) [
          | none ↦ none
          | some none ↦ some (fail live ctx)
          | some (some fmt) ↦ some (bind_to live ctx fmt)
        ]
      ]
