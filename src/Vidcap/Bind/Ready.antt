-- ===== src/Vidcap/Bind/Ready.antt =====
-- What `vidcap_format_bind` leaves behind, on each of its branches.
use libvidcap.Base.{
  ℕ, ◌+◌, ◌-◌, ◌≡◌, refl, ap, ◌∙◌, arith, ◌⊎◌, inl, inr, Option, none, some, true, false,
  Bool-cases, eqb_ℤ, ℤ, pos, negsuc, Bytes,
}
use libvidcap.Format.{FmtInfo}
use libvidcap.Conv.Table.{ConvFunc, conversion_func_get}
use libvidcap.Sapi.Context.{SrcContext, Backend, src_bound}
use libvidcap.Vidcap.Blocks.{Outcome, held, is_capturing, owned}
use libvidcap.Vidcap.Bind.{
  frame_size, bind_conv, bind_stride, bind_buffers, bind_bound, bind_valid, bind_to, with_formats,
  format_bind,
}

-- The buffer of a conversion, if there is one: what `malloc` gave for the size of a frame of the nominal
-- format.
abbrev pub ConvReady :
    {P : Type 0} → (ℕ → ℤ → Option Bytes) → SrcContext P → Option ConvFunc → Type 0
ConvReady malloc ctx none = ctx.fmt_conv_buf ≡ none
ConvReady malloc ctx (some function) =
    (ctx.fmt_conv_buf_size ≡ frame_size ctx.fmt_nominal)
    × (ctx.fmt_conv_buf ≡ malloc 1 (frame_size ctx.fmt_nominal))
    × (held ctx.fmt_conv_buf ≡ 1)

-- A source that can capture: its conversion is the one from the native format to the nominal one,
-- and each buffer that a frame needs is there: the block that `malloc` gave for a frame's size.
pub record Ready {P : Type 0} (malloc : ℕ → ℤ → Option Bytes) (ctx : SrcContext P) : Type 0 where
  pub state : ctx.src_state ≡ src_bound
  pub function :
      ctx.fmt_conv_func ≡ conversion_func_get ctx.fmt_native.fourcc ctx.fmt_nominal.fourcc
  pub stride_size : ctx.stride_free_buf_size ≡ frame_size ctx.fmt_native
  pub stride_block : ctx.stride_free_buf ≡ malloc 0 (frame_size ctx.fmt_native)
  pub stride_buf : held ctx.stride_free_buf ≡ 1
  pub conv : ConvReady malloc ctx ctx.fmt_conv_func

-- The fields that binding does not touch, and the blocks.
pub record Kept {P : Type 0} (base : ℕ) (ctx : SrcContext P) (o : Outcome P) : Type 0 where
  pub blocks : o.live ≡ base + owned o.ctx
  pub list : o.ctx.fmt_list ≡ ctx.fmt_list
  pub list_len : o.ctx.fmt_list_len ≡ ctx.fmt_list_len
  pub times : o.ctx.frame_times ≡ ctx.frame_times

-- Either 0 is returned, and the source is ready for the format, or -1 is returned and the state
-- is the old one, though the nominal format may be the new one.
abbrev pub Decided :
    {P : Type 0} → (ℕ → ℤ → Option Bytes) → SrcContext P → FmtInfo → Outcome P → Type 0
Decided malloc ctx fmt o =
    ((o.ret ≡ pos 0) × Ready malloc o.ctx × (o.ctx.fmt_nominal ≡ fmt))
    ⊎ ((o.ret ≡ negsuc 0)
        × (o.ctx.src_state ≡ ctx.src_state)
        × ((o.ctx.fmt_nominal ≡ ctx.fmt_nominal) ⊎ (o.ctx.fmt_nominal ≡ fmt)))

-- The first part of `Ready`, before the buffer of the conversion.
record HalfReady {P : Type 0} (malloc : ℕ → ℤ → Option Bytes) (ctx : SrcContext P) : Type 0 where
  function : ctx.fmt_conv_func ≡ conversion_func_get ctx.fmt_native.fourcc ctx.fmt_nominal.fourcc
  stride_size : ctx.stride_free_buf_size ≡ frame_size ctx.fmt_native
  stride_block : ctx.stride_free_buf ≡ malloc 0 (frame_size ctx.fmt_native)
  stride_buf : held ctx.stride_free_buf ≡ 1
  conv_buf : ctx.fmt_conv_buf ≡ none

module _ {P : Type 0} (backend : Backend P) (malloc : ℕ → ℤ → Option Bytes) (base : ℕ) where
  bind_conv_lem :
      (live : ℕ) (ctx : SrcContext P)
      → live ≡ base + owned ctx
      → HalfReady malloc ctx
      → let o = bind_conv backend malloc live ctx in
        Kept base ctx o × Decided malloc ctx ctx.fmt_nominal o
  unfolding bind_conv
  bind_conv_lem live ctx h half = (ground arith, ground arith)

  -- Decided for a source that differs in other fields only.
  chain :
      {ctx mid : SrcContext P} {fmt : FmtInfo} {o : Outcome P}
      → mid.fmt_list ≡ ctx.fmt_list
      → mid.fmt_list_len ≡ ctx.fmt_list_len
      → mid.frame_times ≡ ctx.frame_times
      → mid.src_state ≡ ctx.src_state
      → mid.fmt_nominal ≡ fmt
      → Kept base mid o × Decided malloc mid mid.fmt_nominal o
      → Kept base ctx o × Decided malloc ctx fmt o
  chain a b c d n (k, e) = (
    record { blocks = k.blocks; list = k.list ∙ a; list_len = k.list_len ∙ b; times = k.times ∙ c },
    elim e [
      | inl (z, r, f) ↦ inl (z, r, f ∙ n)
      | inr (r, s, inl f) ↦ inr (r, s ∙ d, inr (f ∙ n))
      | inr (r, s, inr f) ↦ inr (r, s ∙ d, inr (f ∙ n))
    ],
  )

  bind_stride_lem :
      (live : ℕ) (ctx : SrcContext P) (b : Option Bytes)
      → b ≡ malloc 0 (frame_size ctx.fmt_native)
      → live ≡ base + owned ctx
      → ctx.stride_free_buf ≡ none
      → ctx.stride_free_buf_size ≡ frame_size ctx.fmt_native
      → ctx.fmt_conv_func ≡ conversion_func_get ctx.fmt_native.fourcc ctx.fmt_nominal.fourcc
      → let o = bind_stride backend malloc live ctx b in
        Kept base ctx o × Decided malloc ctx ctx.fmt_nominal o
  unfolding bind_stride
  bind_stride_lem live ctx none m h e s f = (ground arith, ground arith)
  bind_stride_lem live ctx (some b) m h e s f = chain refl refl refl refl refl (
      bind_conv_lem (live + 1 - held ctx.fmt_conv_buf)
        (record ctx { stride_free_buf = some b; fmt_conv_buf = none }) (omega (arith, ap held e, h))
        (record {
          function = f;
          stride_size = s;
          stride_block = m;
          stride_buf = refl;
          conv_buf = refl;
        }))

  bind_buffers_lem :
      (live : ℕ) (ctx : SrcContext P)
      → live ≡ base + owned ctx
      → ctx.fmt_conv_func ≡ conversion_func_get ctx.fmt_native.fourcc ctx.fmt_nominal.fourcc
      → let o = bind_buffers backend malloc live ctx in
        Kept base ctx o × Decided malloc ctx ctx.fmt_nominal o
  unfolding bind_buffers
  bind_buffers_lem live ctx h f =
      let size = frame_size ctx.fmt_native in
      elim (Bool-cases (eqb_ℤ size (pos 0))) [
        | inl e ↦ rw e (ground arith, ground arith)
        | inr e ↦ rw e (
            chain refl refl refl refl refl (
              bind_stride_lem (live - held ctx.stride_free_buf)
                (record ctx { stride_free_buf = none; stride_free_buf_size = size }) (malloc 0 size)
                refl (omega (arith, h)) refl refl f))
      ]

  bind_bound_lem :
      (live : ℕ) (ctx : SrcContext P) (fmt native : FmtInfo) (r : ℤ × P)
      → live ≡ base + owned ctx
      → let o = bind_bound backend malloc live ctx fmt native r in
        Kept base ctx o × Decided malloc ctx fmt o
  unfolding bind_bound
  bind_bound_lem live ctx fmt native (err, p) h = elim (Bool-cases (eqb_ℤ err (pos 0))) [
    | inl e ↦ rw e (
        chain refl refl refl refl refl
          (bind_buffers_lem live (with_formats ctx native fmt p) h refl))
    | inr e ↦ rw e (ground arith, inr (refl, refl, inl refl))
  ]

  bind_valid_lem :
      (live : ℕ) (ctx : SrcContext P) (fmt : FmtInfo) (r : Option FmtInfo × P)
      → live ≡ base + owned ctx
      → let o = bind_valid backend malloc live ctx fmt r in
        Kept base ctx o × Decided malloc ctx fmt o
  unfolding bind_valid
  bind_valid_lem live ctx fmt (none, p) h = (ground arith, inr (refl, refl, inl refl))
  bind_valid_lem live ctx fmt (some native, p) h =
      bind_bound_lem live ctx fmt native (backend.format_bind p fmt) h

  pub bind_to_lem :
      (live : ℕ) (ctx : SrcContext P) (fmt : FmtInfo)
      → live ≡ base + owned ctx
      → let o = bind_to backend malloc live ctx fmt in Kept base ctx o × Decided malloc ctx fmt o
  unfolding bind_to
  bind_to_lem live ctx fmt h =
      bind_valid_lem live ctx fmt (backend.format_validate ctx.priv fmt true) h

  -- In a source that does not capture and whose blocks are accounted for, binding a given format
  -- does not fault. It returns 0, with the source bound to the format, its conversion the one from
  -- the native format and its buffers the blocks that `malloc` gave for the sizes of their frames; or it
  -- returns -1 and `src_state` is the old one. In both cases every block is still accounted for, and the format list and the window
  -- of frame times are the old ones.
  pub format_bind-Ready :
      (live : ℕ) (ctx : SrcContext P) (fmt : FmtInfo)
      → live ≡ base + owned ctx
      → is_capturing ctx.src_state ≡ false
      → (o : Outcome P) × (format_bind backend malloc live ctx (some fmt) ≡ some o)
        × Kept base ctx o
        × Decided malloc ctx fmt o
  unfolding format_bind
  format_bind-Ready live ctx fmt h idle = (
    bind_to backend malloc live ctx fmt,
    rw idle refl,
    (bind_to_lem live ctx fmt h).0,
    (bind_to_lem live ctx fmt h).1,
  )
