-- ===== src/Vidcap/Calls/Accounted.antt =====
-- Every block of a source is accounted for after any sequence of calls.
use libvidcap.Base.{
  ℕ, ◌+◌, ◌≡◌, ◌≢◌, refl, ◌∙◌, arith, inl, inr, Option, none, some, List, [], ◌∷◌, length, true,
  false, Bool-cases, ℤ, pos, Bytes,
}
use libvidcap.Format.{FmtInfo}
use libvidcap.Sapi.FormatList.{pointer_to}
use libvidcap.Sapi.Context.{SrcContext, Backend, src_acquired}
use libvidcap.Vidcap.Blocks.{Outcome, is_capturing, owned}
use libvidcap.Vidcap.Bind.{fail, bind_to, default_format, format_bind}
use libvidcap.Vidcap.Bind.Ready.{Kept, Decided, bind_to_lem, format_bind-Ready}
use libvidcap.Vidcap.Calls.{Call, bind_call, start_call, stop_call}
use libvidcap.Vidcap.Calls.Rates.{Divides, AllDivide}

-- `base` blocks are live beside those of the source. The list is as `sapi_src_format_list_build`
-- made it, there are frame times only during a capture, and a format that was bound has a rate.
pub record Accounted {P : Type 0} (base : ℕ) (live : ℕ) (ctx : SrcContext P) : Type 0 where
  pub formats : List FmtInfo
  pub list : ctx.fmt_list ≡ pointer_to formats
  pub list_len : ctx.fmt_list_len ≡ pos (length formats)
  pub blocks : live ≡ base + owned ctx
  pub no_times : is_capturing ctx.src_state ≡ false → ctx.frame_times ≡ none
  pub rates : AllDivide formats
  pub rate : ctx.src_state ≢ src_acquired → Divides ctx.fmt_nominal.fps_denominator

-- The formats of the calls have a rate.
abbrev pub HasRates : Call → Type 0
HasRates (bind_call malloc none) = Unit {0}
HasRates (bind_call malloc (some fmt)) = Divides fmt.fps_denominator
HasRates (start_call calloc_ok callback user_data) = Unit {0}
HasRates stop_call = Unit {0}

abbrev pub AllHaveRates : List Call → Type 0
AllHaveRates [] = Unit {0}
AllHaveRates (c ∷ cs) = HasRates c × AllHaveRates cs

module _ {P : Type 0} (backend : Backend P) {base live : ℕ} (ctx : SrcContext P)
    (a : Accounted base live ctx) where
  abbrev pub Result : Option (Outcome P) → Type 0
  Result r = (o : Outcome P) × (r ≡ some o) × Accounted base o.live o.ctx

  after_bind :
      (malloc : ℕ → ℤ → Option Bytes) (fmt : FmtInfo) (o : Outcome P)
      → is_capturing ctx.src_state ≡ false
      → Divides fmt.fps_denominator
      → Kept base ctx o
      → Decided malloc ctx fmt o
      → Accounted base o.live o.ctx
  after_bind malloc fmt o idle_src d k e = record {
    formats = a.formats;
    list = k.list ∙ a.list;
    list_len = k.list_len ∙ a.list_len;
    blocks = k.blocks;
    no_times = λ h. k.times ∙ a.no_times idle_src;
    rates = a.rates;
    rate = λ h. elim e [
      | inl (z, r, f) ↦ rw f d
      | inr (z, s, inl f) ↦ rw f (a.rate (λ q. h (s ∙ q)))
      | inr (z, s, inr f) ↦ rw f d
    ];
  }

  default_empty : ctx.fmt_list_len ≡ pos 0 → default_format ctx ≡ some none
  unfolding default_format
  default_empty n = rw n refl

  default_first :
      (f : FmtInfo) (l : List FmtInfo)
      → ctx.fmt_list ≡ some (f ∷ l)
      → ctx.fmt_list_len ≡ pos (length (f ∷ l))
      → default_format ctx ≡ some (some f)
  unfolding default_format
  default_first f l e n = rw (n, e) (ground arith)

  -- The first format of the list, which exists if the length is not 0.
  bind_default :
      (malloc : ℕ → ℤ → Option Bytes) (l : List FmtInfo)
      → ctx.fmt_list ≡ pointer_to l
      → ctx.fmt_list_len ≡ pos (length l)
      → AllDivide l
      → is_capturing ctx.src_state ≡ false
      → Result (format_bind backend malloc live ctx none)
  unfolding format_bind
  bind_default malloc [] e n d idle_src = (fail live ctx, rw (idle_src, default_empty n) refl, a)
  bind_default malloc (f ∷ l) e n (d, ds) idle_src =
      let o = bind_to backend malloc live ctx f in
      let (k, dec) = bind_to_lem backend malloc base live ctx f a.blocks in
      (o, rw (idle_src, default_first f l e n) refl, after_bind malloc f o idle_src d k dec)

  bind_refused :
      (malloc : ℕ → ℤ → Option Bytes) (fmt_info : Option FmtInfo)
      → is_capturing ctx.src_state ≡ true
      → Result (format_bind backend malloc live ctx fmt_info)
  unfolding format_bind
  bind_refused malloc fmt_info e = (fail live ctx, rw e refl, a)

  pub bind_keeps :
      (malloc : ℕ → ℤ → Option Bytes) (fmt_info : Option FmtInfo)
      → HasRates (bind_call malloc fmt_info)
      → Result (format_bind backend malloc live ctx fmt_info)
  bind_keeps malloc fmt_info d = elim (Bool-cases (is_capturing ctx.src_state)) [
    | inl e ↦ bind_refused malloc fmt_info e
    | inr e ↦ bind_idle fmt_info d e
  ]
    where
      bind_idle :
          (f : Option FmtInfo)
          → HasRates (bind_call malloc f)
          → is_capturing ctx.src_state ≡ false
          → Result (format_bind backend malloc live ctx f)
      bind_idle none d e = bind_default malloc a.formats a.list a.list_len a.rates e
      bind_idle (some f) d e =
          let (o, run, k, dec) = format_bind-Ready backend malloc base live ctx f a.blocks e in
          (o, run, after_bind malloc f o e d k dec)
