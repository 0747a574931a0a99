-- ===== src/Vidcap/Calls/Lifetime.antt =====
-- From `vidcap_src_acquire` over any calls to `vidcap_src_release`: no fault and no leak.
use libvidcap.Base.{
  ℕ, ◌-◌, ◌*◌, ◌≡◌, refl, ap, arith, inl, inr, Option, none, some, List, [], ◌∷◌, length, Bool,
  true, false, Bool-cases, eqb_ℤ, ℤ, pos,
}
use libvidcap.Format.{FmtInfo}
use libvidcap.Sapi.FormatList.{pointer_to}
use libvidcap.Sapi.Context.{SrcContext, Backend}
use libvidcap.Vidcap.Blocks.{held, is_capturing}
use libvidcap.Vidcap.Capture.{capture_stop, stopped}
use libvidcap.Vidcap.Source.{src_release, list_blocks}
use libvidcap.Vidcap.Calls.{Call, calls}
use libvidcap.Vidcap.Calls.Accounted.{Accounted, AllHaveRates}
use libvidcap.Vidcap.Calls.Keep.{stop_keeps, call_keeps}
use libvidcap.Sapi.Context.{SrcInfo}
use libvidcap.Sapi.FormatList.{Build, built, oom, blocks, finish, each_fourcc, format_list_build}
use libvidcap.Format.{hot_fourcc_list}
use libvidcap.Vidcap.Calls.Rates.{Built, each_fourcc_lem}
use libvidcap.Vidcap.Source.{zeroed, acquired, source_acquired, src_acquire}

module _ {P : Type 0} (backend : Backend P) where
  stop_idles :
      (live : ℕ) (ctx : SrcContext P)
      → is_capturing ctx.src_state ≡ true
      → is_capturing (capture_stop backend live ctx).ctx.src_state ≡ false
  unfolding capture_stop stopped
  stop_idles live ctx e = rw e refl

  list_freed :
      (l : List FmtInfo) (ctx : SrcContext P)
      → ctx.fmt_list ≡ pointer_to l
      → ctx.fmt_list_len ≡ pos (length l)
      → list_blocks backend ctx ≡ held ctx.fmt_list
  list_freed [] ctx e n = rw (e, n) refl
  list_freed (f ∷ l) ctx e n = rw (e, n) (ground arith)

module _ {P : Type 0} (backend : Backend P) {base : ℕ} where
  calls_keep :
      (cs : List Call) (live : ℕ) (ctx : SrcContext P)
      → Accounted base live ctx
      → AllHaveRates cs
      → (live' : ℕ) × (ctx' : SrcContext P) × (calls backend cs live ctx ≡ some (live', ctx'))
        × Accounted base live' ctx'
  unfolding calls
  calls_keep [] live ctx a h = (live, ctx, refl, a)
  calls_keep (c ∷ cs) live ctx a (h, hs) =
      let (o, run, a') = call_keeps backend ctx a c h in
      let (live', ctx', rest, a'') = calls_keep cs o.live o.ctx a' hs in
      (live', ctx', rw (run, calls) rest, a'')

  -- A source that does not capture is released with all of its blocks.
  release_frees :
      (live : ℕ) (ctx : SrcContext P)
      → Accounted base live ctx
      → is_capturing ctx.src_state ≡ false
      → src_release backend live ctx ≡ ((backend.release ctx.priv).0, base, none)
  unfolding src_release
  release_frees live ctx a idle_src =
      let freed : live
            - list_blocks backend ctx
            - held ctx.fmt_conv_buf
            - held ctx.stride_free_buf
            - 2 * held ctx.frame_times
            - 1
          ≡ base =
        omega (arith, a.blocks, list_freed backend a.formats ctx a.list a.list_len) in
      rw idle_src (ap (λ n. ((backend.release ctx.priv).0, n, none)) freed)

  -- A capture that goes on is stopped first.
  stop_frees :
      (live : ℕ) (ctx : SrcContext P)
      → Accounted base live ctx
      → is_capturing ctx.src_state ≡ true
      → let o = capture_stop backend live ctx in
        src_release backend o.live o.ctx ≡ ((backend.release o.ctx.priv).0, base, none)
  stop_frees live ctx a e =
      let o = capture_stop backend live ctx in
      release_frees o.live o.ctx (stop_keeps backend ctx a) (stop_idles backend live ctx e)

-- What `vidcap_src_acquire` returns: blocks that are accounted for, if it is a source.
abbrev AcquiredOk : {P : Type 0} → ℕ → Option (ℕ × Option (SrcContext P)) → Type 0
AcquiredOk base none = Unit {0}
AcquiredOk base (some (live, none)) = Unit {0}
AcquiredOk base (some (live, some ctx)) = Accounted base live ctx

module _ {P : Type 0} (backend : Backend P) (acquire_source : Option SrcInfo → ℤ × SrcInfo × P)
    (calloc_ok : Bool) (realloc_ok : ℕ → Bool) (base : ℕ) (src_info : Option SrcInfo) where
  held_list : (l : List FmtInfo) → held (pointer_to l) ≡ blocks l
  held_list [] = refl
  held_list (f ∷ l) = refl

  acquired_lem :
      (info : SrcInfo) (p : P) (b : Build P)
      → Built b
      → AcquiredOk base
          (acquired backend realloc_ok src_info base (finish backend realloc_ok (zeroed info p) b))
  unfolding acquired finish
  acquired_lem info p (built list p') h = record {
    formats = list;
    list = refl;
    list_len = refl;
    blocks = omega (arith, held_list list);
    no_times = λ e. refl;
    rates = h;
    rate = λ e. absurd (e refl);
  }
  acquired_lem info p (oom list p') h = ground arith

  source_acquired_lem :
      (r : ℤ × SrcInfo × P) → AcquiredOk base (source_acquired backend realloc_ok src_info base r)
  unfolding source_acquired format_list_build
  source_acquired_lem (ret, info, p) = elim (Bool-cases (eqb_ℤ ret (pos 0))) [
    | inl e ↦ rw e (
        acquired_lem info p (each_fourcc backend realloc_ok hot_fourcc_list [] p)
          (each_fourcc_lem backend realloc_ok hot_fourcc_list [] p tt))
    | inr e ↦ rw e tt
  ]

  src_acquire_lem :
      AcquiredOk base (src_acquire backend realloc_ok acquire_source calloc_ok base src_info)
  unfolding src_acquire
  src_acquire_lem = elim (Bool-cases calloc_ok) [
    | inl e ↦ rw e (source_acquired_lem (acquire_source src_info))
    | inr e ↦ rw e tt
  ]

  -- From an acquired source, whatever the backend, the allocator and the format list are, any
  -- sequence of calls of bind, start and stop whose formats have a denominator runs without a
  -- fault. If the source does not capture then, releasing it leaves exactly the blocks that were
  -- live before it was acquired, and if it does, stopping and releasing it does.
  pub src_acquire-src_release :
      (cs : List Call) (live : ℕ) (ctx : SrcContext P)
      → src_acquire backend realloc_ok acquire_source calloc_ok base src_info
        ≡ some (live, some ctx)
      → AllHaveRates cs
      → (live' : ℕ) × (ctx' : SrcContext P) × (calls backend cs live ctx ≡ some (live', ctx'))
        × (is_capturing ctx'.src_state ≡ false
            → src_release backend live' ctx' ≡ ((backend.release ctx'.priv).0, base, none))
        × (is_capturing ctx'.src_state ≡ true
            → let o = capture_stop backend live' ctx' in
              src_release backend o.live o.ctx ≡ ((backend.release o.ctx.priv).0, base, none))
  src_acquire-src_release cs live ctx got h =
      let a : Accounted base live ctx = rw got at src_acquire_lem in
      let (live', ctx', run, a') = calls_keep backend cs live ctx a h in
      (live', ctx', run, release_frees backend live' ctx' a', stop_frees backend live' ctx' a')
