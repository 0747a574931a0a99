-- ===== src/Vidcap/Calls/Moves.antt =====
-- The states of a source: which calls move it, and from where.
use libvidcap.Base.{
  ℕ, ◌+◌, ◌≡◌, ◌≢◌, refl, arith, ◌⊎◌, inl, inr, Option, none, some, Option-cases, Bool, false,
  Bool-cases, eqb_ℤ, eqb_ℤ_iff, ℤ, pos, negsuc, Bytes,
}
use libvidcap.Format.{FmtInfo}
use libvidcap.SlidingWindow.{SlidingWindow, create}
use libvidcap.Sapi.Time.{Timeval}
use libvidcap.Sapi.Context.{SrcContext, Backend, SrcState, src_bound, src_capturing}
use libvidcap.Vidcap.Blocks.{Outcome, is_capturing, is_bound, owned}
use libvidcap.Vidcap.Bind.{fail, bind_to, default_format, format_bind}
use libvidcap.Vidcap.Bind.Ready.{bind_to_lem}
use libvidcap.Vidcap.Capture.{
  capture_start, capture_stop, started, stopped, start_with, window_len, sizeof_timeval, zero_time,
  invalid_user_data,
}
use libvidcap.Vidcap.Calls.{Call, bind_call, start_call, stop_call, call}

-- From the state `s`, a call that returns `ret` leaves the state `s'`.
abbrev pub Moves : Call → SrcState → ℤ → SrcState → Type 0
Moves (bind_call malloc fmt_info) s ret s' =
    ((s ≢ src_capturing) × (ret ≡ pos 0) × (s' ≡ src_bound)) ⊎ ((ret ≡ negsuc 0) × (s' ≡ s))
Moves (start_call calloc_ok callback user_data) s ret s' =
    ((s ≡ src_bound) × (ret ≡ pos 0) × (s' ≡ src_capturing)) ⊎ ((ret ≢ pos 0) × (s' ≡ s))
Moves stop_call s ret s' =
    ((s ≡ src_capturing) × (s' ≡ src_bound)) ⊎ ((s ≢ src_capturing) × (ret ≡ negsuc 0) × (s' ≡ s))

abbrev MovesIf : {P : Type 0} → Call → SrcContext P → Option (Outcome P) → Type 0
MovesIf c ctx none = Unit {0}
MovesIf c ctx (some o) = Moves c ctx.src_state o.ret o.ctx.src_state

module _ {P : Type 0} (backend : Backend P) (base live : ℕ) (ctx : SrcContext P)
    (blocks : live ≡ base + owned ctx) where
  bind_to-Moves :
      (malloc : ℕ → ℤ → Option Bytes) (fmt_info : Option FmtInfo) (fmt : FmtInfo)
      → is_capturing ctx.src_state ≡ false
      → let o = bind_to backend malloc live ctx fmt in
        Moves (bind_call malloc fmt_info) ctx.src_state o.ret o.ctx.src_state
  bind_to-Moves malloc fmt_info fmt e =
      elim ((bind_to_lem backend malloc base live ctx fmt blocks).1) [
        | inl (z, r, f) ↦ inl (λ q. ground arith, z, r.state)
        | inr (r, s, f) ↦ inr (r, s)
      ]

  bind-Moves :
      (malloc : ℕ → ℤ → Option Bytes) (fmt_info : Option FmtInfo)
      → MovesIf (bind_call malloc fmt_info) ctx (format_bind backend malloc live ctx fmt_info)
  unfolding format_bind
  bind-Moves malloc fmt_info = elim (Bool-cases (is_capturing ctx.src_state)) [
    | inl e ↦ rw e (inr (refl, refl))
    | inr e ↦ rw e (free-Moves fmt_info e)
  ]
    where
      free-Moves :
          (fmt_info : Option FmtInfo)
          → is_capturing ctx.src_state ≡ false
          → MovesIf (bind_call malloc fmt_info) ctx (elim fmt_info [
            | some fmt ↦ some (bind_to backend malloc live ctx fmt)
            | none ↦ elim (default_format ctx) [
              | none ↦ none
              | some none ↦ some (fail live ctx)
              | some (some fmt) ↦ some (bind_to backend malloc live ctx fmt)
            ]
          ])
      free-Moves (some fmt) e = bind_to-Moves malloc (some fmt) fmt e
      free-Moves none e = elim (Option-cases (default_format ctx)) [
        | inl n ↦ rw n tt
        | inr (none, s) ↦ rw s (inr (refl, refl))
        | inr (some fmt, s) ↦ rw s (bind_to-Moves malloc none fmt e)
      ]

  started-Moves :
      (calloc_ok : ℕ → ℕ → Bool) (callback : Option ℕ) (user_data : ℤ)
      (w : Option (SlidingWindow Timeval))
      → ctx.src_state ≡ src_bound
      → let o = start_with backend live ctx callback user_data w in
        Moves (start_call calloc_ok callback user_data) ctx.src_state o.ret o.ctx.src_state
  unfolding start_with started
  started-Moves calloc_ok callback user_data none s = inr (λ q. ground arith, refl)
  started-Moves calloc_ok callback user_data (some w) s =
      let ret = (backend.start_capture ctx.priv).0 in
      elim (Bool-cases (eqb_ℤ ret (pos 0))) [
        | inl e ↦ rw e (inl (s, (eqb_ℤ_iff ret (pos 0)).0 e, refl))
        | inr e ↦ rw e (inr (λ q. ground (arith, eqb_ℤ_iff ret (pos 0)), refl))
      ]

  start-Moves :
      (calloc_ok : ℕ → ℕ → Bool) (callback : Option ℕ) (user_data : ℤ)
      → MovesIf
          (start_call calloc_ok callback user_data)
          ctx
          (capture_start backend calloc_ok live ctx callback user_data)
  unfolding capture_start
  start-Moves calloc_ok callback user_data = elim (Bool-cases (eqb_ℤ user_data invalid_user_data)) [
    | inl e ↦ rw e (inr (λ q. ground arith, refl))
    | inr e ↦ elim (Bool-cases (is_bound ctx.src_state)) [
      | inr n ↦ rw (e, n) (inr (λ q. ground arith, refl))
      | inl n ↦ elim (Bool-cases (eqb_ℤ ctx.fmt_nominal.fps_denominator (pos 0))) [
        | inl z ↦ rw (e, n, z) tt
        | inr z ↦
            rw (e, n, z)
              (started-Moves calloc_ok callback user_data
                (create calloc_ok zero_time (window_len ctx.fmt_nominal) sizeof_timeval)
                (ground arith))
      ]
    ]
  ]

  stop-Moves : MovesIf stop_call ctx (some (capture_stop backend live ctx))
  unfolding capture_stop stopped
  stop-Moves = elim (Bool-cases (is_capturing ctx.src_state)) [
    | inl e ↦ rw e (inl (ground arith, refl))
    | inr e ↦ rw e (inr (λ q. ground arith, refl, refl))
  ]

  any_call : (c : Call) → MovesIf c ctx (call backend c live ctx)
  unfolding call
  any_call (bind_call malloc fmt_info) = bind-Moves malloc fmt_info
  any_call (start_call calloc_ok callback user_data) = start-Moves calloc_ok callback user_data
  any_call stop_call = stop-Moves

  -- With its blocks accounted for, a source moves only so. A call of bind leaves it bound and
  -- returns 0, which it does not do during a capture, or returns -1 and leaves the state. A start
  -- leads from bound to capturing and returns 0, or returns something else and leaves the state.
  -- A stop leads from capturing to bound whatever it returns, or returns -1 in another state and
  -- leaves it.
  pub call-Moves :
      (c : Call) (o : Outcome P)
      → call backend c live ctx ≡ some o
      → Moves c ctx.src_state o.ret o.ctx.src_state
  call-Moves c o e = rw e at (any_call c)
