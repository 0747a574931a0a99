-- ===== src/Vidcap/Calls/Keep.antt =====
-- Starting and stopping a capture keep every block accounted for, and so does each call.
use libvidcap.Base.{
  ℕ, ◌+◌, ◌≡◌, refl, ap, arith, inl, inr, Option, none, some, Bool, true, false, Bool-cases, eqb_ℤ,
  eqb_ℤ_iff, ℤ, pos,
}
use libvidcap.SlidingWindow.{SlidingWindow, create}
use libvidcap.Sapi.Time.{Timeval}
use libvidcap.Sapi.Context.{SrcContext, Backend, src_bound}
use libvidcap.Vidcap.Blocks.{held, minus, is_capturing, is_bound}
use libvidcap.Vidcap.Capture.{
  capture_start, capture_stop, started, stopped, start_with, window_len, sizeof_timeval, zero_time,
  invalid_user_data,
}
use libvidcap.Vidcap.Calls.{Call, bind_call, start_call, stop_call, call}
use libvidcap.Vidcap.Calls.Rates.{Divides}
use libvidcap.Vidcap.Calls.Accounted.{Accounted, HasRates, Result, bind_keeps}

module _ {P : Type 0} (backend : Backend P) {base live : ℕ} (ctx : SrcContext P)
    (a : Accounted base live ctx) where
  -- With two more blocks, the window's.
  started_lem :
      (w : SlidingWindow Timeval) (callback : Option ℕ) (user_data : ℤ) (r : ℤ × P)
      → ctx.src_state ≡ src_bound
      → let o =
          started
            (live + 2)
            (record ctx {
              frame_times = some w;
              frame_time_next = zero_time;
              capture_callback = callback;
              capture_data = user_data;
            })
            r in
        Accounted base o.live o.ctx
  unfolding started
  started_lem w callback user_data (ret, p) s =
      let empty : held ctx.frame_times ≡ 0 = ap held (a.no_times (rw s)) in
      let divides : Divides ctx.fmt_nominal.fps_denominator = a.rate (λ q. ground arith) in
      elim (Bool-cases (eqb_ℤ ret (pos 0))) [
        | inl e ↦ rw e (record {
          formats = a.formats;
          list = a.list;
          list_len = a.list_len;
          blocks = omega (arith, a.blocks, empty);
          no_times = λ h. ground arith;
          rates = a.rates;
          rate = λ h. divides;
        })
        | inr e ↦ rw e (record {
          formats = a.formats;
          list = a.list;
          list_len = a.list_len;
          blocks = omega (arith, a.blocks, empty);
          no_times = λ h. refl;
          rates = a.rates;
          rate = λ h. divides;
        })
      ]

  stopped_lem :
      (r : ℤ × P)
      → is_capturing ctx.src_state ≡ true
      → let o = stopped live ctx r in Accounted base o.live o.ctx
  unfolding stopped
  stopped_lem (ret, p) e = record {
    formats = a.formats;
    list = a.list;
    list_len = a.list_len;
    blocks = omega (arith, a.blocks);
    no_times = λ h. refl;
    rates = a.rates;
    rate = λ h. a.rate (λ q. ground arith);
  }

  start_with_lem :
      (callback : Option ℕ) (user_data : ℤ) (w : Option (SlidingWindow Timeval))
      → ctx.src_state ≡ src_bound
      → let o = start_with backend live ctx callback user_data w in Accounted base o.live o.ctx
  unfolding start_with
  start_with_lem callback user_data none s =
      let empty : held ctx.frame_times ≡ 0 = ap held (a.no_times (rw s)) in
      record {
        formats = a.formats;
        list = a.list;
        list_len = a.list_len;
        blocks = omega (arith, a.blocks, empty);
        no_times = λ h. refl;
        rates = a.rates;
        rate = a.rate;
      }
  start_with_lem callback user_data (some w) s =
      started_lem w callback user_data (backend.start_capture ctx.priv) s

  bound_of : is_bound ctx.src_state ≡ true → ctx.src_state ≡ src_bound
  bound_of e = ground arith

  rate_of : ctx.src_state ≡ src_bound → eqb_ℤ ctx.fmt_nominal.fps_denominator (pos 0) ≡ false
  rate_of s =
      let d : Divides ctx.fmt_nominal.fps_denominator = a.rate (λ q. ground arith) in
      ground (arith, eqb_ℤ_iff ctx.fmt_nominal.fps_denominator (pos 0))

  start_keeps :
      (calloc_ok : ℕ → ℕ → Bool) (callback : Option ℕ) (user_data : ℤ)
      → Result backend ctx a (capture_start backend calloc_ok live ctx callback user_data)
  unfolding capture_start
  start_keeps calloc_ok callback user_data = elim (Bool-cases (eqb_ℤ user_data invalid_user_data)) [
    | inl e ↦ (record { ret = minus 3; live = live; ctx = ctx }, rw e refl, a)
    | inr e ↦ elim (Bool-cases (is_bound ctx.src_state)) [
      | inr n ↦ (record { ret = minus 4; live = live; ctx = ctx }, rw (e, n) refl, a)
      | inl n ↦
          let w = create calloc_ok zero_time (window_len ctx.fmt_nominal) sizeof_timeval in
          (
            start_with backend live ctx callback user_data w,
            rw (e, n, rate_of (bound_of n)) refl,
            start_with_lem callback user_data w (bound_of n),
          )
    ]
  ]

  pub stop_keeps : let o = capture_stop backend live ctx in Accounted base o.live o.ctx
  unfolding capture_stop
  stop_keeps = elim (Bool-cases (is_capturing ctx.src_state)) [
    | inl e ↦ rw e (stopped_lem (backend.stop_capture ctx.priv) e)
    | inr e ↦ rw e a
  ]

  pub call_keeps : (c : Call) → HasRates c → Result backend ctx a (call backend c live ctx)
  unfolding call
  call_keeps (bind_call malloc fmt_info) d = bind_keeps backend ctx a malloc fmt_info d
  call_keeps (start_call calloc_ok callback user_data) d = start_keeps calloc_ok callback user_data
  call_keeps stop_call d = (capture_stop backend live ctx, refl, stop_keeps)
