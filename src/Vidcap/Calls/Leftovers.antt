-- ===== src/Vidcap/Calls/Leftovers.antt =====
-- What is left over from a failed bind and from a capture that ended in an error.
use libvidcap.Base.{
  ◌∙◌, ℕ, ◌+◌, ◌≡◌, ◌≢◌, refl, ap, arith, inl, inr, Option, none, some, Bool, true, false,
  Bool-cases, eqb_ℤ, eqb_ℤ_iff, ℤ, pos, negsuc, Bytes,
}
use libvidcap.Format.{FmtInfo, fourcc_yvu9}
use libvidcap.Conv.Size.{fmt_size_get}
use libvidcap.SlidingWindow.{SlidingWindow, create}
use libvidcap.Sapi.Time.{Timeval}
use libvidcap.Sapi.Context.{SrcContext, Backend, src_bound}
use libvidcap.Vidcap.Blocks.{Outcome, held, is_capturing, is_bound, owned}
use libvidcap.Vidcap.Bind.{
  frame_size, with_formats, bind_buffers, bind_bound, bind_valid, bind_to, format_bind,
}
use libvidcap.Vidcap.Capture.{
  capture_start, started, start_with, window_len, sizeof_timeval, zero_time, invalid_user_data,
}

module _ {P : Type 0} (backend : Backend P) (base live : ℕ) (ctx : SrcContext P)
    (blocks : live ≡ base + owned ctx) (bound : ctx.src_state ≡ src_bound)
    (w : SlidingWindow Timeval) (times : ctx.frame_times ≡ some w) where
  two : held ctx.frame_times ≡ 1
  two = ap held times

  started_two :
      (callback : Option ℕ) (user_data : ℤ) (w' : SlidingWindow Timeval) (r : ℤ × P)
      → let o =
          started
            (live + 2)
            (record ctx {
              frame_times = some w';
              frame_time_next = zero_time;
              capture_callback = callback;
              capture_data = user_data;
            })
            r in
        o.live ≡ base + owned o.ctx + 2
  unfolding started
  started_two callback user_data w' (ret, p) = elim (Bool-cases (eqb_ℤ ret (pos 0))) [
    | inl e ↦ rw e (omega (arith, blocks, two))
    | inr e ↦ rw e (omega (arith, blocks, two))
  ]

  start_with_two :
      (callback : Option ℕ) (user_data : ℤ) (w' : Option (SlidingWindow Timeval))
      → let o = start_with backend live ctx callback user_data w' in o.live ≡ base + owned o.ctx + 2
  unfolding start_with
  start_with_two callback user_data none = omega (arith, blocks, two)
  start_with_two callback user_data (some w') =
      started_two callback user_data w' (backend.start_capture ctx.priv)

  -- A bound source that still has the window of an earlier capture, as one has whose capture ended
  -- in an error, loses the two blocks of that window at the next start that has valid user data and a
  -- nominal format with a nonzero denominator, whether it succeeds or fails: afterwards two more blocks are live than the source and the rest own.
  pub capture_start-lost :
      (calloc_ok : ℕ → ℕ → Bool) (callback : Option ℕ) (user_data : ℤ)
      → user_data ≢ invalid_user_data
      → ctx.fmt_nominal.fps_denominator ≢ pos 0
      → (o : Outcome P) × (capture_start backend calloc_ok live ctx callback user_data ≡ some o)
        × (o.live ≡ base + owned o.ctx + 2)
  unfolding capture_start
  capture_start-lost calloc_ok callback user_data valid divides =
      let e : eqb_ℤ user_data invalid_user_data ≡ false =
        ground (arith, eqb_ℤ_iff user_data invalid_user_data) in
      let z : eqb_ℤ ctx.fmt_nominal.fps_denominator (pos 0) ≡ false =
        ground (arith, eqb_ℤ_iff ctx.fmt_nominal.fps_denominator (pos 0)) in
      let b : is_bound ctx.src_state ≡ true = rw bound refl in
      let w' = create calloc_ok zero_time (window_len ctx.fmt_nominal) sizeof_timeval in
      (
        start_with backend live ctx callback user_data w',
        rw (e, b, z) refl,
        start_with_two callback user_data w',
      )

no_size : (w h : ℤ) → fmt_size_get w h fourcc_yvu9 ≡ pos 0
unfolding fmt_size_get
no_size w h = refl

module _ {P : Type 0} (backend : Backend P) (malloc : ℕ → ℤ → Option Bytes) (live : ℕ)
    (ctx : SrcContext P) where
  unsized :
      (ctx : SrcContext P)
      → frame_size ctx.fmt_native ≡ pos 0
      → let o = bind_buffers backend malloc live ctx in
        (o.ret ≡ negsuc 0)
        × (o.ctx.src_state ≡ ctx.src_state)
        × (o.ctx.stride_free_buf ≡ none)
        × (o.ctx.fmt_native ≡ ctx.fmt_native)
  unfolding bind_buffers
  unsized ctx z = rw z (refl, refl, refl, refl)

  -- A bound source is bound again to a format that the device delivers as YVU9, and the device
  -- accepts it. The call then returns -1, since a YVU9 frame has no size, but the source stays bound,
  -- with YVU9 for its native format and without the buffer that a frame with a stride needs.
  pub format_bind-yvu9 :
      (fmt native : FmtInfo) (p p' : P)
      → ctx.src_state ≡ src_bound
      → backend.format_validate ctx.priv fmt true ≡ (some native, p)
      → backend.format_bind p fmt ≡ (pos 0, p')
      → native.fourcc ≡ fourcc_yvu9
      → (o : Outcome P) × (format_bind backend malloc live ctx (some fmt) ≡ some o)
        × (o.ret ≡ negsuc 0)
        × (o.ctx.src_state ≡ src_bound)
        × (o.ctx.stride_free_buf ≡ none)
        × (o.ctx.fmt_native ≡ native)
  unfolding format_bind bind_to bind_valid bind_bound
  format_bind-yvu9 fmt native p p' s valid ok y =
      let prepared = with_formats ctx native fmt p' in
      let z : frame_size native ≡ pos 0 = rw y (no_size native.width native.height) in
      let (ret, state, buf, kept) = unsized prepared z in
      let idle : is_capturing ctx.src_state ≡ false = rw s refl in
      (
        bind_buffers backend malloc live prepared,
        rw (idle, valid, ok) refl,
        ret,
        state ∙ s,
        buf,
        kept,
      )
