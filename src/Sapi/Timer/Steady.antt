-- ===== src/Sapi/Timer/Steady.antt =====
-- What the timer thread leaves as it is, and how a round moves the time of the next frame.
use libvidcap.Base.{
  ◌≡◌, refl, arith, ap, ◌∙◌, inl, inr, Bool, true, false, not, ◌&&◌, ◌||◌, Bool-cases, Option, none,
  some, eqb_ℤ, ℤ, pos, Bytes, if◌then◌else◌,
}
use libvidcap.Conv.Table.{ConvFunc}
use libvidcap.DoubleBuffer.{ReadResult, got, failed, fault, read}
use libvidcap.Sapi.Time.{Timeval, tv_greater_or_equal, tv_add_usecs}
use libvidcap.Sapi.Context.{SrcContext, src_capturing, FrameInfo}
use libvidcap.Sapi.Deliver.{
  or_null, Event, Picture, raw, destride_frame, picture_of, destrided, info_with, info_of,
  converted, finish_frame, with_picture,
}
use libvidcap.Sapi.Timer.{
  TimerThread, captures, frame_usecs, Activity, slept, tried, with_frame, delivered, first_after,
  next_after, after_attempt, asleep, deliver_read, read_result, timer_deliver, timer_round,
}

-- The delivery of a frame changes neither the time of the next one, nor the nominal format, nor the
-- state of the source.
pub record Keeps {P : Type 0} (ctx ctx' : SrcContext P) : Type 0 where
  pub next : ctx'.frame_time_next ≡ ctx.frame_time_next
  pub nominal : ctx'.fmt_nominal ≡ ctx.fmt_nominal
  pub state : ctx'.src_state ≡ ctx.src_state

abbrev KeepsAll : {P A : Type 0} → SrcContext P → Option (A × SrcContext P) → Type 0
KeepsAll ctx none = Unit {0}
KeepsAll ctx (some (a, ctx')) = Keeps ctx ctx'

same : {P : Type 0} {ctx : SrcContext P} → Keeps ctx ctx
same = record { next = refl; nominal = refl; state = refl }

along :
    {P A : Type 0} {a b : SrcContext P}
    → Keeps a b
    → (r : Option (A × SrcContext P)) → KeepsAll b r
    → KeepsAll a r
along k none h = tt
along k (some (_, ctx)) h = record {
  next = h.next ∙ k.next;
  nominal = h.nominal ∙ k.nominal;
  state = h.state ∙ k.state;
}

module _ {P : Type 0} (convert : ConvFunc → ℤ → ℤ → Bytes → Bytes → Option (ℤ × Bytes)) where
  converted-Keeps :
      (send st : ℤ) (ctx : SrcContext P) (r : Option (ℤ × Bytes))
      → KeepsAll ctx (finish_frame convert send st (converted ctx r))
  unfolding finish_frame converted
  converted-Keeps send st ctx none = tt
  converted-Keeps send st ctx (some (ret, out)) = record {
    next = refl;
    nominal = refl;
    state = refl;
  }

  info-Keeps :
      (send st : ℤ) (picture : Picture) (ctx : SrcContext P)
      → KeepsAll ctx (finish_frame convert send st (info_of convert st picture ctx))
  unfolding info_of finish_frame
  info-Keeps send st picture ctx = elim (Bool-cases (eqb_ℤ st (pos 0))) [
    | inr e ↦ rw e same
    | inl e ↦ rw e (go ctx.fmt_conv_func)
  ]
    where
      go :
          (f : Option ConvFunc)
          → KeepsAll ctx (
              finish_frame convert send st (elim f [
                | none ↦ some (info_with ctx (some picture.buf) picture.buf_data_size st, ctx)
                | some function ↦ converted ctx (
                    convert function ctx.fmt_native.width ctx.fmt_native.height picture.buf
                      (or_null ctx.fmt_conv_buf))
              ]))
      go none = same
      go (some f) = converted-Keeps send st ctx _

  destrided-Keeps :
      (send st : ℤ) (ctx : SrcContext P) (r : Option (ℤ × Bytes))
      → KeepsAll ctx (with_picture convert send st (destrided ctx r))
  unfolding with_picture destrided
  destrided-Keeps send st ctx none = tt
  destrided-Keeps send st ctx (some (ret, dst)) = elim (Bool-cases (eqb_ℤ ret (pos 0))) [
    | inl e ↦ rw e (
        along (record { next = refl; nominal = refl; state = refl }) _
          (info-Keeps send st _ (record ctx { stride_free_buf = some dst })))
    | inr e ↦ rw e (info-Keeps send st (raw ctx) ctx)
  ]

  picture-Keeps :
      (send st : ℤ) (ctx : SrcContext P)
      → KeepsAll ctx (with_picture convert send st (picture_of st ctx))
  unfolding picture_of with_picture
  picture-Keeps send st ctx =
      elim (Bool-cases (eqb_ℤ st (pos 0) && not (eqb_ℤ ctx.callback_frame.stride (pos 0)))) [
        | inl e ↦ rw e (destrided-Keeps send st ctx (destride_frame ctx))
        | inr e ↦ rw e (info-Keeps send st (raw ctx) ctx)
      ]

abbrev KeepsThread :
    {P A : Type 0} → TimerThread P → Option (A × Option Event × TimerThread P) → Type 0
KeepsThread t none = Unit {0}
KeepsThread t (some (ret, event, t')) = Keeps t.ctx t'.ctx × (t'.first_time ≡ t.first_time)

-- What a round does in a source that captures, after the first frame: it sleeps, or the next frame
-- was due and the one after it is due a frame's time later.
abbrev pub Moved :
    {P : Type 0} → Timeval → TimerThread P → Option (Activity × TimerThread P) → Type 0
Moved now t none = Unit {0}
Moved now t (some (slept ms, t')) = Keeps t.ctx t'.ctx × (t'.first_time ≡ false)
Moved now t (some (tried event, t')) =
    (tv_greater_or_equal now t.ctx.frame_time_next ≡ true)
    × (t'.ctx.frame_time_next ≡ tv_add_usecs t.ctx.frame_time_next (frame_usecs t.ctx.fmt_nominal))
    × (t'.ctx.fmt_nominal ≡ t.ctx.fmt_nominal)
    × (t'.ctx.src_state ≡ t.ctx.src_state)
    × (t'.first_time ≡ false)

module _ {P : Type 0} where
  delivered-Keeps :
      (t : TimerThread P) (r : Option (Option Event × SrcContext P))
      → KeepsAll (with_frame t.timer_thread_frame t.ctx) r
      → KeepsThread t (delivered t r)
  unfolding delivered
  delivered-Keeps t none k = tt
  delivered-Keeps t (some (none, ctx)) k =
      (record { next = k.next; nominal = k.nominal; state = k.state }, refl)
  delivered-Keeps t (some (some event, ctx)) k =
      elim (Bool-cases (eqb_ℤ t.timer_thread_frame.error_status (pos 0))) [
        | inl e ↦ rw e (record { next = k.next; nominal = k.nominal; state = k.state }, refl)
        | inr e ↦ rw e (record { next = k.next; nominal = k.nominal; state = k.state }, refl)
      ]

  attempt-Moved :
      (now : Timeval) (t : TimerThread P) (r : Option (ℤ × Option Event × TimerThread P))
      → t.first_time ≡ false
      → tv_greater_or_equal now t.ctx.frame_time_next ≡ true
      → KeepsThread t r
      → Moved now t (after_attempt now r)
  unfolding after_attempt next_after first_after
  attempt-Moved now t none first due k = tt
  attempt-Moved now t (some (ret, event, t')) first due (k, same_first) =
      let first' : t'.first_time ≡ false = same_first ∙ first in
      elim (Bool-cases (eqb_ℤ t'.ctx.fmt_nominal.fps_numerator (pos 0))) [
        | inl e ↦ rw e tt
        | inr e ↦ rw (e, first') (due, rw (k.next, k.nominal) refl, k.nominal, k.state, refl)
      ]

module _ {P : Type 0} (convert : ConvFunc → ℤ → ℤ → Bytes → Bytes → Option (ℤ × Bytes)) where
  read-Keeps :
      (t : TimerThread P) (r : ReadResult FrameInfo) → KeepsThread t (read_result convert t r)
  unfolding read_result deliver_read
  read-Keeps t fault = tt
  read-Keeps t (failed db) = (same, refl)
  read-Keeps t (got frame db) =
      delivered-Keeps (record t { double_buff = db; timer_thread_frame = frame }) _
        (picture-Keeps convert (pos 1) frame.error_status (with_frame frame t.ctx))

  -- After a capture error the thread only sleeps.
  pub timer_round-error :
      (now : Timeval) (t : TimerThread P)
      → t.capture_error ≡ true
      → timer_round convert now t ≡ some (asleep now t)
  unfolding timer_round
  timer_round-error now t e = rw (timer_round, e) refl

  asleep-Moved :
      (now : Timeval) (t : TimerThread P)
      → t.first_time ≡ false
      → captures t.ctx.src_state ≡ true
      → Moved now t (some (asleep now t))
  unfolding asleep
  asleep-Moved now t first capturing = rw (first, capturing) (same, refl)

  either-Moved :
      (sleeps : Bool) (now : Timeval) (t : TimerThread P)
      → t.first_time ≡ false
      → captures t.ctx.src_state ≡ true
      → (sleeps ≡ false → tv_greater_or_equal now t.ctx.frame_time_next ≡ true)
      → Moved now t
          (if sleeps then some (asleep now t) else after_attempt now (timer_deliver convert t))
  unfolding timer_deliver
  either-Moved true now t first capturing due = asleep-Moved now t first capturing
  either-Moved false now t first capturing due =
      attempt-Moved now t _ first (due refl) (read-Keeps t (read t.double_buff))

  pub timer_round-Moved :
      (now : Timeval) (t : TimerThread P)
      → t.first_time ≡ false
      → t.ctx.src_state ≡ src_capturing
      → Moved now t (timer_round convert now t)
  unfolding timer_round
  timer_round-Moved now t first state =
      let capturing : captures t.ctx.src_state ≡ true = ap captures state in
      either-Moved
        (t.capture_error
          || not (captures t.ctx.src_state)
          || not (tv_greater_or_equal now t.ctx.frame_time_next))
        now t first capturing (λ awake. ground (arith, awake))
