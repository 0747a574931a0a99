-- ===== src/Sapi/Timer/Rate.antt =====
-- How often the timer thread delivers frames.
use native.Mathlib.Nat.{div-le_self}
use libvidcap.Base.{
  ℕ, zero, suc, ◌*◌, ◌/◌, ◌^◌, ◌<◌, ◌≡◌, ap, ◌∙◌, arith, false, Option, none, some, List, [], ◌∷◌,
  length, ℤ, pos, ◌+ℤ◌, ◌≤ℤ◌, int32-*ℤ, int32-quot, int_laws, Bytes,
}
use libvidcap.Format.{FmtInfo}
use libvidcap.Conv.Table.{ConvFunc}
use libvidcap.Sapi.Time.{Timeval, tv_add_usecs}
use libvidcap.Sapi.TimeLaws.{micros, IsNormal, tv_greater_or_equal_iff}
use libvidcap.Sapi.Context.{src_capturing}
use libvidcap.Sapi.Pacing.Usecs.{HasRate, micros_after}
use libvidcap.Sapi.Deliver.{Event}
use libvidcap.Sapi.Timer.Steady.{Moved, timer_round-Moved}
use libvidcap.Sapi.Timer.{
  TimerThread, frame_usecs, Activity, slept, tried, Wake, add_activity, timer_rounds,
}

-- The times of the rounds are normal, and none is after `last`.
abbrev pub Until : ℤ → List Wake → Type 0
Until last [] = Unit {0}
Until last (w ∷ ws) = (IsNormal w.now × (micros w.now ≤ℤ last)) × Until last ws

-- A thread that delivers frames, after the first one, with the rate of its format.
pub record Paced {P : Type 0} (t : TimerThread P) (num den : ℕ) : Type 0 where
  pub later : t.first_time ≡ false
  pub capturing : t.ctx.src_state ≡ src_capturing
  pub rate : HasRate t.ctx.fmt_nominal num den
  pub normal : IsNormal t.ctx.frame_time_next

frame_usecs-eq :
    (fmt : FmtInfo) (num den : ℕ)
    → HasRate fmt num den
    → 1000000 * den < 2 ^ 31
    → frame_usecs fmt ≡ pos (1000000 * den / num)
unfolding frame_usecs
frame_usecs-eq fmt num den r h =
    rw (r.numerator, r.denominator, int32-*ℤ 1000000 den h, int32-quot (1000000 * den) num h)

-- The callbacks of a run are `u` microseconds apart, the first not before `next`, the last not after
-- `last`.
abbrev Spaced : {P : Type 0} → ℤ → ℕ → ℤ → Option (List Event × TimerThread P) → Type 0
Spaced next u last none = Unit {0}
Spaced next u last (some (events, t)) = (k : ℕ) → k < length events → next +ℤ pos (k * u) ≤ℤ last

earlier :
    (u : ℕ) (last next : ℤ) (k : ℕ)
    → (next +ℤ pos u) +ℤ pos (k * u) ≤ℤ last
    → next +ℤ pos (suc k * u) ≤ℤ last
earlier u last next k h = omega (int_laws, arith, h)

-- After a callback at `next` or later, and the others.
from_first :
    (u n : ℕ) (last next : ℤ)
    → next ≤ℤ last
    → ((k : ℕ) → k < n → (next +ℤ pos u) +ℤ pos (k * u) ≤ℤ last)
    → (k : ℕ) → k < suc n
    → next +ℤ pos (k * u) ≤ℤ last
from_first u n last next due h zero less = omega (int_laws, arith, due)
from_first u n last next due h (suc j) less = earlier u last next j (h j (omega arith))

module _ {P : Type 0} (u : ℕ) (last : ℤ) where
  sleep-Spaced :
      (next : ℤ) (ms : ℤ) (r : Option (List Event × TimerThread P))
      → Spaced next u last r
      → Spaced next u last (add_activity (slept ms) r)
  unfolding add_activity
  sleep-Spaced next ms none h = tt
  sleep-Spaced next ms (some (events, t)) h = h

  try-Spaced :
      (next : ℤ) (event : Option Event) (r : Option (List Event × TimerThread P))
      → next ≤ℤ last
      → Spaced (next +ℤ pos u) u last r
      → Spaced next u last (add_activity (tried event) r)
  unfolding add_activity
  try-Spaced next none none due h = tt
  try-Spaced next (some event) none due h = tt
  try-Spaced next none (some (events, t)) due h = λ k less. omega (int_laws, arith, h k less)
  try-Spaced next (some event) (some (events, t)) due h =
      from_first u (length events) last next due h

same_rate : {a b : FmtInfo} {num den : ℕ} → b ≡ a → HasRate a num den → HasRate b num den
same_rate e r = rw e r

abbrev pub period : ℕ → ℕ → ℕ
period num den = 1000000 * den / num

module _ {P : Type 0} (num den : ℕ) (last : ℤ) (small : 1000000 * den < 2 ^ 31) where
  -- The next time after an attempt.
  due_after :
      (t t' : TimerThread P)
      → Paced t num den
      → t'.ctx.frame_time_next ≡ tv_add_usecs t.ctx.frame_time_next (frame_usecs t.ctx.fmt_nominal)
      → (micros t'.ctx.frame_time_next ≡ micros t.ctx.frame_time_next +ℤ pos (period num den))
        × IsNormal t'.ctx.frame_time_next
  due_after t t' p e =
      let usecs = frame_usecs-eq t.ctx.fmt_nominal num den p.rate small in
      let e' = e ∙ ap (tv_add_usecs t.ctx.frame_time_next) usecs in
      rw e' (
        micros_after t.ctx.frame_time_next (period num den) p.normal
          (omega (arith, div-le_self (1000000 * den) num)))

  -- A round, and then any rounds that are spaced.
  step-Spaced :
      (now : Timeval) (t : TimerThread P) (r : Option (Activity × TimerThread P))
      (rounds : TimerThread P → Option (List Event × TimerThread P))
      → Paced t num den
      → IsNormal now
      → micros now ≤ℤ last
      → Moved now t r
      → ((t' : TimerThread P)
          → Paced t' num den
          → Spaced (micros t'.ctx.frame_time_next) (period num den) last (rounds t'))
      → Spaced
          (micros t.ctx.frame_time_next)
          (period num den)
          last
          (elim r [ none ↦ none | some (activity, t') ↦ add_activity activity (rounds t') ])
  step-Spaced now t none rounds p normal until moved rest = tt
  step-Spaced now t (some (slept ms, t')) rounds p normal until (k, later) rest =
      let p' : Paced t' num den = record {
        later = later;
        capturing = k.state ∙ p.capturing;
        rate = same_rate k.nominal p.rate;
        normal = rw k.next p.normal;
      } in
      sleep-Spaced (period num den) last (micros t.ctx.frame_time_next) ms (rounds t')
        (rw (ap micros k.next) at (rest t' p'))
  step-Spaced now t (some (tried event, t')) rounds p normal until
        (due, next, nominal, state, later) rest =
      let (exact, normal') = due_after t t' p next in
      let p' : Paced t' num den = record {
        later = later;
        capturing = state ∙ p.capturing;
        rate = same_rate nominal p.rate;
        normal = normal';
      } in
      let reached : micros t.ctx.frame_time_next ≤ℤ micros now =
        (tv_greater_or_equal_iff now t.ctx.frame_time_next normal p.normal).0 due in
      try-Spaced (period num den) last (micros t.ctx.frame_time_next) event (rounds t')
        (omega arith) (rw exact at (rest t' p'))

module _ {P : Type 0} (convert : ConvFunc → ℤ → ℤ → Bytes → Bytes → Option (ℤ × Bytes))
    (num den : ℕ) (last : ℤ) (small : 1000000 * den < 2 ^ 31) where
  rounds-Spaced :
      (ws : List Wake) (t : TimerThread P)
      → Paced t num den
      → Until last ws
      → Spaced (micros t.ctx.frame_time_next) (period num den) last (timer_rounds convert ws t)
  unfolding timer_rounds
  rounds-Spaced [] t p h = λ k less. elim less [ ]
  rounds-Spaced (w ∷ ws) t p ((normal, until), h) =
      let t' = record t { double_buff = w.double_buff } in
      let p' : Paced t' num den = record {
        later = p.later;
        capturing = p.capturing;
        rate = p.rate;
        normal = p.normal;
      } in
      step-Spaced num den last small w.now t' _ (timer_rounds convert ws) p' normal until
        (timer_round-Moved convert w.now t' p.later p.capturing)
        (λ t'' p''. rounds-Spaced ws t'' p'' h)

  -- A timer thread has had its first frame, its source captures with a rate of `num / den` frames a
  -- second, `1000000 * den` fits an `int`, and the capture thread writes any frames in between.
  -- Then in a run of rounds up to the time `last`, with normal times, the callbacks keep to the rate:
  -- for the one after `k` others a time of `k` periods, in whole microseconds, has passed since
  -- the first one was due.
  pub timer_rounds-rate :
      (ws : List Wake) (t t' : TimerThread P) (events : List Event) (k : ℕ)
      → Paced t num den
      → Until last ws
      → timer_rounds convert ws t ≡ some (events, t')
      → k < length events
      → micros t.ctx.frame_time_next +ℤ pos (k * (1000000 * den / num)) ≤ℤ last
  timer_rounds-rate ws t t' events k p h ran less = (rw ran at (rounds-Spaced ws t p h)) k less
