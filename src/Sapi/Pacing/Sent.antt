-- ===== src/Sapi/Pacing/Sent.antt =====
-- What `enforce_framerate` does when it lets a frame through, and when it does not.
use mathlib.Core.Path.{subst}
use libvidcap.Base.{
  ℕ, ◌≡◌, ◌≢◌, refl, sym, ap, ◌∙◌, arith, inl, inr, true, false, Bool-cases, Option, none, some,
  List, [], ◌∷◌, ◌++◌, length, get_elem?, eqb_ℤ, eqb_ℤ_iff, ℤ, pos,
}
use libvidcap.SlidingWindow.{SlidingWindow}
use libvidcap.SlidingWindow.Spec.{take_last}
use libvidcap.SlidingWindow.Represents.{Represents}
use libvidcap.SlidingWindow.Slide.{slide-Represents}
use libvidcap.SlidingWindow.History.{peek_front-Represents}
use libvidcap.Sapi.Time.{Timeval}
use libvidcap.Sapi.Context.{SrcContext}
use libvidcap.Sapi.Pacing.{next_time, oldest, waits, allow, enforce_with, enforce_framerate}

-- What `enforce_framerate` has done to `ctx` when it lets a frame through at `now`.
pub record Sent {P : Type 0} (now : Timeval) (ctx ctx' : SrcContext P) (n : ℕ) (xs : List Timeval)
    : Type 0 where
  pub window : SlidingWindow Timeval
  pub frame_times : ctx'.frame_times ≡ some window
  pub holds : Represents window n (take_last n (xs ++ now ∷ []))
  pub next :
      ctx'.frame_time_next
      ≡ next_time ctx.fmt_nominal (pos (length xs)) (oldest (get_elem? xs 0) now) now
  pub same_format : ctx'.fmt_nominal ≡ ctx.fmt_nominal

-- The context after a frame, with the new window.
passed : {P : Type 0} → SrcContext P → List Timeval → Timeval → SlidingWindow Timeval → SrcContext P
passed ctx xs now w' = record ctx {
  frame_times = some w';
  frame_time_next = next_time ctx.fmt_nominal (pos (length xs)) (oldest (get_elem? xs 0) now) now;
}

not_zero : (a : ℤ) → a ≢ pos 0 → eqb_ℤ a (pos 0) ≡ false
not_zero a h = ground (arith, eqb_ℤ_iff a (pos 0))

pub zero_ne_one :
    {P : Type 0} {c d : P} → ◌≢◌ {A = Option (ℤ × P)} (some (pos 0, c)) (some (pos 1, d))
zero_ne_one h = ground arith

module _ {P : Type 0} (ctx : SrcContext P) {w : SlidingWindow Timeval} {n : ℕ} (xs : List Timeval)
    (now : Timeval) (window : ctx.frame_times ≡ some w) (r : Represents w n xs) where
  allow-Sent :
      ctx.fmt_nominal.fps_numerator ≢ pos 0
      → (ctx' : SrcContext P) × (allow now ctx w (oldest (get_elem? xs 0) now) ≡ some (pos 1, ctx'))
        × Sent now ctx ctx' n xs
  unfolding allow passed
  allow-Sent num_ne =
      let (w', slid, r') = slide-Represents xs now r in
      (
        passed ctx xs now w',
        rw (
          not_zero ctx.fmt_nominal.fps_numerator num_ne,
          slid,
          (peek_front-Represents xs r).1,
          allow,
        ),
        record { window = w'; frame_times = refl; holds = r'; next = refl; same_format = refl },
      )

  entered : enforce_framerate now ctx ≡ enforce_with now ctx w
  unfolding enforce_framerate
  entered = ap (λ o. choose_window o) window
    where
      choose_window : Option (SlidingWindow Timeval) → Option (ℤ × SrcContext P)
      choose_window o = elim o [ none ↦ some (pos 0, ctx) | some v ↦ enforce_with now ctx v ]

  pub enforce-wait : waits now ctx w ≡ true → enforce_framerate now ctx ≡ some (pos 0, ctx)
  enforce-wait h = entered ∙ stays
    where
      stays : enforce_with now ctx w ≡ some (pos 0, ctx)
      stays = unfold enforce_with in rw h

  enforce-allows :
      waits now ctx w ≡ false
      → enforce_framerate now ctx ≡ allow now ctx w (oldest (get_elem? xs 0) now)
  enforce-allows h = entered ∙ goes
    where
      goes : enforce_with now ctx w ≡ allow now ctx w (oldest (get_elem? xs 0) now)
      goes = unfold enforce_with in rw (h, (peek_front-Represents xs r).0, enforce_with)

  -- A frame that need not wait is let through.
  pub enforce-Sent :
      ctx.fmt_nominal.fps_numerator ≢ pos 0
      → waits now ctx w ≡ false
      → (ctx' : SrcContext P) × (enforce_framerate now ctx ≡ some (pos 1, ctx'))
        × Sent now ctx ctx' n xs
  enforce-Sent num_ne h =
      let (ctx', ran, sent) = allow-Sent num_ne in (ctx', enforce-allows h ∙ ran, sent)

  -- A frame that was let through did not have to wait.
  pub let_through :
      {ctx' : SrcContext P}
      → ctx.fmt_nominal.fps_numerator ≢ pos 0
      → enforce_framerate now ctx ≡ some (pos 1, ctx')
      → Sent now ctx ctx' n xs × (waits now ctx w ≡ false)
  let_through {ctx'} num_ne ran = elim (Bool-cases (waits now ctx w)) [
    | inl h ↦ absurd (zero_ne_one (sym (enforce-wait h) ∙ ran))
    | inr h ↦
        let (c, ran', sent) = enforce-Sent num_ne h in
        let same : c ≡ ctx' = cc (sym ran' ∙ ran) in (subst (λ d. Sent now ctx d n xs) same sent, h)
  ]
