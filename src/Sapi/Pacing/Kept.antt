-- ===== src/Sapi/Pacing/Kept.antt =====
-- The fields that `enforce_framerate` does not touch.
use libvidcap.Base.{
  ◌≡◌, refl, inl, inr, Bool-cases, Option, none, some, Option-cases, eqb_ℤ, ℤ, pos,
}
use libvidcap.SlidingWindow.{SlidingWindow, slide, peek_front}
use libvidcap.Sapi.Time.{Timeval}
use libvidcap.Sapi.Context.{SrcContext}
use libvidcap.Sapi.Pacing.{oldest, allow, waits, enforce_with, enforce_framerate}

-- `r` is a fault, or lets a frame through or not, and only the frame times have changed.
abbrev pub KeepsRest : {P : Type 0} → SrcContext P → Option (ℤ × SrcContext P) → Type 0
KeepsRest ctx none = Unit {0}
KeepsRest ctx (some (send, ctx')) =
    (ctx'.capture_callback ≡ ctx.capture_callback)
    × (ctx'.capture_data ≡ ctx.capture_data)
    × (ctx'.callback_frame ≡ ctx.callback_frame)
    × (ctx'.fmt_nominal ≡ ctx.fmt_nominal)

module _ {P : Type 0} (now : Timeval) (ctx : SrcContext P) where
  allow-KeepsRest : (w : SlidingWindow Timeval) (t : Timeval) → KeepsRest ctx (allow now ctx w t)
  unfolding allow
  allow-KeepsRest w t = elim (Bool-cases (eqb_ℤ ctx.fmt_nominal.fps_numerator (pos 0))) [
    | inl e ↦ rw e tt
    | inr e ↦ elim (Option-cases (slide w now)) [
      | inl n ↦ rw (e, n) tt
      | inr (w', s) ↦ rw (e, s) (refl, refl, refl, refl)
    ]
  ]

  enforce_with-KeepsRest : (w : SlidingWindow Timeval) → KeepsRest ctx (enforce_with now ctx w)
  unfolding enforce_with
  enforce_with-KeepsRest w = elim (Bool-cases (waits now ctx w)) [
    | inl e ↦ rw e (refl, refl, refl, refl)
    | inr e ↦ elim (Option-cases (peek_front w)) [
      | inl n ↦ rw (e, n) tt
      | inr (front, s) ↦ rw (e, s) (allow-KeepsRest w (oldest front now))
    ]
  ]

  pub enforce_framerate-KeepsRest : KeepsRest ctx (enforce_framerate now ctx)
  unfolding enforce_framerate
  enforce_framerate-KeepsRest =
      elim (ctx.frame_times)
        as (λ t.
          KeepsRest ctx (elim t [ none ↦ some (pos 0, ctx) | some w ↦ enforce_with now ctx w ])) [
            | none ↦ (refl, refl, refl, refl)
            | some w ↦ enforce_with-KeepsRest w
          ]
