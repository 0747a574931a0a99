-- ===== src/Sapi/Pacing/Rate.antt =====
-- How often `enforce_framerate` lets a frame through.
use native.Mathlib.Nat.{div-le_self}
use libvidcap.Base.{
  ℕ, ◌*◌, ◌/◌, ◌^◌, ◌<◌, ◌≡◌, ◌≢◌, sym, ap, ◌∙◌, arith, inl, inr, true, false, Bool-cases, some,
  List, [], ◌∷◌, ◌++◌, length, get_elem?, length-append, eqb_ℤ, pos, pos_part, ◌+ℤ◌, ◌≤ℤ◌, ◌<ℤ◌,
}
use libvidcap.SlidingWindow.{SlidingWindow, count_of}
use libvidcap.SlidingWindow.Spec.{take_last, length-take_last}
use libvidcap.SlidingWindow.Represents.{Represents}
use libvidcap.SlidingWindow.History.{peek_front-Represents}
use libvidcap.Sapi.Time.{Timeval, tv_greater_or_equal, tv_add_usecs}
use libvidcap.Sapi.TimeLaws.{micros, IsNormal, tv_greater_or_equal_iff}
use libvidcap.Sapi.Context.{SrcContext}
use libvidcap.Sapi.Pacing.Usecs.{
  HasRate, next_time_earliest, next_time_window, least_usecs-eq, window_usecs-eq, micros_after,
}
use libvidcap.Sapi.Pacing.Sent.{enforce-wait, let_through, zero_ne_one}
use libvidcap.Sapi.Pacing.{window_usecs, least_usecs, next_time, oldest, waits, enforce_framerate}

waits_of :
    {P : Type 0} (now : Timeval) (ctx : SrcContext P) (w : SlidingWindow Timeval)
    → eqb_ℤ (count_of w) (pos 0) ≡ false
    → tv_greater_or_equal now ctx.frame_time_next ≡ false
    → waits now ctx w ≡ true
unfolding waits
waits_of now ctx w h k = rw (h, k)

-- A window is not empty after a slide.
some_held :
    {A : Type 0} {w : SlidingWindow A} {n : ℕ} (xs : List A) (x : A)
    → Represents w n (take_last n (xs ++ x ∷ []))
    → eqb_ℤ (count_of w) (pos 0) ≡ false
some_held {w} {n} xs x r =
    let held = (peek_front-Represents (take_last n (xs ++ x ∷ [])) r).1 in
    rw held
      (ground (arith, r.positive, length-take_last n (xs ++ x ∷ []), length-append xs (x ∷ [])))

module _ {P : Type 0} (ctx ctx' : SrcContext P) {w : SlidingWindow Timeval} {n : ℕ}
    (xs : List Timeval) (num den : ℕ) (now later : Timeval) (window : ctx.frame_times ≡ some w)
    (r : Represents w n xs) (rate : HasRate ctx.fmt_nominal num den) (normal : IsNormal now)
    (normal' : IsNormal later) where
  num_ne : ctx.fmt_nominal.fps_numerator ≢ pos 0
  num_ne e = absurd (omega (arith, rate.positive, ap pos_part (sym rate.numerator ∙ e)))

  -- Before the least distance is over a frame comes too early.
  too_early :
      900000 * den < 2 ^ 31
      → micros later <ℤ micros now +ℤ pos (900000 * den / num)
      → tv_greater_or_equal later (tv_add_usecs now (least_usecs ctx.fmt_nominal)) ≡ false
  too_early small early =
      let u = 900000 * den / num in
      let t = tv_add_usecs now (pos u) in
      let (exact, normal_t) =
        micros_after now u normal (omega (arith, div-le_self (900000 * den) num)) in
      let not_yet : tv_greater_or_equal later t ≡ false =
        elim (Bool-cases (tv_greater_or_equal later t)) [
          | inl reached ↦
              let h : micros t ≤ℤ micros later =
                (tv_greater_or_equal_iff later t normal' normal_t).0 reached in
              absurd (omega (arith, rw exact at h))
          | inr h ↦ h
        ] in
      rw (least_usecs-eq ctx.fmt_nominal num den rate small) not_yet

  -- Where `900000 * den` fits an `int`: after a frame was let through, none is until nine tenths of a
  -- frame's time have passed, and the context stays as it is.
  pub enforce_framerate-spacing :
      900000 * den < 2 ^ 31
      → enforce_framerate now ctx ≡ some (pos 1, ctx')
      → micros later <ℤ micros now +ℤ pos (900000 * den / num)
      → enforce_framerate later ctx' ≡ some (pos 0, ctx')
  enforce_framerate-spacing small sent early =
      let (s, _) = let_through ctx xs now window r num_ne sent in
      let early' : tv_greater_or_equal later ctx'.frame_time_next ≡ false = rw s.next (
        next_time_earliest ctx.fmt_nominal (pos (length xs)) (oldest (get_elem? xs 0) now) now later
          (too_early small early)) in
      enforce-wait ctx' (take_last n (xs ++ now ∷ [])) later s.frame_times s.holds
        (waits_of later ctx' s.window (some_held xs now s.holds) early')

  -- A frame that is let through after another did not come before the next time.
  due :
      {ctx'' : SrcContext P}
      → enforce_framerate now ctx ≡ some (pos 1, ctx')
      → enforce_framerate later ctx' ≡ some (pos 1, ctx'')
      → tv_greater_or_equal later ctx'.frame_time_next ≡ true
  due sent sent' =
      let (s, _) = let_through ctx xs now window r num_ne sent in
      elim (Bool-cases (tv_greater_or_equal later ctx'.frame_time_next)) [
        | inl h ↦ h
        | inr h ↦
            let waited =
              enforce-wait ctx' (take_last n (xs ++ now ∷ [])) later s.frame_times s.holds
                (waits_of later ctx' s.window (some_held xs now s.holds) h) in
            absurd (zero_ne_one (sym waited ∙ sent'))
      ]

  -- The window holds `k` frame times, the oldest of them `t`, and their time does not overflow an
  -- `int`. Then of two frames that are let through one after the other, the second comes at least
  -- `k` frame periods, in whole microseconds, after `t`.
  pub enforce_framerate-rate :
      (t : Timeval) {ctx'' : SrcContext P}
      → get_elem? xs 0 ≡ some t
      → IsNormal t
      → length xs * 1000000 < 2 ^ 31
      → length xs * 1000000 * den < 2 ^ 31
      → enforce_framerate now ctx ≡ some (pos 1, ctx')
      → enforce_framerate later ctx' ≡ some (pos 1, ctx'')
      → micros t +ℤ pos (length xs * 1000000 * den / num) ≤ℤ micros later
  enforce_framerate-rate t front normal_t small small' sent sent' =
      let k = length xs in
      let u = k * 1000000 * den / num in
      let (s, _) = let_through ctx xs now window r num_ne sent in
      let (exact, normal_end) =
        micros_after t u normal_t (omega (arith, div-le_self (k * 1000000 * den) num)) in
      let next : ctx'.frame_time_next ≡ next_time ctx.fmt_nominal (pos k) t now =
        s.next ∙ ap (λ o. next_time ctx.fmt_nominal (pos k) (oldest o now) now) front in
      let reached : tv_greater_or_equal later
            (tv_add_usecs t (window_usecs (pos k) ctx.fmt_nominal))
          ≡ true =
        next_time_window ctx.fmt_nominal (pos k) t now later (rw next at (due sent sent')) in
      let reached' : tv_greater_or_equal later (tv_add_usecs t (pos u)) ≡ true =
        rw (window_usecs-eq ctx.fmt_nominal num den k rate small small') at reached in
      rw exact at
        ((tv_greater_or_equal_iff later (tv_add_usecs t (pos u)) normal' normal_end).0 reached')
