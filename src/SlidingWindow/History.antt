-- ===== src/SlidingWindow/History.antt =====
-- A window over its whole life: after any history it holds the newest objects, and its front is
-- the oldest of them.
use libvidcap.Base.{
  ℕ, ◌+◌, ◌%◌, ◌<◌, ◌≡◌, refl, ◌∙◌, arith, Option, none, some, List, [], ◌∷◌, ◌++◌, length,
  get_elem?, ◌-◌, ◌*◌, ◌^◌, min, ap, pos, Bool, true,
}
use mathlib.Core.List.{append-nil, append_assoc}
use native.Mathlib.Nat.{mod-eq_of_lt, add-zero}
use libvidcap.SlidingWindow.{
  SlidingWindow, create, slide, peek_front, count_of, sizeof_sliding_window,
}
use libvidcap.SlidingWindow.Spec.{
  take_last, take_last-snoc, take_last_all, length-take_last, get_elem?-take_last,
}
use libvidcap.SlidingWindow.Represents.{Represents, create-Represents}
use libvidcap.SlidingWindow.Slide.{place_fits, slide-Represents}

module _ {A : Type 0} where
  -- A client's calls of `sliding_window_slide`, in order.
  unfoldable pub slide_all : SlidingWindow A → List A → Option (SlidingWindow A)
  slide_all w [] = some w
  slide_all w (x ∷ xs) = elim (slide w x) [ none ↦ none | some w' ↦ slide_all w' xs ]

  slide_all-Represents :
      (past xs : List A) {w : SlidingWindow A} {n : ℕ}
      → Represents w n (take_last n past)
      → (w' : SlidingWindow A) × (slide_all w xs ≡ some w')
        × Represents w' n (take_last n (past ++ xs))
  unfolding slide_all
  slide_all-Represents past [] {w} r = (w, refl, rw append-nil r)
  slide_all-Represents past (x ∷ xs) {w} {n} r =
      let (w', slid, r') = slide-Represents (take_last n past) x r in
      let r'' : Represents w' n (take_last n (past ++ x ∷ [])) =
        rw (← take_last-snoc n past x r.positive) r' in
      let (w'', ran, rest) = slide_all-Represents (past ++ x ∷ []) xs r'' in
      (w'', rw (slid, slide_all) ran, rw append_assoc at rest)

  -- `peek_front` points at the oldest object held, and is null for an empty window only; `count`
  -- is how many are held.
  pub peek_front-Represents :
      {w : SlidingWindow A} {n : ℕ} (xs : List A)
      → Represents w n xs
      → (peek_front w ≡ some (get_elem? xs 0)) × (count_of w ≡ pos (length xs))
  unfolding peek_front count_of
  peek_front-Represents [] r = (rw r.count_eq, r.count_eq)
  peek_front-Represents {n} (x ∷ xs) r =
      let start : (r.tail + 0) % n ≡ r.tail = rw add-zero (mod-eq_of_lt r.tail_in) in
      (
        rw (r.count_eq, r.tail_eq, r.size_eq, place_fits r.tail n r.size r.tail_in r.offsets)
            (ground (arith, start, r.holds 0)),
        r.count_eq,
      )

  -- A window of `n` places whose largest offset fits an `int` and that the allocator grants takes any history `xs` of slides without a
  -- fault. It then counts at most `n` objects, holds the last `n` of the history in order, and
  -- its front is the object that came `n` from the end (the first of a shorter history).
  pub window_history :
      (calloc_ok : ℕ → ℕ → Bool) (zeroed : A) (n object_size : ℕ) (xs : List A)
      → 0 < n
      → n + 1 < 2 ^ 31
      → (n - 1) * object_size < 2 ^ 31
      → calloc_ok 1 sizeof_sliding_window ≡ true
      → calloc_ok (n + 1) object_size ≡ true
      → (w₀ w : SlidingWindow A) × (create calloc_ok zeroed (pos n) (pos object_size) ≡ some w₀)
        × (slide_all w₀ xs ≡ some w)
        × Represents w n (take_last n xs)
        × (count_of w ≡ pos (min (length xs) n))
        × (peek_front w ≡ some (get_elem? xs (length xs - n)))
  window_history calloc_ok zeroed n object_size xs pos_n small offsets struct_ok array_ok =
      let (w₀, made, r₀) =
        create-Represents calloc_ok zeroed n object_size pos_n small offsets struct_ok array_ok in
      let (w, ran, r) =
        slide_all-Represents [] xs {w = w₀} {n = n}
          (rw (take_last_all {A = A} n [] (omega arith)) r₀) in
      (
        w₀,
        w,
        made,
        ran,
        r,
        (peek_front-Represents (take_last n xs) r).1 ∙ ap pos (length-take_last n xs),
        (peek_front-Represents (take_last n xs) r).0 ∙ ap some (get_elem?-take_last n xs),
      )
