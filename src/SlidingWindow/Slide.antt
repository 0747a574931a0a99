-- ===== src/SlidingWindow/Slide.antt =====
-- `sliding_window_slide`: the window then holds the last `window_len` objects.
use native.Mathlib.Nat.{mod-add-mod, mod-eq_of_lt, mod-lt, mod-eq-sub-mod}
use native.Mathlib.Decide.{dec_lt}
use libvidcap.Base.{
  ℕ, suc, ◌+◌, ◌-◌, ◌*◌, ◌^◌, ◌%◌, ◌≤◌, ◌<◌, ◌*ℤ◌, *ℤ_pos, ◌≡◌, refl, sym, ap, ◌∙◌, arith, ◌≢◌, ◌⊎◌,
  inl, inr, some, List, [], ◌∷◌, ◌++◌, length, get_elem?, set, length-append, length-set,
  get_elem?-set_self, get_elem?-set_ne, pos, ◌+ℤ◌, int32, rem, int32_lem, +ℤ_pos, rem_pos,
  get_elem?-append_left, get_elem?-snoc,
}
use libvidcap.SlidingWindow.{SlidingWindow, slide, advance}
use libvidcap.SlidingWindow.Represents.{Represents}
use libvidcap.SlidingWindow.Spec.{take_last, take_last_all, take_last_cons}

-- Once round at most.
mod_wrap : (a n : ℕ) → a < n + n → ((a < n) × (a % n ≡ a)) ⊎ ((n ≤ a) × (a % n + n ≡ a))
mod_wrap a n h = elim (dec_lt a n) [
  | yes p ↦ inl (p, mod-eq_of_lt p)
  | no p ↦ inr (
    omega arith,
    omega (
      arith,
      mod-eq-sub-mod {n = a} {m = n} (omega arith),
      mod-eq_of_lt {n = a - n} {m = n} (omega arith),
    ),
  )
]

-- Two places less than a round apart are different.
mod_ne : (t i j n : ℕ) → t < n → i < j → j ≤ n → j < i + n → (t + i) % n ≢ (t + j) % n
mod_ne t i j n ht hi hj hn = omega (arith, mod_wrap (t + i) n, mod_wrap (t + j) n)

-- Every place but the last has an offset that fits an `int`.
offset_le : (i m size : ℕ) → i ≤ m → i * size ≤ m * size
offset_le i m size h = grind arith

pub place_fits :
    (i n size : ℕ) → i < n → (n - 1) * size < 2 ^ 31 → int32 (pos i *ℤ pos size) ≡ pos i *ℤ pos size
place_fits i n size h small =
    rw *ℤ_pos (int32_lem (pos (i * size)) (omega (arith, offset_le i (n - 1) size (omega arith))))

module _ {A : Type 0} {w : SlidingWindow A} {n : ℕ} {xs : List A} (x : A)
    (r : Represents w n xs) where
  -- The index that the next object goes to.
  abbrev next : ℕ
  next = (r.tail + length xs) % n

  written : SlidingWindow A
  written = record w { head = pos next; objects = set w.objects next x }

  next-offset : int32 (pos next *ℤ pos r.size) ≡ pos next *ℤ pos r.size
  next-offset = place_fits next n r.size (mod-lt (r.tail + length xs) r.positive) r.offsets

  slide-eq-advance : slide w x ≡ some (advance written)
  unfolding slide written
  slide-eq-advance =
      rw (r.len_eq, r.head_next, r.size_eq, next-offset)
        (ground (arith, mod-lt (r.tail + length xs) r.positive))

  -- Below its length the window grows.
  advance_grows : length xs < n → advance written ≡ record written { count = pos (length xs + 1) }
  unfolding advance written
  advance_grows h = ground (arith, +ℤ_pos (length xs) 1, int32_lem (pos (length xs + 1)))

  -- At its length the oldest object is dropped.
  advance_turns : length xs ≡ n → advance written ≡ record written { tail = pos ((r.tail + 1) % n) }
  unfolding advance written
  advance_turns h =
      ground (arith, +ℤ_pos r.tail 1, int32_lem (pos (r.tail + 1)), rem_pos (r.tail + 1) n)

  -- The head moves on to the object just written.
  head_next_written :
      (m : ℕ)
      → m % n ≡ (r.tail + length xs + 1) % n
      → rem (int32 (pos next +ℤ pos 1)) (pos n) ≡ pos (m % n)
  head_next_written m e = rw (
    +ℤ_pos next 1,
    int32_lem (pos (next + 1)) (omega (arith, mod-lt (r.tail + length xs) r.positive)),
    rem_pos (next + 1) n,
    mod-add-mod (r.tail + length xs) n 1,
    e,
  )

  holds_old :
      (i : ℕ)
      → i < length xs
      → length xs < i + n
      → get_elem? (set w.objects next x) ((r.tail + i) % n) ≡ get_elem? xs i
  holds_old i h d =
      get_elem?-set_ne w.objects x (λ e. mod_ne r.tail i (length xs) n r.tail_in h r.fits d (sym e))
      ∙ r.holds i h

  holds_new : get_elem? (set w.objects next x) next ≡ some x
  holds_new =
      get_elem?-set_self w.objects next x (omega (arith, mod-lt (r.tail + length xs) r.positive))

  length_snoc : length (xs ++ x ∷ []) ≡ length xs + 1
  length_snoc = length-append xs (x ∷ [])

  holds_grown :
      length xs < n
      → (i : ℕ) → i < length (xs ++ x ∷ [])
      → get_elem? (set w.objects next x) ((r.tail + i) % n) ≡ get_elem? (xs ++ x ∷ []) i
  holds_grown room i h = elim (dec_lt i (length xs)) [
    | yes p ↦ holds_old i p (omega arith) ∙ sym (get_elem?-append_left xs (x ∷ []) i p)
    | no p ↦
        let e : i ≡ length xs = omega (arith, length_snoc) in
        rw e (holds_new ∙ sym (get_elem?-snoc xs x))
  ]

  grown-Represents :
      length xs < n → Represents (record written { count = pos (length xs + 1) }) n (xs ++ x ∷ [])
  unfolding written
  grown-Represents h = record {
    tail = r.tail;
    size = r.size;
    size_eq = r.size_eq;
    offsets = r.offsets;
    positive = r.positive;
    small = r.small;
    len_eq = r.len_eq;
    slots = length-set w.objects next x ∙ r.slots;
    count_eq = ap pos (sym length_snoc);
    fits = omega (arith, length_snoc);
    tail_eq = r.tail_eq;
    tail_in = r.tail_in;
    head_next =
        rw length_snoc
          (head_next_written (r.tail + (length xs + 1)) (ap (λ k. k % n) (omega arith)));
    holds = holds_grown h;
  }

-- The same at the full length, where the oldest object `y` makes room.
module _ {A : Type 0} {w : SlidingWindow A} {n : ℕ} {y : A} {ys : List A} (x : A)
    (r : Represents w n (y ∷ ys)) (full : suc (length ys) ≡ n) where
  abbrev turned : SlidingWindow A
  unfolding written
  turned = record (written x r) { tail = pos ((r.tail + 1) % n) }

  holds_turned :
      (i : ℕ)
      → i < length (ys ++ x ∷ [])
      → get_elem? (set w.objects (next x r) x) (((r.tail + 1) % n + i) % n)
        ≡ get_elem? (ys ++ x ∷ []) i
  holds_turned i h =
      let shift : ((r.tail + 1) % n + i) % n ≡ (r.tail + suc i) % n =
        mod-add-mod (r.tail + 1) n i ∙ ap (λ k. k % n) (omega arith) in
      rw shift (elim (dec_lt i (length ys)) [
        | yes p ↦
            holds_old x r (suc i) (omega arith) (omega arith)
            ∙ sym (get_elem?-append_left ys (x ∷ []) i p)
        | no p ↦
            let e : i ≡ length ys = omega (arith, length-append ys (x ∷ [])) in
            rw e (holds_new x r ∙ sym (get_elem?-snoc ys x))
      ])

  turned-Represents : Represents turned n (ys ++ x ∷ [])
  unfolding written turned
  turned-Represents =
      let len : length (ys ++ x ∷ []) ≡ suc (length ys) =
        omega (arith, length-append ys (x ∷ [])) in
      record {
        tail = (r.tail + 1) % n;
        size = r.size;
        size_eq = r.size_eq;
        offsets = r.offsets;
        positive = r.positive;
        small = r.small;
        len_eq = r.len_eq;
        slots = length-set w.objects (next x r) x ∙ r.slots;
        count_eq = r.count_eq ∙ ap pos (sym len);
        fits = omega arith;
        tail_eq = refl;
        tail_in = mod-lt (r.tail + 1) r.positive;
        head_next =
            rw (len, mod-add-mod)
              (head_next_written x r (r.tail + 1 + suc (length ys))
                (ap (λ k. k % n) (omega arith)));
        holds = holds_turned;
      }

-- A slide never faults; the window then holds the last `n` of its old objects and the new one.
pub slide-Represents :
    {A : Type 0} {w : SlidingWindow A} {n : ℕ} (xs : List A) (x : A)
    → Represents w n xs
    → (w' : SlidingWindow A) × (slide w x ≡ some w') × Represents w' n (take_last n (xs ++ x ∷ []))
unfolding turned
slide-Represents {A} {w} {n} xs x r = elim (dec_lt (length xs) n) [
  | yes room ↦ (
    _,
    slide-eq-advance x r ∙ ap some (advance_grows x r room),
    rw (take_last_all n (xs ++ x ∷ []) (omega (arith, length-append xs (x ∷ []))))
        (grown-Represents x r room),
  )
  | no no_room ↦ full xs r (omega (arith, r.fits))
]
  where
    full :
        (xs : List A) (r : Represents w n xs)
        → length xs ≡ n
        → (w' : SlidingWindow A) × (slide w x ≡ some w')
          × Represents w' n (take_last n (xs ++ x ∷ []))
    full [] r e = absurd (omega (arith, r.positive))
    full (y ∷ ys) r e = (
      _,
      slide-eq-advance x r ∙ ap some (advance_turns x r e),
      rw (take_last_cons n y (ys ++ x ∷ []) (omega (arith, length-append ys (x ∷ []))))
          (turned-Represents x r e),
    )
