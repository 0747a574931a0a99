-- ===== src/Conv/Grid.antt =====
-- An image of `2 * n` rows of `2 * m` pixels, in blocks of two rows and two columns: where the
-- pointers are at block `j` of block row `i`, and which addresses are done then.
use native.Mathlib.Nat.{
  mul-add-div_right, mul-add-mod_self_right, div-eq_of_lt, mod-eq_of_lt, div-add-mod, mod-lt,
}
use native.Mathlib.Decide.{dec_lt}
use libvidcap.Base.{
  ℕ, suc, ◌+◌, ◌-◌, ◌*◌, ◌/◌, ◌%◌, ◌<◌, ◌≤◌, ◌≡◌, refl, ap, ◌∙◌, arith, ltb, lt→ltb, if◌then◌else◌,
  false, true, some, List, pos, Bytes, ◌⊎◌,
}
use libvidcap.Conv.Pixels.{Write, Told, Apart, Filled, kernel, kernel_lem, nothing-Filled, weaken}
use libvidcap.Conv.Planar.{Pointers, returned, start, step, turn}

pub row_room : (i n m : ℕ) → i < n → i * m + m ≤ n * m
row_room i n m h = grind arith

pub grid-div : (i j m : ℕ) → j < m → (i * m + j) / m ≡ i
grid-div i j m h = mul-add-div_right (omega arith) i j ∙ (rw (div-eq_of_lt h) (omega arith))

pub grid-mod : (i j m : ℕ) → j < m → (i * m + j) % m ≡ j
grid-mod i j m h = mul-add-mod_self_right i m j ∙ mod-eq_of_lt h

-- The block row and the column of sample `k` of a chroma plane.
pub sample_cases : (n m k : ℕ) → k < n * m → (i : ℕ) × (j : ℕ) × (i < n) × (j < m) × (k ≡ i * m + j)
sample_cases n m k h =
    let some_column : 0 < m = grind arith in
    let column = mod-lt k some_column in
    let whole : k ≡ (k / m) * m + k % m = omega (arith, div-add-mod k m) in
    (
      k / m,
      k % m,
      elim (dec_lt (k / m) n) [
        | yes r ↦ r
        | no far ↦ absurd (let f : n * m ≤ k / m * m = grind (arith, far) in omega arith)
      ],
      column,
      whole,
    )

pub same_pointers :
    (p q : Pointers)
    → p.y_even ≡ q.y_even
    → p.y_odd ≡ q.y_odd
    → p.u ≡ q.u
    → p.v ≡ q.v
    → p.even ≡ q.even
    → p.odd ≡ q.odd
    → p ≡ q
same_pointers p q a b c d e f =
    λ k. record { y_even = a k; y_odd = b k; u = c k; v = d k; even = e k; odd = f k }

module _ (bytes n m : ℕ) where
  abbrev pub at_block : ℕ → ℕ → Pointers
  at_block i j = record {
    y_even = 4 * (i * m) + 2 * j;
    y_odd = 4 * (i * m) + 2 * m + 2 * j;
    u = 4 * (n * m) + i * m + j;
    v = 5 * (n * m) + i * m + j;
    even = bytes * (4 * (i * m) + 2 * j);
    odd = bytes * (4 * (i * m) + 2 * m + 2 * j);
  }

  pub start_lem : start bytes (2 * m) (2 * n) ≡ at_block 0 0
  start_lem =
      same_pointers _ _ (omega arith) (omega arith) (omega arith) (omega arith) (omega arith)
        (omega arith)

  pub step_lem : (i j : ℕ) → step bytes (at_block i j) ≡ at_block i (suc j)
  step_lem i j =
      same_pointers _ _ (omega arith) (omega arith) (omega arith) (omega arith) (omega arith)
        (omega arith)

  pub turn_lem : (i : ℕ) → turn bytes (2 * m) (at_block i m) ≡ at_block (suc i) 0
  turn_lem i =
      same_pointers _ _ (omega arith) (omega arith) (omega arith) (omega arith) (omega arith)
        (omega arith)

-- The planar image of `width` columns and `height` rows whose luma at pixel `a` is `y a`, and whose
-- chroma samples `k` are `u k` and `v k`.
abbrev pub planar : ℕ → ℕ → (ℕ → ℕ) → (ℕ → ℕ) → (ℕ → ℕ) → ℕ → ℕ
planar width height y u v a =
    let area = width * height in
    if ltb a area
    then y a
    else if ltb a (area + area / 4)
    then u (a - area)
    else v (a - area - area / 4)

-- The addresses written before block `j` of block row `i`, in a planar image.
abbrev pub PlanarDone : ℕ → ℕ → ℕ → ℕ → ℕ → Type 0
PlanarDone n m i j a =
    (a < 4 * (i * m) + 2 * j)
    ⊎ (((4 * (i * m) + 2 * m ≤ a) × (a < 4 * (i * m) + 2 * m + 2 * j))
        ⊎ (((4 * (n * m) ≤ a) × (a < 4 * (n * m) + i * m + j))
            ⊎ ((5 * (n * m) ≤ a) × (a < 5 * (n * m) + i * m + j))))

module _ (n m : ℕ) (y u v : ℕ → ℕ) where
  pub planar_y : (a : ℕ) → a < 4 * (n * m) → planar (2 * m) (2 * n) y u v a ≡ y a
  planar_y a h = rw (lt→ltb a (2 * m * (2 * n)) (omega arith)) refl

  pub planar_u :
      (i j a : ℕ)
      → i < n
      → j < m
      → a ≡ 4 * (n * m) + i * m + j
      → planar (2 * m) (2 * n) y u v a ≡ u (i * m + j)
  planar_u i j a h k e =
      let room = row_room i n m h in
      let no : ltb a (2 * m * (2 * n)) ≡ false = ground arith in
      let yes : ltb a (2 * m * (2 * n) + 2 * m * (2 * n) / 4) ≡ true = ground arith in
      rw (no, yes) (ap u (omega arith))

  pub planar_v :
      (i j a : ℕ)
      → i < n
      → j < m
      → a ≡ 5 * (n * m) + i * m + j
      → planar (2 * m) (2 * n) y u v a ≡ v (i * m + j)
  planar_v i j a h k e =
      let room = row_room i n m h in
      let no : ltb a (2 * m * (2 * n)) ≡ false = ground arith in
      let no' : ltb a (2 * m * (2 * n) + 2 * m * (2 * n) / 4) ≡ false = ground arith in
      rw (no, no') (ap v (omega arith))

pub planar_onward : (n m i a : ℕ) → i < n → PlanarDone n m (suc i) 0 a → PlanarDone n m i m a
planar_onward n m i a h d = ground arith

-- A kernel from a packed image of `b` bytes a pixel to a planar one, both of even width and height.
pub planar_kernel :
    (b n m : ℕ) (dst : Bytes)
    → 6 * (n * m) ≤ dst.size
    → (g : ℕ → ℕ) (stores : Pointers → List Write)
    → ((i j : ℕ) → i < n → j < m → Told g (6 * (n * m)) (stores (at_block b n m i j)))
    → ((i j a : ℕ)
        → i < n
        → j < m
        → PlanarDone n m i (suc j) a
        → Apart a (stores (at_block b n m i j))
        → PlanarDone n m i j a)
    → (now : Bytes) × (returned (
          kernel
            (2 * n / 2)
            (2 * m / 2)
            stores
            (step b)
            (turn b (2 * m))
            (start b (2 * m) (2 * n))
            dst)
        ≡ some (pos 0, now))
      × Filled g (6 * (n * m)) dst (λ a. a < 6 * (n * m)) now
planar_kernel b n m dst room g stores told more =
    let rows : 2 * n / 2 ≡ n = omega arith in
    let columns : 2 * m / 2 ≡ m = omega arith in
    let (now, ran, f) =
      kernel_lem g (6 * (n * m)) dst room stores (step b) (turn b (2 * m)) n m (at_block b n m)
        (PlanarDone n m) (step_lem b n m) (turn_lem b n m) told more (planar_onward n m) dst
        (nothing-Filled (λ a d. ground arith)) in
    (
      now,
      rw (rows, columns, start_lem b n m, ran) refl,
      weaken (PlanarDone n m n 0) (λ a. a < 6 * (n * m)) (λ a l. ground arith) f,
    )
