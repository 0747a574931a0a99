-- ===== src/Conv/Pixels.antt =====
-- Kernels that go over an image in blocks: the order of their stores, and what they leave in the
-- destination. A kernel of src/conv_to_i420.c, src/conv_to_yuy2.c or src/conv_to_rgb.c is given by
-- the pointers it moves, the stores of one block, and how the pointers move.
use native.Mathlib.Decide.{ℕ_discrete}
use libvidcap.Base.{
  ℕ, suc, ◌<◌, ◌≤◌, ◌≡◌, ◌≢◌, refl, sym, ap, ◌∙◌, arith, Option, some, List, [], ◌∷◌, Bytes, load,
  store, put, scan, scan_inv, ◌⊎◌, inl, inr,
}
use libvidcap.Conv.Destride.{◌>>=◌}

-- `*to = value`, where `value` reads the source and can fault.
pub record Write : Type 0 where
  pub to : ℕ
  pub value : Option ℕ

abbrev pub write : ℕ → Option ℕ → Write
write p v = record { to = p; value = v }

-- The stores, in their order.
unfoldable pub writes : Bytes → List Write → Option Bytes
writes dst [] = some dst
writes dst (w ∷ l) = do v ← w.value; dst' ← store dst w.to v; writes dst' l

-- The destination and the pointers.
pub record Cursor (P : Type 0) : Type 0 where
  pub dst : Bytes
  pub ptr : P

unfoldable pub block : {P : Type 0} → (P → List Write) → (P → P) → Cursor P → Option (Cursor P)
block stores step s = do
  dst ← writes s.dst (stores s.ptr)
  some (record { dst = dst; ptr = step s.ptr })

abbrev pub turned : {P : Type 0} → (P → P) → Cursor P → Cursor P
turned turn s = record { dst = s.dst; ptr = turn s.ptr }

-- `n` rows of `m` blocks.
unfoldable pub kernel :
    {P : Type 0} → ℕ → ℕ → (P → List Write) → (P → P) → (P → P) → P → Bytes → Option Bytes
kernel n m stores step turn start dst = do
  s ← scan n m (block stores step) (turned turn) (record { dst = dst; ptr = start })
  some s.dst

pub load_lem : (b : Bytes) (p : ℕ) → p < b.size → load b p ≡ some (b.at p)
unfolding load
load_lem b p h = ground arith

store_lem : (b : Bytes) (p v : ℕ) → p < b.size → store b p v ≡ some (record b { at = put b.at p v })
unfolding store
store_lem b p v h = ground arith

module _ (spec : ℕ → ℕ) (total : ℕ) where
  -- Each store writes what `spec` has at its address, which is below `total`.
  abbrev pub Told : List Write → Type 0
  Told [] = Unit
  Told (w ∷ l) = ((w.value ≡ some (spec w.to)) × (w.to < total)) × Told l

infixr 4 ◌&◌
abbrev pub ◌&◌ : {A B : Type 0} → A → B → A × B
a & b = (a, b)

-- A byte that is moved from `q` to `p`.
pub moved :
    (g : ℕ → ℕ) (total : ℕ) (src : Bytes) (p q : ℕ)
    → p < total
    → q < src.size
    → g p ≡ src.at q
    → (load src q ≡ some (g p)) × (p < total)
moved g total src p q l h e = (load_lem src q h ∙ ap some (sym e), l)

-- No store of the list is to address `a`.
abbrev pub Apart : ℕ → List Write → Type 0
Apart a [] = Unit
Apart a (w ∷ l) = (a ≢ w.to) × Apart a l

-- `now` agrees with `spec` on the addresses that are done, and with `old` from `total` on.
pub record Filled (spec : ℕ → ℕ) (total : ℕ) (old : Bytes) (done : ℕ → Type 0) (now : Bytes)
    : Type 0 where
  pub same_size : now.size ≡ old.size
  pub inside : (a : ℕ) → done a → now.at a ≡ spec a
  pub outside : (a : ℕ) → total ≤ a → now.at a ≡ old.at a

pub weaken :
    {spec : ℕ → ℕ} {total : ℕ} {old now : Bytes} (done done' : ℕ → Type 0)
    → ((a : ℕ) → done' a → done a)
    → Filled spec total old done now
    → Filled spec total old done' now
weaken done done' sub f = record {
  same_size = f.same_size;
  inside = λ a d. f.inside a (sub a d);
  outside = f.outside;
}

-- Before the first block nothing is done.
pub nothing-Filled :
    {spec : ℕ → ℕ} {total : ℕ} {old : Bytes} {done : ℕ → Type 0}
    → ((a : ℕ) → done a → ⊥)
    → Filled spec total old done old
nothing-Filled none_done = record {
  same_size = refl;
  inside = λ a d. absurd (none_done a d);
  outside = λ a l. refl;
}

module _ (spec : ℕ → ℕ) (total : ℕ) (old : Bytes) (room : total ≤ old.size) where
  one_more :
      (w : Write) (done : ℕ → Type 0) (now : Bytes)
      → w.to < total
      → Filled spec total old done now
      → Filled spec total old
          (λ a. (a ≡ w.to) ⊎ done a)
          (record now { at = put now.at w.to (spec w.to) })
  one_more w done now h f = record {
    same_size = f.same_size;
    inside = λ a d. elim d [
      | inl e ↦ ground (arith, e)
      | inr d' ↦ let r = f.inside a d' in ground (arith, r)
    ];
    outside = λ a l. let r = f.outside a l in ground (arith, r);
  }

  -- The first store succeeds, and the others follow.
  first_write :
      (w : Write) (l : List Write) (now : Bytes)
      → w.value ≡ some (spec w.to)
      → w.to < now.size
      → writes now (w ∷ l) ≡ writes (record now { at = put now.at w.to (spec w.to) }) l
  unfolding writes
  first_write w l now v h = rw (v, store_lem now w.to (spec w.to) h)

  writes_lem :
      (l : List Write) (done : ℕ → Type 0) (now : Bytes)
      → Told spec total l
      → Filled spec total old done now
      → (now' : Bytes) × (writes now l ≡ some now')
        × ((done' : ℕ → Type 0)
            → ((a : ℕ) → done' a → Apart a l → done a)
            → Filled spec total old done' now')
  unfolding writes
  writes_lem [] done now t f = (now, refl, λ done' sub. weaken done done' (λ a d. sub a d _) f)
  writes_lem (w ∷ l) done now ((v, h), t) f =
      let next = record now { at = put now.at w.to (spec w.to) } in
      let (now', ran, more) = writes_lem l _ next t (one_more w done now h f) in
      (
        now',
        first_write w l now v (omega (arith, f.same_size)) ∙ ran,
        λ done' sub. more done' (λ a d apart. elim (ℕ_discrete a w.to) [
          | yes e ↦ inl e
          | no ne ↦ inr (sub a d (ne, apart))
        ]),
      )

module _ {P : Type 0} (spec : ℕ → ℕ) (total : ℕ) (old : Bytes) (room : total ≤ old.size)
    (stores : P → List Write) (step turn : P → P) (n m : ℕ) (ptr : ℕ → ℕ → P)
    (done : ℕ → ℕ → ℕ → Type 0) (steps : (i j : ℕ) → step (ptr i j) ≡ ptr i (suc j))
    (turns : (i : ℕ) → turn (ptr i m) ≡ ptr (suc i) 0)
    (told : (i j : ℕ) → i < n → j < m → Told spec total (stores (ptr i j)))
    (more : (i j a : ℕ)
      → i < n
      → j < m
      → done i (suc j) a
      → Apart a (stores (ptr i j))
      → done i j a)
    (onward : (i a : ℕ) → i < n → done (suc i) 0 a → done i m a) (before : Bytes)
    (begin : Filled spec total old (done 0 0) before) where
  abbrev Reached : ℕ → ℕ → Cursor P → Type 0
  Reached i j s = Filled spec total old (done i j) s.dst × (s.ptr ≡ ptr i j)

  keep :
      (i j : ℕ) (s : Cursor P)
      → i < n
      → j < m
      → Reached i j s
      → (s' : Cursor P) × (block stores step s ≡ some s') × Reached i (suc j) s'
  unfolding block
  keep i j s h k (f, e) =
      let (now, ran, filled) =
        writes_lem spec total old room (stores (ptr i j)) (done i j) s.dst (told i j h k) f in
      (
        record { dst = now; ptr = step (ptr i j) },
        rw (e, ran) refl,
        (filled (done i (suc j)) (λ a. more i j a h k), steps i j),
      )

  -- A kernel whose blocks write what `spec` has, and whose blocks together reach the addresses that
  -- are done at the end, fills them without a fault.
  pub kernel_lem :
      (now : Bytes) × (kernel n m stores step turn (ptr 0 0) before ≡ some now)
      × Filled spec total old (done n 0) now
  unfolding kernel
  kernel_lem =
      let (s, ran, (f, e)) =
        scan_inv Reached (block stores step) (turned turn) n m keep
          (λ i s h (f, e).
            (weaken (done i m) (done (suc i) 0) (λ a. onward i a h) f, rw e (turns i)))
          (record { dst = before; ptr = ptr 0 0 }) (begin, refl) in
      (s.dst, rw ran refl, f)
