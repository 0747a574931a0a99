-- ===== src/Conv/RgbPairs.antt =====
-- `vidcap_rgb32_to_yuy2` of src/conv_to_yuy2.c.
use libvidcap.Base.{
  ℕ, suc, ◌+◌, ◌*◌, ◌/◌, ◌%◌, ◌<◌, ◌≤◌, ◌≡◌, refl, sym, ap, arith, inl, Option, some, List, [], ◌∷◌,
  ◌==◌, if◌then◌else◌, false, true, ℤ, pos, Bytes,
}
use libvidcap.Conv.Pixels.{
  Write, write, ◌&◌, Told, Apart, Filled, kernel, kernel_lem, nothing-Filled, weaken,
}
use libvidcap.Conv.Planar.{returned}
use libvidcap.Conv.Grid.{row_room}
use libvidcap.Conv.Pack.{PackedDone}
use libvidcap.Conv.Luma.{exact_y, exact_u, exact_v, of_pixel, pixel}
use libvidcap.Conv.FromRgb.{computed}

-- The pointers of the loop between two packed images.
pub record Pairs : Type 0 where
  pub src_even : ℕ
  pub src_odd : ℕ
  pub dst_even : ℕ
  pub dst_odd : ℕ

abbrev pair_stores : Bytes → Pairs → List Write
pair_stores src s =
    write s.dst_even (pixel exact_y src s.src_even)
    ∷ write (s.dst_even + 1) (pixel exact_u src s.src_even)
    ∷ write (s.dst_even + 2) (pixel exact_y src (s.src_even + 4))
    ∷ write (s.dst_even + 3) (pixel exact_v src (s.src_even + 4))
    ∷ write s.dst_odd (pixel exact_y src s.src_odd)
    ∷ write (s.dst_odd + 1) (pixel exact_u src s.src_odd)
    ∷ write (s.dst_odd + 2) (pixel exact_y src (s.src_odd + 4))
    ∷ write (s.dst_odd + 3) (pixel exact_v src (s.src_odd + 4))
    ∷ []

abbrev pair_step : Pairs → Pairs
pair_step s = record {
  src_even = s.src_even + 8;
  src_odd = s.src_odd + 8;
  dst_even = s.dst_even + 4;
  dst_odd = s.dst_odd + 4;
}

abbrev pair_turn : ℕ → Pairs → Pairs
pair_turn width s = record {
  src_even = s.src_even + width * 4;
  src_odd = s.src_odd + width * 4;
  dst_even = s.dst_even + width * 2;
  dst_odd = s.dst_odd + width * 2;
}

unfoldable pub rgb32_to_yuy2 : ℕ → ℕ → Bytes → Bytes → Option (ℤ × Bytes)
rgb32_to_yuy2 width height src dst = returned (
    kernel (height / 2) (width / 2) (pair_stores src) pair_step (pair_turn width)
      (record { src_even = 0; src_odd = width * 4; dst_even = 0; dst_odd = width * 2 }) dst)

-- Byte `a` of the yuy2 image: luma of pixel `a / 2`; u of the first pixel of a pair, v of the second.
abbrev pub packed_of_rgb : (ℕ → ℕ) → ℕ → ℕ
packed_of_rgb f a =
    if a % 2 == 0
    then of_pixel exact_y f (4 * (a / 2))
    else if a % 4 == 1
    then of_pixel exact_u f (4 * (a / 2))
    else of_pixel exact_v f (4 * (a / 2))

module _ (m : ℕ) where
  abbrev pair_at : ℕ → ℕ → Pairs
  pair_at i j = record {
    src_even = 16 * (i * m) + 8 * j;
    src_odd = 16 * (i * m) + 8 * m + 8 * j;
    dst_even = 8 * (i * m) + 4 * j;
    dst_odd = 8 * (i * m) + 4 * m + 4 * j;
  }

  same_pairs :
      (p q : Pairs)
      → p.src_even ≡ q.src_even
      → p.src_odd ≡ q.src_odd
      → p.dst_even ≡ q.dst_even
      → p.dst_odd ≡ q.dst_odd
      → p ≡ q
  same_pairs p q a b c d =
      λ k. record { src_even = a k; src_odd = b k; dst_even = c k; dst_odd = d k }

  pair_step_lem : (i j : ℕ) → pair_step (pair_at i j) ≡ pair_at i (suc j)
  pair_step_lem i j = same_pairs _ _ (omega arith) (omega arith) (omega arith) (omega arith)

  pair_turn_lem : (i : ℕ) → pair_turn (2 * m) (pair_at i m) ≡ pair_at (suc i) 0
  pair_turn_lem i = same_pairs _ _ (omega arith) (omega arith) (omega arith) (omega arith)

  pair_start :
      record { src_even = 0; src_odd = 2 * m * 4; dst_even = 0; dst_odd = 2 * m * 2 } ≡ pair_at 0 0
  pair_start = same_pairs _ _ (omega arith) (omega arith) (omega arith) (omega arith)

module _ (f : ℕ → ℕ) where
  even_byte : (a b : ℕ) → a % 2 ≡ 0 → b ≡ 4 * (a / 2) → packed_of_rgb f a ≡ of_pixel exact_y f b
  even_byte a b h e =
      let yes : (a % 2 == 0) ≡ true = ground arith in rw yes (ap (of_pixel exact_y f) (sym e))

  u_byte : (a b : ℕ) → a % 4 ≡ 1 → b ≡ 4 * (a / 2) → packed_of_rgb f a ≡ of_pixel exact_u f b
  u_byte a b h e =
      let no : (a % 2 == 0) ≡ false = ground arith in
      let yes : (a % 4 == 1) ≡ true = ground arith in rw (no, yes) (ap (of_pixel exact_u f) (sym e))

  v_byte : (a b : ℕ) → a % 4 ≡ 3 → b ≡ 4 * (a / 2) → packed_of_rgb f a ≡ of_pixel exact_v f b
  v_byte a b h e =
      let no : (a % 2 == 0) ≡ false = ground arith in
      let no' : (a % 4 == 1) ≡ false = ground arith in
      rw (no, no') (ap (of_pixel exact_v f) (sym e))

module _ (n m : ℕ) (src : Bytes) (reach : 16 * (n * m) ≤ src.size) where
  pair-Told :
      (i j : ℕ)
      → i < n
      → j < m
      → Told (packed_of_rgb src.at) (8 * (n * m)) (pair_stores src (pair_at m i j))
  pair-Told i j h k =
      let fits = row_room i n m h in
      let put = computed (packed_of_rgb src.at) (8 * (n * m)) src in
      let y = even_byte src.at in
      let u = u_byte src.at in
      let v = v_byte src.at in
      let e = 8 * (i * m) + 4 * j in
      let o = 8 * (i * m) + 4 * m + 4 * j in
      put exact_y _ _ (omega arith) (omega arith) (y e _ (omega arith) (omega arith))
      & put exact_u _ _ (omega arith) (omega arith) (u (e + 1) _ (omega arith) (omega arith))
      & put exact_y _ _ (omega arith) (omega arith) (y (e + 2) _ (omega arith) (omega arith))
      & put exact_v _ _ (omega arith) (omega arith) (v (e + 3) _ (omega arith) (omega arith))
      & put exact_y _ _ (omega arith) (omega arith) (y o _ (omega arith) (omega arith))
      & put exact_u _ _ (omega arith) (omega arith) (u (o + 1) _ (omega arith) (omega arith))
      & put exact_y _ _ (omega arith) (omega arith) (y (o + 2) _ (omega arith) (omega arith))
      & put exact_v _ _ (omega arith) (omega arith) (v (o + 3) _ (omega arith) (omega arith))
      & _

  pair_more :
      (i j a : ℕ)
      → i < n
      → j < m
      → PackedDone 2 m i (suc j) a
      → Apart a (pair_stores src (pair_at m i j))
      → PackedDone 2 m i j a
  pair_more i j a h k d apart = ground arith

-- An rgb32 image of even width and height becomes yuy2: the luma of every pixel, and between them u
-- of the first and v of the second pixel of each pair. The destination's other bytes stay, and
-- nothing faults.
pub rgb32_to_yuy2-Filled :
    (n m : ℕ) (src dst : Bytes)
    → 16 * (n * m) ≤ src.size
    → 8 * (n * m) ≤ dst.size
    → (now : Bytes) × (rgb32_to_yuy2 (2 * m) (2 * n) src dst ≡ some (pos 0, now))
      × Filled (packed_of_rgb src.at) (8 * (n * m)) dst (λ a. a < 8 * (n * m)) now
unfolding rgb32_to_yuy2
rgb32_to_yuy2-Filled n m src dst reach room =
    let rows : 2 * n / 2 ≡ n = omega arith in
    let columns : 2 * m / 2 ≡ m = omega arith in
    let (now, ran, f) =
      kernel_lem (packed_of_rgb src.at) (8 * (n * m)) dst room (pair_stores src) pair_step
        (pair_turn (2 * m)) n m (pair_at m) (PackedDone 2 m) (pair_step_lem m) (pair_turn_lem m)
        (pair-Told n m src reach) (pair_more n m src reach) (λ i a h d. ground arith) dst
        (nothing-Filled (λ a d. ground arith)) in
    (
      now,
      rw (rows, columns, pair_start m, ran) refl,
      weaken (PackedDone 2 m n 0) (λ a. a < 8 * (n * m)) (λ a l. inl (omega arith)) f,
    )
