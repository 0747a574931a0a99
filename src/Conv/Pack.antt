-- ===== src/Conv/Pack.antt =====
-- What `vidcap_i420_to_yuy2` of src/conv_to_yuy2.c puts in each byte of the destination, and that
-- unpacking the result gives the image back.
use libvidcap.Base.{
  ℕ, suc, ◌+◌, ◌*◌, ◌/◌, ◌%◌, ◌<◌, ◌≤◌, ◌≡◌, refl, ap, arith, ◌⊎◌, inl, some, List, ◌==◌,
  if◌then◌else◌, false, true, pos, Bytes,
}
use libvidcap.Conv.Pixels.{
  Write, ◌&◌, moved, weaken, nothing-Filled, Told, Apart, Filled, kernel, kernel_lem,
}
use libvidcap.Conv.Planar.{Pointers, start, step, turn, pack_stores, i420_to_yuy2}
use libvidcap.Conv.Grid.{row_room, grid-div, grid-mod, at_block, start_lem, step_lem, turn_lem}

-- Byte `a` of the packed image, from the planar image `f`: luma bytes in order at the even
-- addresses, and between them the chroma of the block that holds the pixel.
abbrev pub packed : ℕ → ℕ → (ℕ → ℕ) → ℕ → ℕ
packed width height f a =
    let area = width * height in
    let row = a / (2 * width) in
    let column = a % (2 * width) in
    let k = row / 2 * (width / 2) + column / 4 in
    if column % 2 == 0
    then f (a / 2)
    else if column % 4 == 1
    then f (area + k)
    else f (area + area / 4 + k)

-- The addresses written before block `j` of block row `i`, in an image of `b` bytes a pixel.
abbrev pub PackedDone : ℕ → ℕ → ℕ → ℕ → ℕ → Type 0
PackedDone b m i j a =
    (a < b * (4 * (i * m) + 2 * j))
    ⊎ ((b * (4 * (i * m) + 2 * m) ≤ a) × (a < b * (4 * (i * m) + 2 * m + 2 * j)))

module _ (n m : ℕ) (f : ℕ → ℕ) where
  -- The row and the column of an address in the block rows `i`.
  row_column :
      (r c a : ℕ)
      → c < 4 * m
      → a ≡ r * (4 * m) + c
      → (a / (2 * (2 * m)) ≡ r) × (a % (2 * (2 * m)) ≡ c)
  row_column r c a h e =
      let width : 2 * (2 * m) ≡ 4 * m = omega arith in
      (rw (width, e) (grid-div r c (4 * m) h), rw (width, e) (grid-mod r c (4 * m) h))

  module _ (r i j d a : ℕ) (pair : r / 2 ≡ i) (h : j < m) (small : d < 4)
      (e : a ≡ r * (4 * m) + (4 * j + d)) where
    pub packed_luma : (b : ℕ) → d % 2 ≡ 0 → 2 * b ≡ a → packed (2 * m) (2 * n) f a ≡ f b
    packed_luma b even g =
        let (_, column) = row_column r (4 * j + d) a (omega arith) e in
        let yes : ((4 * j + d) % 2 == 0) ≡ true = ground arith in
        rw (column, yes) (ap f (omega arith))

    pub packed_u : (b : ℕ) → d ≡ 1 → b ≡ 4 * (n * m) + i * m + j → packed (2 * m) (2 * n) f a ≡ f b
    packed_u b one g =
        let (row, column) = row_column r (4 * j + d) a (omega arith) e in
        let no : ((4 * j + d) % 2 == 0) ≡ false = ground arith in
        let yes : ((4 * j + d) % 4 == 1) ≡ true = ground arith in
        let half : 2 * m / 2 ≡ m = omega arith in
        rw (column, no, yes, row, pair, half) (ap f (omega arith))

    pub packed_v : (b : ℕ) → d ≡ 3 → b ≡ 5 * (n * m) + i * m + j → packed (2 * m) (2 * n) f a ≡ f b
    packed_v b three g =
        let (row, column) = row_column r (4 * j + d) a (omega arith) e in
        let no : ((4 * j + d) % 2 == 0) ≡ false = ground arith in
        let no' : ((4 * j + d) % 4 == 1) ≡ false = ground arith in
        let half : 2 * m / 2 ≡ m = omega arith in
        rw (column, no, no', row, pair, half) (ap f (omega arith))

module _ (n m : ℕ) (src dst : Bytes) (reach : 6 * (n * m) ≤ src.size)
    (room : 8 * (n * m) ≤ dst.size) where
  pack-Told :
      (i j : ℕ)
      → i < n
      → j < m
      → Told (packed (2 * m) (2 * n) src.at) (8 * (n * m)) (pack_stores src (at_block 2 n m i j))
  pack-Told i j h k =
      let fits = row_room i n m h in
      let put = moved (packed (2 * m) (2 * n) src.at) (8 * (n * m)) src in
      let even : 2 * i / 2 ≡ i = omega arith in
      let odd : (2 * i + 1) / 2 ≡ i = omega arith in
      put _ _ (omega arith) (omega arith) (
        packed_luma n m src.at (2 * i) i j 0 _ even k (omega arith) (omega arith) _ refl
          (omega arith))
      & put _ _ (omega arith) (omega arith) (
          packed_luma n m src.at (2 * i + 1) i j 0 _ odd k (omega arith) (omega arith) _ refl
            (omega arith))
      & put _ _ (omega arith) (omega arith) (
          packed_u n m src.at (2 * i) i j 1 _ even k (omega arith) (omega arith) _ refl
            (omega arith))
      & put _ _ (omega arith) (omega arith) (
          packed_u n m src.at (2 * i + 1) i j 1 _ odd k (omega arith) (omega arith) _ refl
            (omega arith))
      & put _ _ (omega arith) (omega arith) (
          packed_luma n m src.at (2 * i) i j 2 _ even k (omega arith) (omega arith) _ refl
            (omega arith))
      & put _ _ (omega arith) (omega arith) (
          packed_luma n m src.at (2 * i + 1) i j 2 _ odd k (omega arith) (omega arith) _ refl
            (omega arith))
      & put _ _ (omega arith) (omega arith) (
          packed_v n m src.at (2 * i) i j 3 _ even k (omega arith) (omega arith) _ refl
            (omega arith))
      & put _ _ (omega arith) (omega arith) (
          packed_v n m src.at (2 * i + 1) i j 3 _ odd k (omega arith) (omega arith) _ refl
            (omega arith))
      & _

  pack_more :
      (i j a : ℕ)
      → i < n
      → j < m
      → PackedDone 2 m i (suc j) a
      → Apart a (pack_stores src (at_block 2 n m i j))
      → PackedDone 2 m i j a
  pack_more i j a h k d apart = ground arith

-- A kernel between planar and packed images of even width and height, where the packed image is
-- the destination.
pub pack_kernel :
    (b n m : ℕ) (dst : Bytes)
    → 4 * b * (n * m) ≤ dst.size
    → (g : ℕ → ℕ) (stores : Pointers → List Write)
    → ((i j : ℕ) → i < n → j < m → Told g (4 * b * (n * m)) (stores (at_block b n m i j)))
    → ((i j a : ℕ)
        → i < n
        → j < m
        → PackedDone b m i (suc j) a
        → Apart a (stores (at_block b n m i j))
        → PackedDone b m i j a)
    → (now : Bytes) × ((kernel
          (2 * n / 2)
          (2 * m / 2)
          stores
          (step b)
          (turn b (2 * m))
          (start b (2 * m) (2 * n))
          dst)
        ≡ some now)
      × Filled g (4 * b * (n * m)) dst (λ a. a < 4 * b * (n * m)) now
pack_kernel b n m dst room g stores told more =
    let rows : 2 * n / 2 ≡ n = omega arith in
    let columns : 2 * m / 2 ≡ m = omega arith in
    let (now, ran, f) =
      kernel_lem g (4 * b * (n * m)) dst room stores (step b) (turn b (2 * m)) n m (at_block b n m)
        (PackedDone b m) (step_lem b n m) (turn_lem b n m) told more (λ i a h d. ground arith) dst
        (nothing-Filled (λ a d. ground arith)) in
    (
      now,
      rw (rows, columns, start_lem b n m) ran,
      weaken (PackedDone b m n 0) (λ a. a < 4 * b * (n * m)) (λ a l. inl (omega arith)) f,
    )

-- An image in i420 of even width and height becomes yuy2: each block's chroma serves both of its
-- rows. The destination's other bytes stay, and nothing faults.
pub i420_to_yuy2-Filled :
    (n m : ℕ) (src dst : Bytes)
    → 6 * (n * m) ≤ src.size
    → 8 * (n * m) ≤ dst.size
    → (now : Bytes) × (i420_to_yuy2 (2 * m) (2 * n) src dst ≡ some (pos 0, now))
      × Filled (packed (2 * m) (2 * n) src.at) (8 * (n * m)) dst (λ a. a < 8 * (n * m)) now
unfolding i420_to_yuy2
i420_to_yuy2-Filled n m src dst reach room =
    let (now, ran, f) =
      pack_kernel 2 n m dst room _ (pack_stores src) (pack-Told n m src dst reach room)
        (pack_more n m src dst reach room) in
    (now, rw ran refl, f)
