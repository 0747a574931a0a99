-- ===== src/Conv/ToRgb/Colours.antt =====
-- What `vidcap_yuy2_to_rgb32` and `vidcap_i420_to_rgb32` of src/conv_to_rgb.c put in each byte of
-- the destination.
use libvidcap.Base.{
  ℕ, suc, ◌+◌, ◌*◌, ◌/◌, ◌<◌, ◌≤◌, ◌≡◌, refl, ap, arith, Option, some, List, [], pos, Bytes,
}
use libvidcap.Conv.Pixels.{Write, Told, Apart, Filled}
use libvidcap.Conv.Words.{write_word, straight_kernel}
use libvidcap.Conv.Grid.{row_room, at_block}
use libvidcap.Conv.Pack.{packed, packed_luma, packed_u, packed_v, PackedDone, pack_kernel}
use libvidcap.Conv.YuvTables.{
  Tables, init_yuv2rgb_tables, prepared, yuv_word, yuv_word_lem, colour_word,
}
use libvidcap.Conv.ToRgb.{
  pair_words, yuy2_to_rgb32, block_words, i420_to_rgb32, pixel_word, coloured, coloured-Told,
}

module _ (g : ℕ → ℕ) (p : ℕ) where
  pixel_word_lem :
      (y u v : ℕ)
      → g (2 * p) ≡ y
      → g (4 * (p / 2) + 1) ≡ u
      → g (4 * (p / 2) + 3) ≡ v
      → colour_word y u v ≡ pixel_word g p
  unfolding pixel_word
  pixel_word_lem y u v a b c = rw (a, b, c) refl

module _ (src : Bytes) (bytes : (j : ℕ) → src.at j < 256) where
  yuv-Told :
      (g : ℕ → ℕ) (total p py pu pv a : ℕ) (l : List Write)
      → py < src.size
      → pu < src.size
      → pv < src.size
      → (g (2 * p) ≡ src.at py)
        × (g (4 * (p / 2) + 1) ≡ src.at pu)
        × (g (4 * (p / 2) + 3) ≡ src.at pv)
      → 4 * p + 4 ≤ total
      → a ≡ 4 * p
      → Told (coloured g) total l
      → Told (coloured g) total (write_word a (yuv_word init_yuv2rgb_tables src py pu pv) l)
  yuv-Told g total p py pu pv a l hy hu hv (y, u, v) room e t =
      coloured-Told g total p _ _ l (yuv_word_lem src py pu pv bytes hy hu hv)
        (pixel_word_lem g p _ _ _ y u v) room a e t

module _ (n m : ℕ) (src : Bytes) (bytes : (j : ℕ) → src.at j < 256)
    (reach : 4 * (n * m) ≤ src.size) where
  pair-Told :
      (k : ℕ)
      → k < n * m
      → Told
          (coloured src.at)
          (8 * (n * m))
          (pair_words init_yuv2rgb_tables src (record { s = 4 * k; d = 8 * k }))
  pair-Told k h =
      let word = yuv-Told src bytes src.at (8 * (n * m)) in
      let second = yuv_word init_yuv2rgb_tables src (4 * k + 2) (4 * k + 1) (4 * k + 3) in
      word (2 * k) (4 * k) (4 * k + 1) (4 * k + 3) (8 * k) (write_word (8 * k + 4) second [])
        (omega arith) (omega arith) (omega arith)
        (ap src.at (omega arith), ap src.at (omega arith), ap src.at (omega arith)) (omega arith)
        (omega arith)
        (word (2 * k + 1) (4 * k + 2) (4 * k + 1) (4 * k + 3) (8 * k + 4) [] (omega arith)
          (omega arith) (omega arith)
          (ap src.at (omega arith), ap src.at (omega arith), ap src.at (omega arith)) (omega arith)
          (omega arith) _)

-- With the tables ready, or not yet initialized, a yuy2 image of even width becomes rgb32: every
-- pixel gets the clamped colour of its luma and its pair's chroma. The tables are ready then, the
-- destination's other bytes stay, and no access, of a block or of a table, is out of bounds.
pub yuy2_to_rgb32-Filled :
    (n m : ℕ) (src dst : Bytes) (tables : Tables)
    → prepared tables ≡ init_yuv2rgb_tables
    → ((j : ℕ) → src.at j < 256)
    → 4 * (n * m) ≤ src.size
    → 8 * (n * m) ≤ dst.size
    → (now : Bytes) × (yuy2_to_rgb32 (2 * m) n src dst tables
        ≡ some (init_yuv2rgb_tables, pos 0, now))
      × Filled (coloured src.at) (8 * (n * m)) dst (λ a. a < 8 * (n * m)) now
unfolding yuy2_to_rgb32
yuy2_to_rgb32-Filled n m src dst tables ready bytes reach room =
    let columns : 2 * m / 2 ≡ m = omega arith in
    let (now, ran, f) =
      straight_kernel 4 8 n m (coloured src.at) (pair_words init_yuv2rgb_tables src) dst room
        (pair-Told n m src bytes reach) (λ k a d apart. ground arith) in
    (now, rw (ready, columns, ran) refl, f)

module _ (n m : ℕ) (src : Bytes) (bytes : (j : ℕ) → src.at j < 256)
    (reach : 6 * (n * m) ≤ src.size) where
  abbrev g : ℕ → ℕ
  g = packed (2 * m) (2 * n) src.at

  module _ (i j r d : ℕ) (h : i < n) (k : j < m) (row : r / 2 ≡ i) (side : d < 2) where
    -- The bytes of the yuy2 image that pixel `d` of row `r` of a block is coloured by.
    seen :
        (p py pu pv : ℕ)
        → p ≡ r * (2 * m) + 2 * j + d
        → py ≡ p
        → pu ≡ 4 * (n * m) + i * m + j
        → pv ≡ 5 * (n * m) + i * m + j
        → (g (2 * p) ≡ src.at py)
          × (g (4 * (p / 2) + 1) ≡ src.at pu)
          × (g (4 * (p / 2) + 3) ≡ src.at pv)
    seen p py pu pv e ey eu ev =
        let half : p / 2 ≡ r * m + j = omega arith in
        (
          packed_luma n m src.at r i j (2 * d) (2 * p) row k (omega arith) (omega arith) py
              (omega arith) (omega arith),
          packed_u n m src.at r i j 1 _ row k (omega arith) (omega arith) pu refl eu,
          packed_v n m src.at r i j 3 _ row k (omega arith) (omega arith) pv refl ev,
        )

  abbrev value : ℕ → ℕ → ℕ → Option ℕ
  value i j p =
      yuv_word init_yuv2rgb_tables src p (4 * (n * m) + i * m + j) (5 * (n * m) + i * m + j)

  -- The word of pixel `d` of row `r` of a block.
  word-Told :
      (i j r d p a : ℕ) (l : List Write)
      → i < n
      → j < m
      → r / 2 ≡ i
      → d < 2
      → p ≡ r * (2 * m) + 2 * j + d
      → p < 4 * (n * m)
      → a ≡ 4 * p
      → Told (coloured g) (16 * (n * m)) l
      → Told (coloured g) (16 * (n * m)) (write_word a (value i j p) l)
  word-Told i j r d p a l h k row side e inside place t =
      let fits = row_room i n m h in
      yuv-Told src bytes g (16 * (n * m)) p p _ _ a l (omega arith) (omega arith) (omega arith)
        (seen i j r d h k row side p p _ _ e refl refl refl) (omega arith) place t

  block-Told :
      (i j : ℕ)
      → i < n
      → j < m
      → Told (coloured g) (16 * (n * m)) (block_words init_yuv2rgb_tables src (at_block 4 n m i j))
  block-Told i j h k =
      let fits = row_room i n m h in
      let even : 2 * i / 2 ≡ i = omega arith in
      let odd : (2 * i + 1) / 2 ≡ i = omega arith in
      let e = 4 * (i * m) + 2 * j in
      let o = 4 * (i * m) + 2 * m + 2 * j in
      let l4 = write_word (4 * o + 4) (value i j (o + 1)) [] in
      let l3 = write_word (4 * o) (value i j o) l4 in
      let l2 = write_word (4 * e + 4) (value i j (e + 1)) l3 in
      word-Told i j (2 * i) 0 e (4 * e) l2 h k even (omega arith) (omega arith) (omega arith)
        (omega arith)
        (word-Told i j (2 * i) 1 (e + 1) (4 * e + 4) l3 h k even (omega arith) (omega arith)
          (omega arith) (omega arith)
          (word-Told i j (2 * i + 1) 0 o (4 * o) l4 h k odd (omega arith) (omega arith)
            (omega arith) (omega arith)
            (word-Told i j (2 * i + 1) 1 (o + 1) (4 * o + 4) [] h k odd (omega arith) (omega arith)
              (omega arith) (omega arith) _)))

  block_more :
      (i j a : ℕ)
      → i < n
      → j < m
      → PackedDone 4 m i (suc j) a
      → Apart a (block_words init_yuv2rgb_tables src (at_block 4 n m i j))
      → PackedDone 4 m i j a
  block_more i j a h k d apart = ground arith

-- With the tables ready, or not yet initialized, an i420 image of even width and height becomes the
-- rgb32 image of its yuy2 image: every pixel gets the clamped colour of its luma and its block's
-- chroma. The tables are ready then, the destination's other bytes stay, and no access, of a block
-- or of a table, is out of bounds.
pub i420_to_rgb32-Filled :
    (n m : ℕ) (src dst : Bytes) (tables : Tables)
    → prepared tables ≡ init_yuv2rgb_tables
    → ((j : ℕ) → src.at j < 256)
    → 6 * (n * m) ≤ src.size
    → 16 * (n * m) ≤ dst.size
    → (now : Bytes) × (i420_to_rgb32 (2 * m) (2 * n) src dst tables
        ≡ some (init_yuv2rgb_tables, pos 0, now))
      × Filled
          (coloured (packed (2 * m) (2 * n) src.at))
          (16 * (n * m))
          dst
          (λ a. a < 16 * (n * m))
          now
unfolding i420_to_rgb32
i420_to_rgb32-Filled n m src dst tables ready bytes reach room =
    let (now, ran, f) =
      pack_kernel 4 n m dst room (coloured (packed (2 * m) (2 * n) src.at))
        (block_words init_yuv2rgb_tables src) (block-Told n m src bytes reach)
        (block_more n m src bytes reach) in
    (now, rw (ready, ran) refl, f)
