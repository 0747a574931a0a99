-- ===== src/Conv/ToRgb.antt =====
-- `vidcap_yuy2_to_rgb32` and `vidcap_i420_to_rgb32` of src/conv_to_rgb.c.
pub mod Colours
pub mod TwoWays
use libvidcap.Base.{
  ℕ, suc, ◌+◌, ◌-◌, ◌*◌, ◌/◌, ◌%◌, ◌<◌, ◌≤◌, ◌≡◌, refl, sym, ap, ◌∙◌, arith, inl, inr, Option, none,
  some, List, [], ◌∷◌, ℤ, pos, Bytes,
}
use libvidcap.Conv.Destride.{◌>>=◌}
use libvidcap.Conv.Pixels.{Write, ◌&◌, Told, Apart, Filled, kernel}
use libvidcap.Conv.Planar.{Pointers, start, step, turn, returned}
use libvidcap.Conv.Yuy2.{byte_of}
use libvidcap.Conv.Words.{write_word, bytes-Told, Straight, straight_step, origin, straight_kernel}
use libvidcap.Conv.Grid.{row_room, at_block}
use libvidcap.Conv.Pack.{packed, packed_luma, packed_u, packed_v, PackedDone, pack_kernel}
use libvidcap.Conv.YuvTables.{
  Tables, init_yuv2rgb_tables, prepared, yuv_word, yuv_word_lem, colour_word,
}

-- The result of a function that uses the tables: they are ready afterwards.
abbrev pub with_tables : Tables → Option Bytes → Option (Tables × ℤ × Bytes)
with_tables t o = do dst ← o; some (t, pos 0, dst)

abbrev pub pair_words : Tables → Bytes → Straight → List Write
pair_words t src p =
    write_word p.d (yuv_word t src p.s (p.s + 1) (p.s + 3))
      (write_word (p.d + 4) (yuv_word t src (p.s + 2) (p.s + 1) (p.s + 3)) [])

unfoldable pub yuy2_to_rgb32 : ℕ → ℕ → Bytes → Bytes → Tables → Option (Tables × ℤ × Bytes)
yuy2_to_rgb32 width height src dst tables =
    let t = prepared tables in
    with_tables t
      (kernel height (width / 2) (pair_words t src) (straight_step 4 8) (λ p. p) origin dst)

abbrev pub block_words : Tables → Bytes → Pointers → List Write
block_words t src s = write_word s.even (yuv_word t src s.y_even s.u s.v) (
    write_word (s.even + 4) (yuv_word t src (s.y_even + 1) s.u s.v) (
      write_word s.odd (yuv_word t src s.y_odd s.u s.v)
        (write_word (s.odd + 4) (yuv_word t src (s.y_odd + 1) s.u s.v) [])))

unfoldable pub i420_to_rgb32 : ℕ → ℕ → Bytes → Bytes → Tables → Option (Tables × ℤ × Bytes)
i420_to_rgb32 width height src dst tables =
    let t = prepared tables in
    with_tables t (
      kernel (height / 2) (width / 2) (block_words t src) (step 4) (turn 4 width)
        (start 4 width height) dst)

-- The colour of pixel `p` of a yuy2 image, whose pairs share their chroma.
unfoldable pub pixel_word : (ℕ → ℕ) → ℕ → ℕ
pixel_word f p = colour_word (f (2 * p)) (f (4 * (p / 2) + 1)) (f (4 * (p / 2) + 3))

-- Byte `a` of the rgb32 image of a yuy2 image.
abbrev pub coloured : (ℕ → ℕ) → ℕ → ℕ
coloured f a = byte_of (pixel_word f (a / 4)) (a % 4)

module _ (f : ℕ → ℕ) (total p w : ℕ) (o : Option ℕ) (l : List Write) where
  -- The word of pixel `p`, at its place.
  pub coloured-Told :
      o ≡ some w
      → w ≡ pixel_word f p
      → 4 * p + 4 ≤ total
      → (a : ℕ) → a ≡ 4 * p
      → Told (coloured f) total l
      → Told (coloured f) total (write_word a o l)
  coloured-Told e same h a place t =
      bytes-Told (coloured f) total a w o l e (omega arith)
        (at_byte 0 a (omega arith) (omega arith)) (at_byte 1 (a + 1) (omega arith) (omega arith))
        (at_byte 2 (a + 2) (omega arith) (omega arith))
        (at_byte 3 (a + 3) (omega arith) (omega arith)) t
    where
      at_byte : (k b : ℕ) → b ≡ 4 * p + k → k < 4 → coloured f b ≡ byte_of w k
      at_byte k b g h' =
          let quotient : b / 4 ≡ p = omega arith in
          let remainder : b % 4 ≡ k = omega arith in rw (quotient, remainder, ← same) refl
