-- ===== src/Conv/ToRgb/TwoWays.antt =====
-- The two ways from i420 to rgb32: `vidcap_i420_to_rgb32` (src/conv_to_rgb.c), and
-- `vidcap_i420_to_yuy2` (src/conv_to_yuy2.c) followed by `vidcap_yuy2_to_rgb32`.
use native.Mathlib.Decide.{dec_lt}
use libvidcap.Base.{
  ℕ, ◌+◌, ◌*◌, ◌/◌, ◌%◌, ◌<◌, ◌≤◌, ◌≡◌, refl, sym, ◌∙◌, arith, some, pos, Bytes, Bool-cases, inl,
  inr, ◌==◌,
}
use libvidcap.Conv.Planar.{i420_to_yuy2}
use libvidcap.Conv.Pack.{packed, i420_to_yuy2-Filled}
use libvidcap.Conv.YuvTables.{Tables, prepared, init_yuv2rgb_tables}
use libvidcap.Conv.ToRgb.{yuy2_to_rgb32, i420_to_rgb32, pixel_word, coloured}
use libvidcap.Conv.ToRgb.Colours.{yuy2_to_rgb32-Filled, i420_to_rgb32-Filled}

packed-byte : (w h : ℕ) (f : ℕ → ℕ) → ((j : ℕ) → f j < 256) → (a : ℕ) → packed w h f a < 256
packed-byte w h f bytes a =
    let column = a % (2 * w) in
    elim (Bool-cases (column % 2 == 0)) [
      | inl e ↦ rw e (bytes _)
      | inr e ↦ elim (Bool-cases (column % 4 == 1)) [
        | inl e' ↦ rw (e, e') (bytes _)
        | inr e' ↦ rw (e, e') (bytes _)
      ]
    ]

coloured-eq :
    (f g : ℕ → ℕ) (k : ℕ)
    → ((b : ℕ) → b < 8 * k → f b ≡ g b)
    → (a : ℕ) → a < 16 * k
    → coloured f a ≡ coloured g a
unfolding pixel_word
coloured-eq f g k same a l =
    let p = a / 4 in
    rw
      (
        same (2 * p) (omega arith),
        same (4 * (p / 2) + 1) (omega arith),
        same (4 * (p / 2) + 3) (omega arith),
      )
      refl

-- For an i420 image of even width and height, the direct conversion to rgb32 gives what the
-- conversion to yuy2 followed by the one from yuy2 to rgb32 gives, whether the tables are ready or not
-- yet initialized, and none of the three faults, for blocks that hold the images.
pub i420_to_rgb32-yuy2_to_rgb32 :
    (n m : ℕ) (src mid dst : Bytes) (tables : Tables)
    → prepared tables ≡ init_yuv2rgb_tables
    → ((j : ℕ) → src.at j < 256)
    → ((j : ℕ) → mid.at j < 256)
    → 6 * (n * m) ≤ src.size
    → 8 * (n * m) ≤ mid.size
    → 16 * (n * m) ≤ dst.size
    → (direct yuy2 later : Bytes) × (i420_to_rgb32 (2 * m) (2 * n) src dst tables
        ≡ some (init_yuv2rgb_tables, pos 0, direct))
      × (i420_to_yuy2 (2 * m) (2 * n) src mid ≡ some (pos 0, yuy2))
      × (yuy2_to_rgb32 (2 * m) (2 * n) yuy2 dst tables ≡ some (init_yuv2rgb_tables, pos 0, later))
      × ((a : ℕ) → direct.at a ≡ later.at a)
i420_to_rgb32-yuy2_to_rgb32 n m src mid dst tables ready bytes mid_bytes s t d =
    let (direct, ran, f) = i420_to_rgb32-Filled n m src dst tables ready bytes s d in
    let (yuy2, ran', p) = i420_to_yuy2-Filled n m src mid s t in
    let yuy2_bytes : (j : ℕ) → yuy2.at j < 256 = λ j. elim (dec_lt j (8 * (n * m))) [
      | yes l ↦ rw (p.inside j l) (packed-byte (2 * m) (2 * n) src.at bytes j)
      | no far ↦ rw (p.outside j (omega arith)) (mid_bytes j)
    ] in
    let (later, ran'', g) =
      yuy2_to_rgb32-Filled (2 * n) m yuy2 dst tables ready yuy2_bytes (omega (arith, p.same_size))
        (omega arith) in
    (
      direct,
      yuy2,
      later,
      ran,
      ran',
      ran'',
      λ a. elim (dec_lt a (16 * (n * m))) [
        | yes l ↦
            f.inside a l
            ∙ sym (
                g.inside a (omega arith)
                ∙ coloured-eq yuy2.at (packed (2 * m) (2 * n) src.at) (n * m) p.inside a l)
        | no far ↦ f.outside a (omega arith) ∙ sym (g.outside a (omega arith))
      ],
    )
