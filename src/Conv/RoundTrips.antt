-- ===== src/Conv/RoundTrips.antt =====
-- Conversions one after the other: i420 to yuy2 and back (src/conv_to_yuy2.c, src/conv_to_i420.c),
-- and the two ways from 2vuy to i420.
use native.Mathlib.Nat.{div-add-mod}
use native.Mathlib.Decide.{dec_lt}
use libvidcap.Base.{
  ℕ, ◌+◌, ◌-◌, ◌*◌, ◌/◌, ◌%◌, ◌<◌, ◌≤◌, ◌≡◌, refl, sym, ap, ◌∙◌, arith, inl, inr, some, ltb,
  Bool-cases, pos, Bytes,
}
use libvidcap.Conv.Planar.{i420_to_yuy2, yuy2_to_i420, conv_2vuy_to_i420}
use libvidcap.Conv.Grid.{row_room, sample_cases}
use libvidcap.Conv.Unpack.{
  unpacked, luma, u_sample, v_sample, yuy2_to_i420-Filled, conv_2vuy_to_i420-Filled,
}
use libvidcap.Conv.Pack.{packed, packed_u, packed_v, i420_to_yuy2-Filled}
use libvidcap.Conv.Yuy2.{partner, conv_2vuy_to_yuy2, conv_2vuy_to_yuy2-Swapped}

-- The planes of an i420 image.
data PlanarCase (n m a : ℕ) : Type 0 where
  in_y : a < 4 * (n * m) → PlanarCase n m a
  in_u : (i j : ℕ) → i < n → j < m → a ≡ 4 * (n * m) + i * m + j → PlanarCase n m a
  in_v : (i j : ℕ) → i < n → j < m → a ≡ 5 * (n * m) + i * m + j → PlanarCase n m a

planar_cases : (n m a : ℕ) → a < 6 * (n * m) → PlanarCase n m a
planar_cases n m a h = elim (Bool-cases (ltb a (4 * (n * m)))) [
  | inl less ↦ in_y (ground arith)
  | inr past ↦ elim (Bool-cases (ltb a (5 * (n * m)))) [
    | inl less ↦
        let (i, j, h, k, e) = sample_cases n m (a - 4 * (n * m)) (ground arith) in
        in_u i j h k (ground arith)
    | inr past' ↦
        let (i, j, h, k, e) = sample_cases n m (a - 5 * (n * m)) (ground arith) in
        in_v i j h k (ground arith)
  ]
]

module _ (n m : ℕ) (f p : ℕ → ℕ)
    (same : (b : ℕ) → b < 8 * (n * m) → p b ≡ packed (2 * m) (2 * n) f b) where
  packed_even : (a : ℕ) → packed (2 * m) (2 * n) f (2 * a) ≡ f a
  packed_even a =
      let whole = div-add-mod (2 * a) (2 * (2 * m)) in
      let even : 2 * a % (2 * (2 * m)) % 2 ≡ 0 = omega (arith, whole) in
      let twice : 2 * a / 2 ≡ a = omega arith in rw (even, twice) refl

  unpacked-packed : (a : ℕ) → a < 6 * (n * m) → unpacked 0 1 3 (2 * m) (2 * n) p a ≡ f a
  unpacked-packed a l = elim (planar_cases n m a l) [
    | in_y h ↦
        luma 0 1 3 n m p a (2 * a) h (omega arith) ∙ same (2 * a) (omega arith) ∙ packed_even a
    | in_u i j h k e ↦
        let fits = row_room i n m h in
        let b = 8 * (i * m) + 4 * j + 1 in
        let even : 2 * i / 2 ≡ i = omega arith in
        u_sample 0 1 3 n m p i j a b h k e (omega arith)
        ∙ same b (omega arith)
        ∙ packed_u n m f (2 * i) i j 1 b even k (omega arith) (omega arith) a refl e
    | in_v i j h k e ↦
        let fits = row_room i n m h in
        let b = 8 * (i * m) + 4 * j + 3 in
        let even : 2 * i / 2 ≡ i = omega arith in
        v_sample 0 1 3 n m p i j a b h k e (omega arith)
        ∙ same b (omega arith)
        ∙ packed_v n m f (2 * i) i j 3 b even k (omega arith) (omega arith) a refl e
  ]

-- An i420 image of even width and height, converted to yuy2 and back, is the same image, byte for
-- byte, and neither conversion faults, for blocks that hold the images.
pub yuy2_to_i420-i420_to_yuy2 :
    (n m : ℕ) (src mid dst : Bytes)
    → 6 * (n * m) ≤ src.size
    → 8 * (n * m) ≤ mid.size
    → 6 * (n * m) ≤ dst.size
    → (there back : Bytes) × (i420_to_yuy2 (2 * m) (2 * n) src mid ≡ some (pos 0, there))
      × (yuy2_to_i420 (2 * m) (2 * n) there dst ≡ some (pos 0, back))
      × ((a : ℕ) → a < 6 * (n * m) → back.at a ≡ src.at a)
yuy2_to_i420-i420_to_yuy2 n m src mid dst s t d =
    let (there, ran, f) = i420_to_yuy2-Filled n m src mid s t in
    let (back, ran', g) = yuy2_to_i420-Filled n m there dst (omega (arith, f.same_size)) d in
    (there, back, ran, ran', λ a l. g.inside a l ∙ unpacked-packed n m src.at there.at f.inside a l)

module _ (n m : ℕ) (f g : ℕ → ℕ) (swapped : (b : ℕ) → b < 8 * (n * m) → g b ≡ f (partner b)) where
  at_partner : (b c : ℕ) → b < 8 * (n * m) → partner b ≡ c → g b ≡ f c
  at_partner b c h e = swapped b h ∙ ap f e

  unpacked-swapped :
      (a : ℕ)
      → a < 6 * (n * m)
      → unpacked 1 0 2 (2 * m) (2 * n) f a ≡ unpacked 0 1 3 (2 * m) (2 * n) g a
  unpacked-swapped a l = elim (planar_cases n m a l) [
    | in_y h ↦
        luma 1 0 2 n m f a (2 * a + 1) h refl
        ∙ sym (
            luma 0 1 3 n m g a (2 * a) h (omega arith)
            ∙ at_partner (2 * a) (2 * a + 1) (omega arith) (ground arith))
    | in_u i j h k e ↦
        let fits = row_room i n m h in
        let b = 8 * (i * m) + 4 * j in
        u_sample 1 0 2 n m f i j a b h k e (omega arith)
        ∙ sym (
            u_sample 0 1 3 n m g i j a (b + 1) h k e refl
            ∙ at_partner (b + 1) b (omega arith) (ground arith))
    | in_v i j h k e ↦
        let fits = row_room i n m h in
        let b = 8 * (i * m) + 4 * j in
        v_sample 1 0 2 n m f i j a (b + 2) h k e refl
        ∙ sym (
            v_sample 0 1 3 n m g i j a (b + 3) h k e refl
            ∙ at_partner (b + 3) (b + 2) (omega arith) (ground arith))
  ]

-- For an image in 2vuy of even width and height, the direct conversion to i420 gives what the
-- conversion to yuy2 followed by the one from yuy2 to i420 gives, and none of the three faults, for
-- blocks that hold the images.
pub conv_2vuy_to_i420-yuy2_to_i420 :
    (n m : ℕ) (src mid dst : Bytes)
    → ((j : ℕ) → src.at j < 256)
    → 8 * (n * m) ≤ src.size
    → 8 * (n * m) ≤ mid.size
    → 6 * (n * m) ≤ dst.size
    → (direct swapped later : Bytes) × (conv_2vuy_to_i420 (2 * m) (2 * n) src dst
        ≡ some (pos 0, direct))
      × (conv_2vuy_to_yuy2 (2 * m) (2 * n) src mid ≡ some (pos 0, swapped))
      × (yuy2_to_i420 (2 * m) (2 * n) swapped dst ≡ some (pos 0, later))
      × ((a : ℕ) → direct.at a ≡ later.at a)
conv_2vuy_to_i420-yuy2_to_i420 n m src mid dst bytes s t d =
    let words : 4 * (2 * m * (2 * n) / 2) ≡ 8 * (n * m) = omega arith in
    let (direct, ran, f) = conv_2vuy_to_i420-Filled n m src dst s d in
    let (swapped, ran', sw) =
      conv_2vuy_to_yuy2-Swapped (2 * m) (2 * n) src mid bytes (omega arith) (omega arith) in
    let (later, ran'', g) = yuy2_to_i420-Filled n m swapped dst (omega (arith, sw.same_size)) d in
    let pair : (b : ℕ) → b < 8 * (n * m) → swapped.at b ≡ src.at (partner b) =
      λ b h. sw.inside b (omega arith) in
    (
      direct,
      swapped,
      later,
      ran,
      ran',
      ran'',
      λ a. elim (dec_lt a (6 * (n * m))) [
        | yes l ↦
            f.inside a l ∙ unpacked-swapped n m src.at swapped.at pair a l ∙ sym (g.inside a l)
        | no past ↦ f.outside a (omega arith) ∙ sym (g.outside a (omega arith))
      ],
    )
