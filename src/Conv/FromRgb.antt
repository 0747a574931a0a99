-- ===== src/Conv/FromRgb.antt =====
-- `vidcap_rgb32_to_i420` of src/conv_to_i420.c.
use libvidcap.Base.{
  ℕ, suc, ◌+◌, ◌*◌, ◌/◌, ◌%◌, ◌<◌, ◌≤◌, ◌≡◌, sym, ap, ◌∙◌, arith, Option, some, List, [], ◌∷◌, ℤ,
  pos, Bytes,
}
use libvidcap.Conv.Pixels.{Write, write, ◌&◌, Told, Apart, Filled, kernel}
use libvidcap.Conv.Planar.{Pointers, returned, start, step, turn}
use libvidcap.Conv.Grid.{
  row_room, grid-div, grid-mod, at_block, planar, planar_y, planar_u, planar_v, PlanarDone,
  planar_kernel,
}
use libvidcap.Conv.Luma.{exact_y, exact_u, exact_v, of_pixel, pixel, pixel_lem}

abbrev pub rgb_stores : Bytes → Pointers → List Write
rgb_stores src s =
    write s.y_even (pixel exact_y src s.even)
    ∷ write s.u (pixel exact_u src s.even)
    ∷ write s.v (pixel exact_v src s.even)
    ∷ write (s.y_even + 1) (pixel exact_y src (s.even + 4))
    ∷ write s.y_odd (pixel exact_y src s.odd)
    ∷ write (s.y_odd + 1) (pixel exact_y src (s.odd + 4))
    ∷ []

unfoldable pub rgb32_to_i420 : ℕ → ℕ → Bytes → Bytes → Option (ℤ × Bytes)
rgb32_to_i420 width height src dst = returned (
    kernel (height / 2) (width / 2) (rgb_stores src) (step 4) (turn 4 width) (start 4 width height)
      dst)

-- The place of the first pixel, of four bytes, of the block of chroma sample `k`.
abbrev pub block_place : ℕ → ℕ → ℕ
block_place width k = 2 * (k / (width / 2)) * (4 * width) + 8 * (k % (width / 2))

-- Byte `a` of the i420 image: the luma of every pixel, and the chroma of each block's first.
abbrev pub planar_of_rgb : ℕ → ℕ → (ℕ → ℕ) → ℕ → ℕ
planar_of_rgb width height f a =
    planar width height (λ p. of_pixel exact_y f (4 * p))
      (λ k. of_pixel exact_u f (block_place width k))
      (λ k. of_pixel exact_v f (block_place width k)) a

module _ (n m : ℕ) (f : ℕ → ℕ) where
  abbrev ys : ℕ → ℕ
  ys p = of_pixel exact_y f (4 * p)

  abbrev us : ℕ → ℕ
  us k = of_pixel exact_u f (block_place (2 * m) k)

  abbrev vs : ℕ → ℕ
  vs k = of_pixel exact_v f (block_place (2 * m) k)

  place : (i j b : ℕ) → j < m → b ≡ 16 * (i * m) + 8 * j → block_place (2 * m) (i * m + j) ≡ b
  place i j b h e =
      let half : 2 * m / 2 ≡ m = omega arith in
      rw (half, grid-div i j m h, grid-mod i j m h) (omega arith)

  luma :
      (a b : ℕ)
      → a < 4 * (n * m)
      → b ≡ 4 * a
      → planar_of_rgb (2 * m) (2 * n) f a ≡ of_pixel exact_y f b
  luma a b h e = planar_y n m ys us vs a h ∙ ap (of_pixel exact_y f) (sym e)

  u_sample :
      (i j a b : ℕ)
      → i < n
      → j < m
      → a ≡ 4 * (n * m) + i * m + j
      → b ≡ 16 * (i * m) + 8 * j
      → planar_of_rgb (2 * m) (2 * n) f a ≡ of_pixel exact_u f b
  u_sample i j a b h k e g =
      planar_u n m ys us vs i j a h k e ∙ ap (of_pixel exact_u f) (place i j b k g)

  v_sample :
      (i j a b : ℕ)
      → i < n
      → j < m
      → a ≡ 5 * (n * m) + i * m + j
      → b ≡ 16 * (i * m) + 8 * j
      → planar_of_rgb (2 * m) (2 * n) f a ≡ of_pixel exact_v f b
  v_sample i j a b h k e g =
      planar_v n m ys us vs i j a h k e ∙ ap (of_pixel exact_v f) (place i j b k g)

module _ (g : ℕ → ℕ) (total : ℕ) (src : Bytes) where
  -- A formula of the pixel at `q`, stored at `p`.
  pub computed :
      (formula : ℕ → ℕ → ℕ → ℤ) (p q : ℕ)
      → p < total
      → q + 2 < src.size
      → g p ≡ of_pixel formula src.at q
      → (pixel formula src q ≡ some (g p)) × (p < total)
  computed formula p q l h e = (pixel_lem formula src q h ∙ ap some (sym e), l)

module _ (n m : ℕ) (src : Bytes) (reach : 16 * (n * m) ≤ src.size) where
  rgb-Told :
      (i j : ℕ)
      → i < n
      → j < m
      → Told
          (planar_of_rgb (2 * m) (2 * n) src.at)
          (6 * (n * m))
          (rgb_stores src (at_block 4 n m i j))
  rgb-Told i j h k =
      let fits = row_room i n m h in
      let put = computed (planar_of_rgb (2 * m) (2 * n) src.at) (6 * (n * m)) src in
      let y = luma n m src.at in
      put exact_y _ _ (omega arith) (omega arith) (y _ _ (omega arith) (omega arith))
      & put exact_u _ _ (omega arith) (omega arith)
          (u_sample n m src.at i j _ _ h k (omega arith) (omega arith))
      & put exact_v _ _ (omega arith) (omega arith)
          (v_sample n m src.at i j _ _ h k (omega arith) (omega arith))
      & put exact_y _ _ (omega arith) (omega arith) (y _ _ (omega arith) (omega arith))
      & put exact_y _ _ (omega arith) (omega arith) (y _ _ (omega arith) (omega arith))
      & put exact_y _ _ (omega arith) (omega arith) (y _ _ (omega arith) (omega arith))
      & _

  rgb_more :
      (i j a : ℕ)
      → i < n
      → j < m
      → PlanarDone n m i (suc j) a
      → Apart a (rgb_stores src (at_block 4 n m i j))
      → PlanarDone n m i j a
  rgb_more i j a h k d apart = ground arith

-- An rgb32 image of even width and height becomes i420: the luma of every pixel in order, and the
-- chroma of the first pixel of each block of four. The destination's other bytes stay, and nothing
-- faults.
pub rgb32_to_i420-Filled :
    (n m : ℕ) (src dst : Bytes)
    → 16 * (n * m) ≤ src.size
    → 6 * (n * m) ≤ dst.size
    → (now : Bytes) × (rgb32_to_i420 (2 * m) (2 * n) src dst ≡ some (pos 0, now))
      × Filled (planar_of_rgb (2 * m) (2 * n) src.at) (6 * (n * m)) dst (λ a. a < 6 * (n * m)) now
unfolding rgb32_to_i420
rgb32_to_i420-Filled n m src dst reach room =
    planar_kernel 4 n m dst room _ (rgb_stores src) (rgb-Told n m src reach)
      (rgb_more n m src reach)
