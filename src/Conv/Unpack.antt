-- ===== src/Conv/Unpack.antt =====
-- What `vidcap_yuy2_to_i420` and `conv_2vuy_to_i420` of src/conv_to_i420.c put in each byte of
-- the destination.
use libvidcap.Base.{
  ℕ, suc, ◌+◌, ◌*◌, ◌/◌, ◌%◌, ◌<◌, ◌≤◌, ◌≡◌, sym, ap, ◌∙◌, arith, some, pos, Bytes,
}
use libvidcap.Conv.Pixels.{◌&◌, moved, Told, Apart, Filled}
use libvidcap.Conv.Planar.{unpack_stores, yuy2_to_i420, unpack_2vuy_stores, conv_2vuy_to_i420}
use libvidcap.Conv.Grid.{
  planar, planar_y, planar_u, planar_v, PlanarDone, planar_kernel, row_room, grid-div, grid-mod,
  at_block,
}

-- The place, in a packed image of two bytes a pixel, of the pair of pixels whose chroma is sample
-- `k` of a plane: row `2 * (k / (width / 2))`, pair `k % (width / 2)`.
abbrev pub chroma_place : ℕ → ℕ → ℕ
chroma_place width k = 2 * (k / (width / 2)) * (2 * width) + 4 * (k % (width / 2))

-- Byte `a` of the planar image, from the packed image `f` whose pairs have their luma bytes at `y`
-- and `y + 2`, and their chroma bytes at `u` and `v`. The chroma of odd rows is dropped.
abbrev pub unpacked : ℕ → ℕ → ℕ → ℕ → ℕ → (ℕ → ℕ) → ℕ → ℕ
unpacked y u v width height f a =
    planar width height (λ p. f (2 * p + y)) (λ k. f (chroma_place width k + u))
      (λ k. f (chroma_place width k + v)) a

module _ (y u v n m : ℕ) (f : ℕ → ℕ) where
  abbrev spec : ℕ → ℕ
  spec = unpacked y u v (2 * m) (2 * n) f

  abbrev luma_of : ℕ → ℕ
  luma_of p = f (2 * p + y)

  abbrev sample_of : ℕ → ℕ → ℕ
  sample_of d k = f (chroma_place (2 * m) k + d)

  pub luma : (a b : ℕ) → a < 4 * (n * m) → b ≡ 2 * a + y → spec a ≡ f b
  luma a b h e = planar_y n m luma_of (sample_of u) (sample_of v) a h ∙ ap f (sym e)

  chroma : (i j : ℕ) → j < m → chroma_place (2 * m) (i * m + j) ≡ 8 * (i * m) + 4 * j
  chroma i j h =
      let half : 2 * m / 2 ≡ m = omega arith in
      rw (half, grid-div i j m h, grid-mod i j m h) (omega arith)

  pub u_sample :
      (i j a b : ℕ)
      → i < n
      → j < m
      → a ≡ 4 * (n * m) + i * m + j
      → b ≡ 8 * (i * m) + 4 * j + u
      → spec a ≡ f b
  u_sample i j a b h k e g =
      let place : chroma_place (2 * m) (i * m + j) + u ≡ b = omega (arith, chroma i j k) in
      planar_u n m luma_of (sample_of u) (sample_of v) i j a h k e ∙ ap f place

  pub v_sample :
      (i j a b : ℕ)
      → i < n
      → j < m
      → a ≡ 5 * (n * m) + i * m + j
      → b ≡ 8 * (i * m) + 4 * j + v
      → spec a ≡ f b
  v_sample i j a b h k e g =
      let place : chroma_place (2 * m) (i * m + j) + v ≡ b = omega (arith, chroma i j k) in
      planar_v n m luma_of (sample_of u) (sample_of v) i j a h k e ∙ ap f place

module _ (n m : ℕ) (src dst : Bytes) (reach : 8 * (n * m) ≤ src.size)
    (room : 6 * (n * m) ≤ dst.size) where
  unpack-Told :
      (i j : ℕ)
      → i < n
      → j < m
      → Told
          (unpacked 0 1 3 (2 * m) (2 * n) src.at)
          (6 * (n * m))
          (unpack_stores src (at_block 2 n m i j))
  unpack-Told i j h k =
      let fits = row_room i n m h in
      let put = moved (unpacked 0 1 3 (2 * m) (2 * n) src.at) (6 * (n * m)) src in
      let y = luma 0 1 3 n m src.at in
      put _ _ (omega arith) (omega arith) (y _ _ (omega arith) (omega arith))
      & put _ _ (omega arith) (omega arith)
          (u_sample 0 1 3 n m src.at i j _ _ h k (omega arith) (omega arith))
      & put _ _ (omega arith) (omega arith) (y _ _ (omega arith) (omega arith))
      & put _ _ (omega arith) (omega arith)
          (v_sample 0 1 3 n m src.at i j _ _ h k (omega arith) (omega arith))
      & put _ _ (omega arith) (omega arith) (y _ _ (omega arith) (omega arith))
      & put _ _ (omega arith) (omega arith) (y _ _ (omega arith) (omega arith))
      & _

  unpack_more :
      (i j a : ℕ)
      → i < n
      → j < m
      → PlanarDone n m i (suc j) a
      → Apart a (unpack_stores src (at_block 2 n m i j))
      → PlanarDone n m i j a
  unpack_more i j a h k d apart = ground arith

  unpack_2vuy-Told :
      (i j : ℕ)
      → i < n
      → j < m
      → Told
          (unpacked 1 0 2 (2 * m) (2 * n) src.at)
          (6 * (n * m))
          (unpack_2vuy_stores src (at_block 2 n m i j))
  unpack_2vuy-Told i j h k =
      let fits = row_room i n m h in
      let put = moved (unpacked 1 0 2 (2 * m) (2 * n) src.at) (6 * (n * m)) src in
      let y = luma 1 0 2 n m src.at in
      put _ _ (omega arith) (omega arith)
        (u_sample 1 0 2 n m src.at i j _ _ h k (omega arith) (omega arith))
      & put _ _ (omega arith) (omega arith) (y _ _ (omega arith) (omega arith))
      & put _ _ (omega arith) (omega arith)
          (v_sample 1 0 2 n m src.at i j _ _ h k (omega arith) (omega arith))
      & put _ _ (omega arith) (omega arith) (y _ _ (omega arith) (omega arith))
      & put _ _ (omega arith) (omega arith) (y _ _ (omega arith) (omega arith))
      & put _ _ (omega arith) (omega arith) (y _ _ (omega arith) (omega arith))
      & _

  unpack_2vuy_more :
      (i j a : ℕ)
      → i < n
      → j < m
      → PlanarDone n m i (suc j) a
      → Apart a (unpack_2vuy_stores src (at_block 2 n m i j))
      → PlanarDone n m i j a
  unpack_2vuy_more i j a h k d apart = ground arith

-- An image in yuy2 of even width and height becomes i420: the luma bytes in order, and the chroma
-- bytes of its even rows. The destination's other bytes stay, and nothing faults.
pub yuy2_to_i420-Filled :
    (n m : ℕ) (src dst : Bytes)
    → 8 * (n * m) ≤ src.size
    → 6 * (n * m) ≤ dst.size
    → (now : Bytes) × (yuy2_to_i420 (2 * m) (2 * n) src dst ≡ some (pos 0, now))
      × Filled (unpacked 0 1 3 (2 * m) (2 * n) src.at) (6 * (n * m)) dst (λ a. a < 6 * (n * m)) now
unfolding yuy2_to_i420
yuy2_to_i420-Filled n m src dst reach room =
    planar_kernel 2 n m dst room _ (unpack_stores src) (unpack-Told n m src dst reach room)
      (unpack_more n m src dst reach room)

-- The same for 2vuy.
pub conv_2vuy_to_i420-Filled :
    (n m : ℕ) (src dst : Bytes)
    → 8 * (n * m) ≤ src.size
    → 6 * (n * m) ≤ dst.size
    → (now : Bytes) × (conv_2vuy_to_i420 (2 * m) (2 * n) src dst ≡ some (pos 0, now))
      × Filled (unpacked 1 0 2 (2 * m) (2 * n) src.at) (6 * (n * m)) dst (λ a. a < 6 * (n * m)) now
unfolding conv_2vuy_to_i420
conv_2vuy_to_i420-Filled n m src dst reach room =
    planar_kernel 2 n m dst room _ (unpack_2vuy_stores src)
      (unpack_2vuy-Told n m src dst reach room) (unpack_2vuy_more n m src dst reach room)
