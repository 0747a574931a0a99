-- ===== src/Conv/BottomUp.antt =====
-- What `conv_bottom_up_rgb24_to_rgb32` of src/conv_to_rgb.c puts in each byte of the destination.
use libvidcap.Base.{
  ℕ, suc, ◌+◌, ◌-◌, ◌*◌, ◌<◌, ◌≤◌, ◌≡◌, refl, ap, ◌∙◌, arith, some, pos, ◌+ℤ◌, ◌-ℤ◌, Bytes,
}
use libvidcap.Conv.Pixels.{Told, Filled, kernel_lem, nothing-Filled, weaken}
use libvidcap.Conv.Grid.{row_room, grid-div, grid-mod}
use libvidcap.Conv.Rgb24.{
  word_at_ℤ, BottomUp, bottom_up_stores, bottom_up_step, bottom_up_turn, bottom_up_start,
  bottom_up_rgb24_to_rgb32, widened, flipped, word_at_lem, pixel-Told,
}

module _ (width height : ℕ) where
  abbrev bottom_at : ℕ → ℕ → BottomUp
  bottom_at i j = record {
    d = 4 * (i * width + j);
    src_bot = pos (3 * (height * width) + 3 * j) -ℤ pos (3 * (i * width) + 3 * width);
  }

  same_bottom : (p q : BottomUp) → p.d ≡ q.d → p.src_bot ≡ q.src_bot → p ≡ q
  same_bottom p q a b = λ k. record { d = a k; src_bot = b k }

  bottom_step : (i j : ℕ) → bottom_up_step (bottom_at i j) ≡ bottom_at i (suc j)
  unfolding ◌+ℤ◌ ◌-ℤ◌
  bottom_step i j = same_bottom _ _ (omega arith) (ground arith)

  bottom_turn : (i : ℕ) → bottom_up_turn width (bottom_at i width) ≡ bottom_at (suc i) 0
  unfolding ◌+ℤ◌ ◌-ℤ◌
  bottom_turn i = same_bottom _ _ (omega arith) (ground arith)

  bottom_start : bottom_up_start width height ≡ bottom_at 0 0
  unfolding ◌+ℤ◌ ◌-ℤ◌
  bottom_start = same_bottom _ _ (omega arith) (ground arith)

  -- The rows below row `i`, row `i` and the rows above it.
  rows_split : (i : ℕ) → i < height → (height - 1 - i) * width + i * width + width ≡ height * width
  rows_split i h =
      let all : height - 1 - i + i + 1 ≡ height = omega arith in
      omega (arith, ap (λ (t : ℕ). t * width) all)

  -- The pointer at a block is into the row as far from the bottom.
  bottom_place :
      (i j : ℕ)
      → i < height
      → (bottom_at i j).src_bot ≡ pos (3 * ((height - 1 - i) * width) + 3 * j)
  unfolding ◌+ℤ◌ ◌-ℤ◌
  bottom_place i j h = let split = rows_split i h in ground (arith, split)

  flipped_byte :
      (f : ℕ → ℕ) (i j c q : ℕ)
      → j < width
      → c < 3
      → q ≡ 3 * (i * width + j) + c
      → flipped width height f q ≡ f (3 * ((height - 1 - i) * width) + 3 * j + c)
  flipped_byte f i j c q h k e =
      let at_row : q ≡ i * (3 * width) + (3 * j + c) = omega arith in
      rw
        (
          at_row,
          grid-div i (3 * j + c) (3 * width) (omega arith),
          grid-mod i (3 * j + c) (3 * width) (omega arith),
        )
        (ap f (omega arith))

  module _ (src : Bytes) (bytes : (j : ℕ) → src.at j < 256)
      (reach : 3 * (width * height) ≤ src.size) where
    bottom-Told :
        (i j : ℕ)
        → i < height
        → j < width
        → Told
            (widened (flipped width height src.at))
            (4 * (height * width))
            (bottom_up_stores src (bottom_at i j))
    bottom-Told i j h k =
        let split = rows_split i h in
        let fits = row_room i height width h in
        let q = 3 * ((height - 1 - i) * width) + 3 * j in
        let f = flipped width height src.at in
        pixel-Told f _ (i * width + j) q src _ bytes (omega arith)
          (ap (word_at_ℤ src) (bottom_place i j h) ∙ word_at_lem src q (omega arith))
          (
            flipped_byte src.at i j 0 _ k (omega arith) (omega arith) ∙ ap src.at (omega arith),
            flipped_byte src.at i j 1 _ k (omega arith) (omega arith),
            flipped_byte src.at i j 2 _ k (omega arith) (omega arith),
          )

-- An rgb24 image stored from the bottom up becomes the rgb32 image, from the top down: the bytes of
-- each pixel of the flipped image, and 255. The destination's other bytes stay, and nothing faults:
-- the pointer that ends before the source is not read through.
pub bottom_up_rgb24_to_rgb32-Filled :
    (width height : ℕ) (src dst : Bytes)
    → ((j : ℕ) → src.at j < 256)
    → 3 * (width * height) ≤ src.size
    → 4 * (height * width) ≤ dst.size
    → (now : Bytes) × (bottom_up_rgb24_to_rgb32 width height src dst ≡ some (pos 0, now))
      × Filled
          (widened (flipped width height src.at))
          (4 * (height * width))
          dst
          (λ a. a < 4 * (height * width))
          now
unfolding bottom_up_rgb24_to_rgb32
bottom_up_rgb24_to_rgb32-Filled width height src dst bytes reach room =
    let (now, ran, f) =
      kernel_lem (widened (flipped width height src.at)) (4 * (height * width)) dst room
        (bottom_up_stores src) bottom_up_step (bottom_up_turn width) height width
        (bottom_at width height) (λ i j a. a < 4 * (i * width + j)) (bottom_step width height)
        (bottom_turn width height) (bottom-Told width height src bytes reach)
        (λ i j a h k d apart. ground arith) (λ i a h d. omega arith) dst
        (nothing-Filled (λ a d. omega arith)) in
    (
      now,
      rw (bottom_start width height, ran) refl,
      weaken (λ a. a < 4 * (height * width + 0)) (λ a. a < 4 * (height * width))
          (λ a l. omega arith) f,
    )
