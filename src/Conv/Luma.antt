-- ===== src/Conv/Luma.antt =====
-- The formulas of `vidcap_rgb32_to_i420` (src/conv_to_i420.c) and `vidcap_rgb32_to_yuy2`
-- (src/conv_to_yuy2.c): luma and chroma of a pixel, in integers.
use libvidcap.Base.{
  ℕ, ◌+◌, ◌-◌, ◌*◌, ◌/◌, ◌%◌, ◌<◌, ◌≤◌, ◌≡◌, refl, arith, Option, some, ℤ, pos, negsuc, ◌+ℤ◌, ◌-ℤ◌,
  Bytes, load, ◌≤ℤ◌,
}
use libvidcap.Conv.Pixels.{load_lem}
use libvidcap.Conv.Destride.{◌>>=◌}

-- `x >> 8` of an `int`: towards minus infinity, as compilers shift.
abbrev pub shift8 : ℤ → ℤ
shift8 (pos n) = pos (n / 256)
shift8 (negsuc n) = negsuc (n / 256)

-- What an `unsigned char` keeps of an `int`.
abbrev pub byte : ℤ → ℕ
byte (pos n) = n % 256
byte (negsuc n) = 255 - n % 256

-- `((r * 66 + g * 129 + b * 25 + 128) >> 8) + 16`, and the two chroma formulas, whose terms with a
-- minus are taken off last. Each is stored in a byte.
unfoldable pub exact_y : ℕ → ℕ → ℕ → ℤ
exact_y r g b = shift8 (pos (r * 66 + g * 129 + b * 25 + 128)) +ℤ pos 16

unfoldable pub exact_u : ℕ → ℕ → ℕ → ℤ
exact_u r g b = shift8 (pos (b * 112 + 128) -ℤ pos (r * 38 + g * 74)) +ℤ pos 128

unfoldable pub exact_v : ℕ → ℕ → ℕ → ℤ
exact_v r g b = shift8 (pos (r * 112 + 128) -ℤ pos (g * 94 + b * 18)) +ℤ pos 128

-- A formula at the pixel whose bytes begin at `q`: blue, green and red.
abbrev pub of_pixel : (ℕ → ℕ → ℕ → ℤ) → (ℕ → ℕ) → ℕ → ℕ
of_pixel formula f q = byte (formula (f (q + 2)) (f (q + 1)) (f q))

-- The reads of a pixel, and the value to store.
unfoldable pub pixel : (ℕ → ℕ → ℕ → ℤ) → Bytes → ℕ → Option ℕ
pixel formula src q = do
  b ← load src q
  g ← load src (q + 1)
  r ← load src (q + 2)
  some (byte (formula r g b))

-- The byte stored for `a` is between `low` and `high`, and is `a`, without loss.
pub record Kept (a : ℤ) (low high : ℕ) : Type 0 where
  pub at_least : low ≤ byte a
  pub at_most : byte a ≤ high
  pub exact : pos (byte a) ≡ a

kept : (a : ℤ) (low high : ℕ) → pos low ≤ℤ a → a ≤ℤ pos high → high < 256 → Kept a low high
kept a low high h k l = record {
  at_least = ground arith;
  at_most = ground arith;
  exact = ground arith;
}

luma_range :
    (r g b : ℕ)
    → r < 256
    → g < 256
    → b < 256
    → (pos 16 ≤ℤ exact_y r g b) × (exact_y r g b ≤ℤ pos 235)
unfolding exact_y ◌+ℤ◌
luma_range r g b h k l = ground arith

u_range :
    (r g b : ℕ)
    → r < 256
    → g < 256
    → b < 256
    → (pos 16 ≤ℤ exact_u r g b) × (exact_u r g b ≤ℤ pos 240)
unfolding exact_u ◌+ℤ◌ ◌-ℤ◌
u_range r g b h k l = ground arith

v_range :
    (r g b : ℕ)
    → r < 256
    → g < 256
    → b < 256
    → (pos 16 ≤ℤ exact_v r g b) × (exact_v r g b ≤ℤ pos 240)
unfolding exact_v ◌+ℤ◌ ◌-ℤ◌
v_range r g b h k l = ground arith

-- For the bytes of any pixel, the luma that is stored is within 16 to 235 and each chroma within 16
-- to 240, the ranges of video levels, and the stored bytes are the formulas' integers, without loss.
pub formulas-Kept :
    (r g b : ℕ)
    → r < 256
    → g < 256
    → b < 256
    → Kept (exact_y r g b) 16 235 × Kept (exact_u r g b) 16 240 × Kept (exact_v r g b) 16 240
formulas-Kept r g b h k l =
    let (y, y') = luma_range r g b h k l in
    let (u, u') = u_range r g b h k l in
    let (v, v') = v_range r g b h k l in
    (
      kept _ 16 235 y y' (omega arith),
      kept _ 16 240 u u' (omega arith),
      kept _ 16 240 v v' (omega arith),
    )

-- The reads of a pixel that lies inside the block.
pub pixel_lem :
    (formula : ℕ → ℕ → ℕ → ℤ) (src : Bytes) (q : ℕ)
    → q + 2 < src.size
    → pixel formula src q ≡ some (of_pixel formula src.at q)
unfolding pixel
pixel_lem formula src q h =
    rw (load_lem src q (omega arith), load_lem src (q + 1) (omega arith), load_lem src (q + 2) h)
      refl
