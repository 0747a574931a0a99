-- ===== src/Conv/Rgb24.antt =====
-- `conv_rgb24_to_rgb32` and `conv_bottom_up_rgb24_to_rgb32` of src/conv_to_rgb.c.
use mathlib.Core.Path.{subst}
use libvidcap.Base.{
  ℕ, ◌+◌, ◌-◌, ◌*◌, ◌/◌, ◌%◌, ◌<◌, ◌≤◌, ◌≡◌, refl, ap, ◌∙◌, arith, Option, none, some, List, [],
  ◌==◌, if◌then◌else◌, false, true, ℤ, pos, negsuc, ◌+ℤ◌, ◌-ℤ◌, Bytes, load,
}
use libvidcap.Conv.Destride.{◌>>=◌}
use libvidcap.Conv.Pixels.{Write, load_lem, Told, Filled, kernel}
use libvidcap.Conv.Planar.{returned}
use libvidcap.Conv.Words.{
  write_word, rgb_word, word-Told, Straight, straight_step, origin, straight_kernel,
}

-- `*d = 0xff000000; *d |= *s++; *d |= (*s++) << 8; *d++ |= (*s++) << 16`: the word that is left.
unfoldable pub word_at : Bytes → ℕ → Option ℕ
word_at src s = do b ← load src s; g ← load src (s + 1); r ← load src (s + 2); some (rgb_word b g r)

abbrev rgb24_stores : Bytes → Straight → List Write
rgb24_stores src p = write_word p.d (word_at src p.s) []

unfoldable pub rgb24_to_rgb32 : ℕ → ℕ → Bytes → Bytes → Option (ℤ × Bytes)
rgb24_to_rgb32 width height src dst =
    returned (kernel 1 (width * height) (rgb24_stores src) (straight_step 3 4) (λ p. p) origin dst)

-- A read at a pointer that can stand before the block.
abbrev pub word_at_ℤ : Bytes → ℤ → Option ℕ
word_at_ℤ src (pos q) = word_at src q
word_at_ℤ src (negsuc q) = none

pub record BottomUp : Type 0 where
  pub d : ℕ
  pub src_bot : ℤ

abbrev pub bottom_up_stores : Bytes → BottomUp → List Write
bottom_up_stores src p = write_word p.d (word_at_ℤ src p.src_bot) []

abbrev pub bottom_up_step : BottomUp → BottomUp
bottom_up_step p = record { d = p.d + 4; src_bot = p.src_bot +ℤ pos 3 }

abbrev pub bottom_up_turn : ℕ → BottomUp → BottomUp
bottom_up_turn width p = record { d = p.d; src_bot = p.src_bot -ℤ pos (width * 6) }

-- `src + width * (height - 1) * 3`: `height * width * 3 - width * 3`.
abbrev pub bottom_up_start : ℕ → ℕ → BottomUp
bottom_up_start width height = record {
  d = 0;
  src_bot = pos (3 * (height * width)) -ℤ pos (3 * width);
}

unfoldable pub bottom_up_rgb24_to_rgb32 : ℕ → ℕ → Bytes → Bytes → Option (ℤ × Bytes)
bottom_up_rgb24_to_rgb32 width height src dst = returned (
    kernel height width (bottom_up_stores src) bottom_up_step (bottom_up_turn width)
      (bottom_up_start width height) dst)

-- Byte `a` of the rgb32 image: the bytes of the pixel, and 255.
abbrev pub widened : (ℕ → ℕ) → ℕ → ℕ
widened f a = if a % 4 == 3 then 255 else f (3 * (a / 4) + a % 4)

-- The rows of an image of three bytes a pixel, the last first.
abbrev pub flipped : ℕ → ℕ → (ℕ → ℕ) → ℕ → ℕ
flipped width height f q =
    let row = q / (3 * width) in f ((height - 1 - row) * (3 * width) + q % (3 * width))

pub word_at_lem :
    (src : Bytes) (q : ℕ)
    → q + 2 < src.size
    → word_at src q ≡ some (rgb_word (src.at q) (src.at (q + 1)) (src.at (q + 2)))
unfolding word_at
word_at_lem src q h =
    rw (load_lem src q (omega arith), load_lem src (q + 1) (omega arith), load_lem src (q + 2) h)
      refl

module _ (f : ℕ → ℕ) where
  colour : (k c a : ℕ) → c < 3 → a ≡ 4 * k + c → widened f a ≡ f (3 * k + c)
  colour k c a h e = let no : (a % 4 == 3) ≡ false = ground arith in rw no (ap f (omega arith))

  padding : (k a : ℕ) → a ≡ 4 * k + 3 → widened f a ≡ 255
  padding k a e = let yes : (a % 4 == 3) ≡ true = ground arith in rw yes refl

-- The word of pixel `k` of `f`, written at `4 * k`.
pub pixel-Told :
    (f : ℕ → ℕ) (total k q : ℕ) (src : Bytes) (o : Option ℕ)
    → ((j : ℕ) → src.at j < 256)
    → 4 * k + 4 ≤ total
    → o ≡ some (rgb_word (src.at q) (src.at (q + 1)) (src.at (q + 2)))
    → (f (3 * k) ≡ src.at q) × (f (3 * k + 1) ≡ src.at (q + 1)) × (f (3 * k + 2) ≡ src.at (q + 2))
    → Told (widened f) total (write_word (4 * k) o [])
pixel-Told f total k q src o bytes h e (e0, e1, e2) =
    word-Told (widened f) total (4 * k) (src.at q) (src.at (q + 1)) (src.at (q + 2)) o [] e
      (bytes q, bytes (q + 1), bytes (q + 2)) h
      (colour f k 0 (4 * k) (omega arith) (omega arith) ∙ ap f (omega arith) ∙ e0)
      (colour f k 1 (4 * k + 1) (omega arith) refl ∙ e1)
      (colour f k 2 (4 * k + 2) (omega arith) refl ∙ e2) (padding f k (4 * k + 3) refl) _

-- An rgb24 image becomes rgb32: the three bytes of each pixel, and 255. The destination's other
-- bytes stay, and nothing faults.
pub rgb24_to_rgb32-Filled :
    (width height : ℕ) (src dst : Bytes)
    → ((j : ℕ) → src.at j < 256)
    → 3 * (width * height) ≤ src.size
    → 4 * (width * height) ≤ dst.size
    → (now : Bytes) × (rgb24_to_rgb32 width height src dst ≡ some (pos 0, now))
      × Filled (widened src.at) (4 * (width * height)) dst (λ a. a < 4 * (width * height)) now
unfolding rgb24_to_rgb32
rgb24_to_rgb32-Filled width height src dst bytes reach room =
    let one : 1 * (width * height) ≡ width * height = omega arith in
    let (now, ran, f) =
      straight_kernel 3 4 1 (width * height) (widened src.at) (rgb24_stores src) dst (omega arith)
        (λ k h.
          pixel-Told src.at _ k (3 * k) src _ bytes (omega arith)
            (word_at_lem src (3 * k) (omega arith)) (refl, refl, refl))
        (λ k a d apart. ground arith) in
    (now, rw ran refl, subst (λ k. Filled (widened src.at) (4 * k) dst (λ a. a < 4 * k) now) one f)
