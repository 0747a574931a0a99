-- ===== src/Conv/Planar.antt =====
-- `vidcap_i420_to_yuy2` of src/conv_to_yuy2.c, and `vidcap_yuy2_to_i420` and `conv_2vuy_to_i420` of
-- src/conv_to_i420.c. Sizes are natural numbers whose product fits an `int`; a pointer is an
-- offset into the block that it points into.
use libvidcap.Base.{ℕ, ◌+◌, ◌*◌, ◌/◌, Option, some, List, [], ◌∷◌, ℤ, pos, Bytes, load}
use libvidcap.Conv.Destride.{◌>>=◌}
use libvidcap.Conv.Pixels.{Write, write, kernel}

-- The pointers of a loop between a planar and a packed image. `even` and `odd` are the pointers
-- into the packed one.
pub record Pointers : Type 0 where
  pub y_even : ℕ
  pub y_odd : ℕ
  pub u : ℕ
  pub v : ℕ
  pub even : ℕ
  pub odd : ℕ

-- Where the pointers begin, for a packed format of `bytes` bytes a pixel.
abbrev pub start : ℕ → ℕ → ℕ → Pointers
start bytes width height = record {
  y_even = 0;
  y_odd = width;
  u = width * height;
  v = width * height + width * height / 4;
  even = 0;
  odd = width * bytes;
}

-- What one block does to the pointers, for `bytes` packed bytes a pixel.
abbrev pub step : ℕ → Pointers → Pointers
step bytes s = record {
  y_even = s.y_even + 2;
  y_odd = s.y_odd + 2;
  u = s.u + 1;
  v = s.v + 1;
  even = s.even + 2 * bytes;
  odd = s.odd + 2 * bytes;
}

-- The statements after the inner loop.
abbrev pub turn : ℕ → ℕ → Pointers → Pointers
turn bytes width s = record {
  y_even = s.y_even + width;
  y_odd = s.y_odd + width;
  u = s.u;
  v = s.v;
  even = s.even + width * bytes;
  odd = s.odd + width * bytes;
}

-- The function's result: 0, and the destination.
abbrev pub returned : Option Bytes → Option (ℤ × Bytes)
returned o = do dst ← o; some (pos 0, dst)

abbrev pub pack_stores : Bytes → Pointers → List Write
pack_stores src s =
    write s.even (load src s.y_even)
    ∷ write s.odd (load src s.y_odd)
    ∷ write (s.even + 1) (load src s.u)
    ∷ write (s.odd + 1) (load src s.u)
    ∷ write (s.even + 2) (load src (s.y_even + 1))
    ∷ write (s.odd + 2) (load src (s.y_odd + 1))
    ∷ write (s.even + 3) (load src s.v)
    ∷ write (s.odd + 3) (load src s.v)
    ∷ []

unfoldable pub i420_to_yuy2 : ℕ → ℕ → Bytes → Bytes → Option (ℤ × Bytes)
i420_to_yuy2 width height src dst = returned (
    kernel (height / 2) (width / 2) (pack_stores src) (step 2) (turn 2 width) (start 2 width height)
      dst)

abbrev pub unpack_stores : Bytes → Pointers → List Write
unpack_stores src s =
    write s.y_even (load src s.even)
    ∷ write s.u (load src (s.even + 1))
    ∷ write (s.y_even + 1) (load src (s.even + 2))
    ∷ write s.v (load src (s.even + 3))
    ∷ write s.y_odd (load src s.odd)
    ∷ write (s.y_odd + 1) (load src (s.odd + 2))
    ∷ []

unfoldable pub yuy2_to_i420 : ℕ → ℕ → Bytes → Bytes → Option (ℤ × Bytes)
yuy2_to_i420 width height src dst = returned (
    kernel (height / 2) (width / 2) (unpack_stores src) (step 2) (turn 2 width)
      (start 2 width height) dst)

abbrev pub unpack_2vuy_stores : Bytes → Pointers → List Write
unpack_2vuy_stores src s =
    write s.u (load src s.even)
    ∷ write s.y_even (load src (s.even + 1))
    ∷ write s.v (load src (s.even + 2))
    ∷ write (s.y_even + 1) (load src (s.even + 3))
    ∷ write s.y_odd (load src (s.odd + 1))
    ∷ write (s.y_odd + 1) (load src (s.odd + 3))
    ∷ []

unfoldable pub conv_2vuy_to_i420 : ℕ → ℕ → Bytes → Bytes → Option (ℤ × Bytes)
conv_2vuy_to_i420 width height src dst = returned (
    kernel (height / 2) (width / 2) (unpack_2vuy_stores src) (step 2) (turn 2 width)
      (start 2 width height) dst)
