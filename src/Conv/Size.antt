-- ===== src/Conv/Size.antt =====
-- `conv_fmt_size_get`, the size of the buffers for a frame.
use libvidcap.Base.{
  ℕ, ◌*◌, ◌/◌, ◌^◌, ◌<◌, ◌≡◌, arith, ◌||◌, eqb_ℤ, if◌then◌else◌, ℤ, pos, ◌*ℤ◌, int32, quot,
  quot_pos, int32-*ℤ,
}
use libvidcap.Format.{
  fourcc_i420, fourcc_yuy2, fourcc_rgb32, fourcc_rgb555, fourcc_2vuy, fourcc_rgb24,
  fourcc_bottom_up_rgb24,
}

-- The switch, for a number of pixels.
fmt_size_of_pixels : ℤ → ℤ → ℤ
fmt_size_of_pixels pixels fourcc =
    if eqb_ℤ fourcc fourcc_i420
    then quot (int32 (pixels *ℤ pos 3)) (pos 2)
    else if eqb_ℤ fourcc fourcc_rgb24 || eqb_ℤ fourcc fourcc_bottom_up_rgb24
    then int32 (pixels *ℤ pos 3)
    else if eqb_ℤ fourcc fourcc_rgb32
    then int32 (pixels *ℤ pos 4)
    else if eqb_ℤ fourcc fourcc_rgb555 || eqb_ℤ fourcc fourcc_yuy2 || eqb_ℤ fourcc fourcc_2vuy
    then int32 (pixels *ℤ pos 2)
    else pos 0

-- The products are of `int`s.
unfoldable pub fmt_size_get : ℤ → ℤ → ℤ → ℤ
unfolding fmt_size_of_pixels
fmt_size_get width height fourcc = fmt_size_of_pixels (int32 (width *ℤ height)) fourcc

-- The bits that each pixel of a format takes, from the definitions of the formats.
abbrev pub bits_per_pixel : ℤ → ℕ
bits_per_pixel fourcc =
    if eqb_ℤ fourcc fourcc_i420
    then 12
    else if eqb_ℤ fourcc fourcc_yuy2 || eqb_ℤ fourcc fourcc_2vuy || eqb_ℤ fourcc fourcc_rgb555
    then 16
    else if eqb_ℤ fourcc fourcc_rgb24 || eqb_ℤ fourcc fourcc_bottom_up_rgb24
    then 24
    else if eqb_ℤ fourcc fourcc_rgb32
    then 32
    else 0

-- Below 2 ^ 29 pixels nothing overflows, and the size is the one that the bits per pixel give.
-- A format that is not in the list, YVU9 among them, has size 0.
pub fmt_size_get_lem :
    (w h : ℕ) (fourcc : ℤ)
    → w * h < 2 ^ 29
    → fmt_size_get (pos w) (pos h) fourcc ≡ pos (w * h * bits_per_pixel fourcc / 8)
unfolding fmt_size_get
fmt_size_get_lem w h fourcc small = rw (int32-*ℤ w h (omega arith)) (by_pixels (w * h) small)
  where
    by_pixels :
        (n : ℕ)
        → n < 2 ^ 29
        → fmt_size_of_pixels (pos n) fourcc ≡ pos (n * bits_per_pixel fourcc / 8)
    by_pixels n b = ground (
      arith,
      int32-*ℤ n 3 (omega arith),
      int32-*ℤ n 4 (omega arith),
      int32-*ℤ n 2 (omega arith),
      quot_pos (n * 3) 2,
    )
