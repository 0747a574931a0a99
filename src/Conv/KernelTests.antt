-- ===== src/Conv/KernelTests.antt =====
-- Runs of the pixel conversions on small images, and their theorems at concrete inputs.
use libvidcap.Base.{
  ℕ, ◌%◌, ◌<◌, ◌≤◌, ◌≡◌, refl, arith, false, some, pos, pos_part, ◌+ℤ◌, Bytes, load, store, repeat,
  scan,
}
use libvidcap.Conv.Destride.{◌>>=◌}
use libvidcap.Conv.Table.{ConvFunc, reads, writes}
use libvidcap.Conv.Size.{fmt_size_get, fmt_size_get_lem}
use libvidcap.Conv.Pixels.{Filled, kernel, block}
use libvidcap.Conv.Planar.{i420_to_yuy2, yuy2_to_i420}
use libvidcap.Conv.RoundTrips.{yuy2_to_i420-i420_to_yuy2}
use libvidcap.Conv.Luma.{Kept, exact_y, exact_u, exact_v, formulas-Kept}
use libvidcap.Conv.FromRgb.{rgb32_to_i420, planar_of_rgb, rgb32_to_i420-Filled}
use libvidcap.Conv.RgbPairs.{rgb32_to_yuy2, packed_of_rgb, rgb32_to_yuy2-Filled}
use libvidcap.Conv.Yvu9.{yvu9_to_i420, planar_of_yvu9}
use libvidcap.Conv.Yvu9.Copied.{yvu9_to_i420-Filled}
use libvidcap.Conv.Rgb24.{bottom_up_rgb24_to_rgb32, widened, flipped}
use libvidcap.Conv.BottomUp.{bottom_up_rgb24_to_rgb32-Filled}
use libvidcap.Conv.YuvTables.{Tables, prepared, init_yuv2rgb_tables}
use libvidcap.Conv.ToRgb.{yuy2_to_rgb32, i420_to_rgb32, coloured}
use libvidcap.Conv.ToRgb.Colours.{yuy2_to_rgb32-Filled}
use libvidcap.Conv.ToRgb.TwoWays.{i420_to_rgb32-yuy2_to_rgb32}
use libvidcap.Conv.Convert.{call_func, Wrote, call_func-Wrote}

-- Each byte of the block is its own offset, as a byte.
abbrev offsets : ℕ → Bytes
offsets n = record { size = n; at = λ i. i % 256 }

abbrev blank : ℕ → Bytes
blank n = record { size = n; at = λ i. 0 }

-- The statics before the first conversion.
abbrev unready : Tables
unready = record {
  initialized = false;
  y = λ i. pos 0;
  r = λ i. pos 0;
  b = λ i. pos 0;
  g1 = λ i. pos 0;
  g2 = λ i. pos 0;
  clip = λ i. 0;
  clip8 = λ i. 0;
  clip16 = λ i. 0;
}

unready-prepared : prepared unready ≡ init_yuv2rgb_tables
unfolding prepared
unready-prepared = refl

-- The last chroma sample of two by two pixels: v of the even row.
yuy2_to_i420_v : (yuy2_to_i420 2 2 (offsets 8) (blank 6) >>= λ r. load r.1 5) ≡ some 3
unfolding yuy2_to_i420 kernel block repeat scan load store libvidcap.Conv.Pixels.writes
yuy2_to_i420_v = refl

white : exact_y 255 255 255 ≡ pos 235
unfolding exact_y ◌+ℤ◌
white = refl

yuy2_to_i420-i420_to_yuy2_example :
    (there back : Bytes) × (i420_to_yuy2 4 2 (offsets 12) (blank 16) ≡ some (pos 0, there))
    × (yuy2_to_i420 4 2 there (blank 12) ≡ some (pos 0, back))
    × ((a : ℕ) → a < 12 → back.at a ≡ (offsets 12).at a)
yuy2_to_i420-i420_to_yuy2_example =
    yuy2_to_i420-i420_to_yuy2 1 2 (offsets 12) (blank 16) (blank 12) (omega arith) (omega arith)
      (omega arith)

formulas-Kept_example :
    Kept (exact_y 255 0 7) 16 235 × Kept (exact_u 255 0 7) 16 240 × Kept (exact_v 255 0 7) 16 240
formulas-Kept_example = formulas-Kept 255 0 7 (omega arith) (omega arith) (omega arith)

rgb32_to_i420-Filled_example :
    (now : Bytes) × (rgb32_to_i420 2 2 (offsets 16) (blank 6) ≡ some (pos 0, now))
    × Filled (planar_of_rgb 2 2 (offsets 16).at) 6 (blank 6) (λ a. a < 6) now
rgb32_to_i420-Filled_example =
    rgb32_to_i420-Filled 1 1 (offsets 16) (blank 6) (omega arith) (omega arith)

rgb32_to_yuy2-Filled_example :
    (now : Bytes) × (rgb32_to_yuy2 2 2 (offsets 16) (blank 8) ≡ some (pos 0, now))
    × Filled (packed_of_rgb (offsets 16).at) 8 (blank 8) (λ a. a < 8) now
rgb32_to_yuy2-Filled_example =
    rgb32_to_yuy2-Filled 1 1 (offsets 16) (blank 8) (omega arith) (omega arith)

yvu9_to_i420-Filled_example :
    (now : Bytes) × (yvu9_to_i420 4 4 (offsets 18) (blank 24) ≡ some (pos 0, now))
    × Filled (planar_of_yvu9 4 4 (offsets 18).at) 24 (blank 24) (λ a. a < 24) now
yvu9_to_i420-Filled_example =
    yvu9_to_i420-Filled 1 1 (offsets 18) (blank 24) (omega arith) (omega arith)

bottom_up_rgb24_to_rgb32-Filled_example :
    (now : Bytes) × (bottom_up_rgb24_to_rgb32 2 3 (offsets 18) (blank 24) ≡ some (pos 0, now))
    × Filled (widened (flipped 2 3 (offsets 18).at)) 24 (blank 24) (λ a. a < 24) now
bottom_up_rgb24_to_rgb32-Filled_example =
    bottom_up_rgb24_to_rgb32-Filled 2 3 (offsets 18) (blank 24) (λ j. omega arith) (omega arith)
      (omega arith)

yuy2_to_rgb32-Filled_example :
    (now : Bytes) × (yuy2_to_rgb32 2 1 (offsets 4) (blank 8) unready
      ≡ some (init_yuv2rgb_tables, pos 0, now))
    × Filled (coloured (offsets 4).at) 8 (blank 8) (λ a. a < 8) now
yuy2_to_rgb32-Filled_example =
    yuy2_to_rgb32-Filled 1 1 (offsets 4) (blank 8) unready unready-prepared (λ j. omega arith)
      (omega arith) (omega arith)

i420_to_rgb32-yuy2_to_rgb32_example :
    (direct yuy2 later : Bytes) × (i420_to_rgb32 2 2 (offsets 6) (blank 16) unready
      ≡ some (init_yuv2rgb_tables, pos 0, direct))
    × (i420_to_yuy2 2 2 (offsets 6) (blank 8) ≡ some (pos 0, yuy2))
    × (yuy2_to_rgb32 2 2 yuy2 (blank 16) unready ≡ some (init_yuv2rgb_tables, pos 0, later))
    × ((a : ℕ) → direct.at a ≡ later.at a)
i420_to_rgb32-yuy2_to_rgb32_example =
    i420_to_rgb32-yuy2_to_rgb32 1 1 (offsets 6) (blank 8) (blank 16) unready unready-prepared
      (λ j. omega arith) (λ j. omega arith) (omega arith) (omega arith) (omega arith)

source_fits : pos_part (fmt_size_get (pos 2) (pos 2) (reads ConvFunc.i420_to_rgb32)) ≤ 6
source_fits = rw (fmt_size_get_lem 2 2 (reads ConvFunc.i420_to_rgb32) (omega arith)) (omega arith)

frame_fits : pos_part (fmt_size_get (pos 2) (pos 2) (writes ConvFunc.i420_to_rgb32)) ≤ 16
frame_fits = rw (fmt_size_get_lem 2 2 (writes ConvFunc.i420_to_rgb32) (omega arith)) (omega arith)

call_func-Wrote_example :
    Wrote
      (blank 16)
      (pos_part (fmt_size_get (pos 2) (pos 2) (writes ConvFunc.i420_to_rgb32)))
      (call_func ConvFunc.i420_to_rgb32 2 2 (offsets 6) (blank 16) unready)
call_func-Wrote_example =
    call_func-Wrote ConvFunc.i420_to_rgb32 1 1 (offsets 6) (blank 16) unready
      (λ e. ground (arith, e)) unready-prepared (λ j. omega arith) (omega arith) source_fits
      frame_fits
