-- ===== src/V4l/Palette.antt =====
-- Formats of src/sapi_v4l.c: palettes of the driver against fourccs, and `source_format_validate`.
-- The palettes are constants of the system's header, a parameter here.
use mathlib.Core.Path.{subst}
use libvidcap.Base.{
  ℕ, ◌≡◌, ◌≢◌, ◌≤ℤ◌, refl, ap, arith, Bool, false, ◌||◌, ◌==◌, if◌then◌else◌, Option, none, some, ℤ,
  eqb_ℤ, ltb_ℤ, Bool-cases, Option-cases, inl, inr, ◌⊎◌,
}
use libvidcap.Format.{
  FmtInfo, fourcc_i420, fourcc_yuy2, fourcc_rgb32, fourcc_rgb24, fourcc_2vuy, fourcc_rgb555,
}
use libvidcap.Sapi.Convertible.{can_convert, can_convert-convertible}
use libvidcap.Conv.Table.{ConvFunc, conversion_func_get}

-- `VIDEO_PALETTE_YUV420P` and so on.
pub record Palettes : Type 0 where
  pub yuv420p : ℕ
  pub rgb24 : ℕ
  pub yuyv : ℕ
  pub uyvy : ℕ
  pub rgb32 : ℕ
  pub rgb555 : ℕ

-- The fields of `struct video_capability` that bound the size of an image.
pub record Caps : Type 0 where
  pub minwidth : ℤ
  pub maxwidth : ℤ
  pub minheight : ℤ
  pub maxheight : ℤ

module _ (p : Palettes) where
  -- `map_fourcc_to_palette`; `none` is a result that is not 0.
  unfoldable pub map_fourcc_to_palette : ℤ → Option ℕ
  map_fourcc_to_palette fourcc =
      if eqb_ℤ fourcc fourcc_i420
      then some p.yuv420p
      else if eqb_ℤ fourcc fourcc_rgb24
      then some p.rgb24
      else if eqb_ℤ fourcc fourcc_yuy2
      then some p.yuyv
      else if eqb_ℤ fourcc fourcc_2vuy
      then some p.uyvy
      else if eqb_ℤ fourcc fourcc_rgb32
      then some p.rgb32
      else if eqb_ℤ fourcc fourcc_rgb555
      then some p.rgb555
      else none

  -- `map_palette_to_fourcc`; `none` is -1.
  unfoldable pub map_palette_to_fourcc : ℕ → Option ℤ
  map_palette_to_fourcc palette =
      if palette == p.yuv420p
      then some fourcc_i420
      else if palette == p.rgb24
      then some fourcc_rgb24
      else if palette == p.yuyv
      then some fourcc_yuy2
      else if palette == p.uyvy
      then some fourcc_2vuy
      else if palette == p.rgb32
      then some fourcc_rgb32
      else if palette == p.rgb555
      then some fourcc_rgb555
      else none

  abbrev out_of_range : Caps → FmtInfo → Bool
  out_of_range caps fmt =
      ltb_ℤ fmt.width caps.minwidth
      || ltb_ℤ caps.maxwidth fmt.width
      || ltb_ℤ fmt.height caps.minheight
      || ltb_ℤ caps.maxheight fmt.height

  -- Once the nominal fourcc has a palette.
  abbrev with_native : (FmtInfo → FmtInfo → Bool) → FmtInfo → Option ℤ → Option FmtInfo
  with_native slower nominal none = none
  with_native slower nominal (some fourcc) =
      let native = record nominal { fourcc = fourcc } in
      if can_convert slower native nominal then some native else none

  -- `source_format_validate` of a source with the given capabilities and palette; `none` is 0, and
  -- otherwise this is `fmt_native`.
  unfoldable pub source_format_validate :
      (FmtInfo → FmtInfo → Bool) → Caps → ℕ → FmtInfo → Option FmtInfo
  source_format_validate slower caps palette nominal =
      if out_of_range caps nominal then none else elim (map_fourcc_to_palette nominal.fourcc) [
        | none ↦ none
        | some q ↦ with_native slower nominal (map_palette_to_fourcc palette)
      ]

  -- The constants differ.
  pub record Distinct : Type 0 where
    pub yuv420p :
        (p.yuv420p ≢ p.rgb24)
        × (p.yuv420p ≢ p.yuyv)
        × (p.yuv420p ≢ p.uyvy)
        × (p.yuv420p ≢ p.rgb32)
        × (p.yuv420p ≢ p.rgb555)
    pub rgb24 : (p.rgb24 ≢ p.yuyv) × (p.rgb24 ≢ p.uyvy) × (p.rgb24 ≢ p.rgb32) × (p.rgb24 ≢ p.rgb555)
    pub yuyv : (p.yuyv ≢ p.uyvy) × (p.yuyv ≢ p.rgb32) × (p.yuyv ≢ p.rgb555)
    pub uyvy : (p.uyvy ≢ p.rgb32) × (p.uyvy ≢ p.rgb555)
    pub rgb32 : p.rgb32 ≢ p.rgb555

  module _ (d : Distinct) where
    -- The two maps are inverse to each other.
    palette_of_fourcc :
        (fourcc : ℤ) (palette : ℕ)
        → map_fourcc_to_palette fourcc ≡ some palette
        → map_palette_to_fourcc palette ≡ some fourcc
    unfolding map_fourcc_to_palette map_palette_to_fourcc
    palette_of_fourcc fourcc palette e =
        ground (arith, e, d.yuv420p, d.rgb24, d.yuyv, d.uyvy, d.rgb32)

  -- The image of a format is within the sizes of the device.
  pub record InRange (caps : Caps) (fmt : FmtInfo) : Type 0 where
    pub least_width : caps.minwidth ≤ℤ fmt.width
    pub most_width : fmt.width ≤ℤ caps.maxwidth
    pub least_height : caps.minheight ≤ℤ fmt.height
    pub most_height : fmt.height ≤ℤ caps.maxheight

  -- A range that `source_format_validate` passes is one.
  passed-InRange : (caps : Caps) (fmt : FmtInfo) → out_of_range caps fmt ≡ false → InRange caps fmt
  passed-InRange caps fmt h = record {
    least_width = ground arith;
    most_width = ground arith;
    least_height = ground arith;
    most_height = ground arith;
  }

  -- The fourcc that a palette maps to has that palette.
  fourcc_of_palette :
      (palette : ℕ) (fourcc : ℤ)
      → map_palette_to_fourcc palette ≡ some fourcc
      → map_fourcc_to_palette fourcc ≡ some palette
  unfolding map_fourcc_to_palette map_palette_to_fourcc
  fourcc_of_palette palette fourcc e = ground (arith, e)

  -- What `source_format_validate` promises of the format that it accepts.
  pub record Accepted (caps : Caps) (palette : ℕ) (nominal native : FmtInfo) : Type 0 where
    pub in_range : InRange caps nominal
    pub of_device : map_fourcc_to_palette native.fourcc ≡ some palette
    pub image :
        (native.width ≡ nominal.width)
        × (native.height ≡ nominal.height)
        × (native.fps_numerator ≡ nominal.fps_numerator)
        × (native.fps_denominator ≡ nominal.fps_denominator)
    pub convertible :
        (native.fourcc ≡ nominal.fourcc)
        ⊎ ((f : ConvFunc) × (conversion_func_get native.fourcc nominal.fourcc ≡ some f))

  abbrev format_of : FmtInfo → Option FmtInfo → FmtInfo
  format_of d none = d
  format_of d (some f) = f

  with_native-Accepted :
      (slower : FmtInfo → FmtInfo → Bool) (caps : Caps) (palette : ℕ) (nominal native : FmtInfo)
      → out_of_range caps nominal ≡ false
      → with_native slower nominal (map_palette_to_fourcc palette) ≡ some native
      → Accepted caps palette nominal native
  with_native-Accepted slower caps palette nominal native range e =
      elim (Option-cases (map_palette_to_fourcc palette)) [
        | inl missing ↦ absurd (ground (arith, (rw missing at e)))
        | inr (fourcc, found) ↦
            let native' = record nominal { fourcc = fourcc } in
            elim (Bool-cases (can_convert slower native' nominal)) [
              | inl ok ↦
                  let same : some native' ≡ some native = rw (found, ok) at e in
                  subst (λ f. Accepted caps palette nominal f) (ap (format_of nominal) same)
                    (record {
                      in_range = passed-InRange caps nominal range;
                      of_device = fourcc_of_palette palette fourcc found;
                      image = (refl, refl, refl, refl);
                      convertible = can_convert-convertible slower native' nominal ok;
                    })
              | inr refused ↦ absurd (ground (arith, (rw (found, refused) at e)))
            ]
      ]

-- A format that `source_format_validate` accepts is from the least to the largest width and height of
-- the device and has the size and rate of the nominal format. Its fourcc is one that
-- `map_fourcc_to_palette` takes back to the palette of the device, and is the nominal one or has a
-- conversion to it, so that binding finds one.
pub source_format_validate-Accepted :
    (p : Palettes) (slower : FmtInfo → FmtInfo → Bool) (caps : Caps) (palette : ℕ)
    (nominal native : FmtInfo)
    → source_format_validate p slower caps palette nominal ≡ some native
    → Accepted p caps palette nominal native
unfolding source_format_validate
source_format_validate-Accepted p slower caps palette nominal native e =
    elim (Bool-cases (out_of_range p caps nominal)) [
      | inl outside ↦ absurd (ground (arith, (rw outside at e)))
      | inr range ↦ elim (Option-cases (map_fourcc_to_palette p nominal.fourcc)) [
        | inl missing ↦ absurd (ground (arith, (rw (range, missing) at e)))
        | inr (q, found) ↦
            with_native-Accepted p slower caps palette nominal native range (rw (range, found) at e)
      ]
    ]
