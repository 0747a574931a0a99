-- ===== src/Qt/Formats.antt =====
-- Formats of src/sapi_qt.c: pixel formats of QuickTime against fourccs, and `source_format_validate`,
-- with `sg_source_format_validate` of src/quicktime/sg_source.c.
pub mod Usable
use libvidcap.Base.{
  ◌≡◌, refl, arith, Bool, true, false, not, ◌||◌, if◌then◌else◌, Option, none, some, ℤ, pos, negsuc,
  ◌≤ℤ◌, eqb_ℤ, ltb_ℤ, leb_ℤ, Bool-cases, inl, inr, ◌⊎◌,
}
use libvidcap.Format.{
  FmtInfo, fourcc_i420, fourcc_yuy2, fourcc_rgb32, fourcc_rgb24, fourcc_2vuy, fourcc_rgb555,
  fourcc_yvu9,
}
use libvidcap.Conv.Table.{ConvFunc, conversion_func_get}
use libvidcap.Sapi.Convertible.{can_convert, can_convert-convertible}

-- The constants for an `OSType` that the source names, by their values; `other_type` is any other.
pub data OsType : Type 0 where
  bgra32 yuvs open_dml_jpeg pixel_2vuy le555 rgb24 yvu9 yuv420 other_type : OsType

-- `map_ostype_to_fourcc`: what it returns, and what it stores, if it does.
unfoldable pub map_ostype_to_fourcc : OsType → ℤ × Option ℤ
map_ostype_to_fourcc bgra32 = (pos 0, some fourcc_rgb32)
map_ostype_to_fourcc yuvs = (pos 0, some fourcc_yuy2)
map_ostype_to_fourcc open_dml_jpeg = (pos 0, some fourcc_2vuy)
map_ostype_to_fourcc pixel_2vuy = (pos 0, some fourcc_2vuy)
map_ostype_to_fourcc le555 = (pos 1, some fourcc_rgb555)
map_ostype_to_fourcc rgb24 = (pos 1, some fourcc_rgb24)
map_ostype_to_fourcc yvu9 = (pos 1, some fourcc_yvu9)
map_ostype_to_fourcc yuv420 = (pos 1, some fourcc_i420)
map_ostype_to_fourcc other_type = (negsuc 0, none)

-- `map_fourcc_to_ostype`
unfoldable pub map_fourcc_to_ostype : ℤ → ℤ × Option OsType
map_fourcc_to_ostype fourcc =
    if eqb_ℤ fourcc fourcc_rgb32
    then (pos 0, some bgra32)
    else if eqb_ℤ fourcc fourcc_yuy2
    then (pos 0, some yuvs)
    else if eqb_ℤ fourcc fourcc_2vuy
    then (pos 0, some pixel_2vuy)
    else if eqb_ℤ fourcc fourcc_rgb555
    then (pos 1, some le555)
    else if eqb_ℤ fourcc fourcc_rgb24
    then (pos 1, some rgb24)
    else if eqb_ℤ fourcc fourcc_yvu9
    then (pos 1, some yvu9)
    else if eqb_ℤ fourcc fourcc_i420
    then (pos 1, some yuv420)
    else (negsuc 0, none)

-- `map_nominal_fourcc_to_native_fourcc`
unfoldable pub map_nominal_fourcc_to_native_fourcc : ℤ → ℤ
map_nominal_fourcc_to_native_fourcc nominal_fourcc =
    if eqb_ℤ nominal_fourcc fourcc_rgb32
    then nominal_fourcc
    else if eqb_ℤ nominal_fourcc fourcc_yuy2
    then nominal_fourcc
    else if eqb_ℤ nominal_fourcc fourcc_2vuy
    then nominal_fourcc
    else fourcc_rgb32

-- The fields of `struct sg_source` that bound a format.
pub record SgSource : Type 0 where
  pub native_pixel_format : OsType
  pub max_dest_width : ℤ
  pub max_dest_height : ℤ
  pub min_dest_width : ℤ
  pub min_dest_height : ℤ

-- A pair of a code and a fourcc, with the fourcc taken where the code is 0.
abbrev pub or_rgb32 : ℤ × Option ℤ → ℤ
or_rgb32 (ret, none) = fourcc_rgb32
or_rgb32 (ret, some fourcc) = if eqb_ℤ ret (pos 0) then fourcc else fourcc_rgb32

-- `num / den <= 0`, as floats: a division by zero is infinite, or for 0 / 0 not a number.
unfoldable pub rate_not_positive : FmtInfo → Bool
rate_not_positive fmt =
    let num = fmt.fps_numerator in
    let den = fmt.fps_denominator in
    if eqb_ℤ den (pos 0)
    then ltb_ℤ num (pos 0)
    else if ltb_ℤ den (pos 0)
    then leb_ℤ (pos 0) num
    else leb_ℤ num (pos 0)

abbrev pub out_of_bounds : ℤ → Bool
out_of_bounds n = ltb_ℤ n (pos 16) || ltb_ℤ (pos 65536) n

-- `too_fast` compares the rate of a format with the largest of the source, and `slower` the rates of
-- two formats, as floats.
module _ (too_fast : FmtInfo → Bool) (slower : FmtInfo → FmtInfo → Bool) (src : SgSource) where
  -- `sg_source_format_validate`
  unfoldable pub sg_source_format_validate : FmtInfo → Bool
  sg_source_format_validate fmt =
      if ltb_ℤ src.max_dest_width fmt.width || ltb_ℤ src.max_dest_height fmt.height
      then false
      else if ltb_ℤ fmt.width src.min_dest_width || ltb_ℤ fmt.height src.min_dest_height
      then false
      else not (too_fast fmt)

  -- For the list of formats.
  unfoldable pub list_validate : FmtInfo → Option FmtInfo
  list_validate nominal =
      let native = record nominal {
        fourcc = or_rgb32 (map_ostype_to_fourcc src.native_pixel_format);
      } in
      if not (sg_source_format_validate native)
      then none
      else if not (can_convert slower native nominal)
      then none
      else some native

  -- For binding.
  unfoldable pub binding_validate : FmtInfo → Option FmtInfo
  binding_validate nominal =
      if out_of_bounds nominal.width
      then none
      else if out_of_bounds nominal.height
      then none
      else if rate_not_positive nominal
      then none
      else some (record nominal { fourcc = map_nominal_fourcc_to_native_fourcc nominal.fourcc })

  -- `source_format_validate`; `none` is 0, and otherwise this is `fmt_native`.
  unfoldable pub source_format_validate : FmtInfo → Bool → Option FmtInfo
  source_format_validate nominal for_binding =
      if not for_binding then list_validate nominal else binding_validate nominal
