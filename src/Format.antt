-- ===== src/Format.antt =====
-- Formats: the fourcc values of include/vidcap/vidcap.h and src/conv.h, `vidcap_fmt_info`, and
-- the hot lists of src/hotlist.c.
use libvidcap.Base.{ℤ, pos, List, [], ◌∷◌, eqb_ℤ, if◌then◌else◌}
use Prim.Native.String.{String}

abbrev pub fourcc_i420 : ℤ
fourcc_i420 = pos 100

abbrev pub fourcc_yuy2 : ℤ
fourcc_yuy2 = pos 101

abbrev pub fourcc_rgb32 : ℤ
fourcc_rgb32 = pos 102

abbrev pub fourcc_rgb555 : ℤ
fourcc_rgb555 = pos 200

abbrev pub fourcc_yvu9 : ℤ
fourcc_yvu9 = pos 201

abbrev pub fourcc_2vuy : ℤ
fourcc_2vuy = pos 202

abbrev pub fourcc_rgb24 : ℤ
fourcc_rgb24 = pos 203

abbrev pub fourcc_bottom_up_rgb24 : ℤ
fourcc_bottom_up_rgb24 = pos 204

-- `struct vidcap_fmt_info`
pub record FmtInfo : Type 0 where
  pub width : ℤ
  pub height : ℤ
  pub fourcc : ℤ
  pub fps_numerator : ℤ
  pub fps_denominator : ℤ

-- `vidcap_fourcc_string_get`
unfoldable pub fourcc_string_get : ℤ → String
fourcc_string_get fourcc =
    if eqb_ℤ fourcc fourcc_i420
    then "i420"
    else if eqb_ℤ fourcc fourcc_yuy2
    then "yuy2"
    else if eqb_ℤ fourcc fourcc_rgb32
    then "rgb32"
    else if eqb_ℤ fourcc fourcc_rgb24
    then "rgb24"
    else if eqb_ℤ fourcc fourcc_bottom_up_rgb24
    then "bottom_up_rgb24"
    else if eqb_ℤ fourcc fourcc_rgb555
    then "rgb555"
    else if eqb_ℤ fourcc fourcc_yvu9
    then "yvu9"
    else if eqb_ℤ fourcc fourcc_2vuy
    then "2vuy"
    else "????"

pub record HotResolution : Type 0 where
  pub width : ℤ
  pub height : ℤ

pub record HotFps : Type 0 where
  pub fps_numerator : ℤ
  pub fps_denominator : ℤ

abbrev pub hot_resolution_list : List HotResolution
hot_resolution_list =
    (record { width = pos 640; height = pos 480 })
    ∷ (record { width = pos 320; height = pos 240 })
    ∷ (record { width = pos 160; height = pos 120 })
    ∷ (record { width = pos 80; height = pos 60 })
    ∷ []

abbrev pub hot_fourcc_list : List ℤ
hot_fourcc_list = fourcc_rgb32 ∷ fourcc_i420 ∷ fourcc_yuy2 ∷ []

abbrev pub hot_fps_list : List HotFps
hot_fps_list =
    (record { fps_numerator = pos 15; fps_denominator = pos 1 })
    ∷ (record { fps_numerator = pos 30; fps_denominator = pos 1 })
    ∷ (record { fps_numerator = pos 2997; fps_denominator = pos 100 })
    ∷ (record { fps_numerator = pos 10; fps_denominator = pos 1 })
    ∷ (record { fps_numerator = pos 1; fps_denominator = pos 1 })
    ∷ []
