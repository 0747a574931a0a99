-- ===== src/Qt/Tests.antt =====
-- Formats of QuickTime sources at concrete inputs.
use libvidcap.Base.{◌≡◌, refl, Bool, true, false, some, pos}
use libvidcap.Format.{FmtInfo, fourcc_i420, fourcc_rgb32, fourcc_2vuy}
use libvidcap.Conv.Table.{conversion_func_get}
use libvidcap.Sapi.Convertible.{can_convert}
use libvidcap.Qt.Formats.{
  SgSource, open_dml_jpeg, map_ostype_to_fourcc, map_nominal_fourcc_to_native_fourcc,
  rate_not_positive, sg_source_format_validate, list_validate, binding_validate,
  source_format_validate,
}
use libvidcap.Qt.Formats.Usable.{Usable, source_format_validate-Usable}

abbrev never : FmtInfo → Bool
never f = false

abbrev no_slower : FmtInfo → FmtInfo → Bool
no_slower f g = false

-- A camera that delivers compressed frames.
abbrev jpeg_camera : SgSource
jpeg_camera = record {
  native_pixel_format = open_dml_jpeg;
  max_dest_width = pos 1280;
  max_dest_height = pos 1024;
  min_dest_width = pos 160;
  min_dest_height = pos 120;
}

abbrev i420_vga : FmtInfo
i420_vga = record {
  width = pos 640;
  height = pos 480;
  fourcc = fourcc_i420;
  fps_numerator = pos 30;
  fps_denominator = pos 1;
}

abbrev native_vga : FmtInfo
native_vga = record i420_vga { fourcc = fourcc_2vuy }

listed : source_format_validate never no_slower jpeg_camera i420_vga false ≡ some native_vga
unfolding source_format_validate list_validate sg_source_format_validate can_convert
    map_ostype_to_fourcc conversion_func_get
listed = refl

bound :
    source_format_validate never no_slower jpeg_camera i420_vga true
    ≡ some (record i420_vga { fourcc = fourcc_rgb32 })
unfolding source_format_validate binding_validate map_nominal_fourcc_to_native_fourcc
    rate_not_positive
bound = refl

source_format_validate-Usable_example : Usable false i420_vga native_vga
source_format_validate-Usable_example =
    source_format_validate-Usable never no_slower jpeg_camera i420_vga false native_vga listed
