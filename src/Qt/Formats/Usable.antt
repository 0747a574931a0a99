-- ===== src/Qt/Formats/Usable.antt =====
-- What the QuickTime `source_format_validate` promises of a format.
use libvidcap.Base.{
  ◌≡◌, refl, arith, Bool, true, false, Option, none, some, ℤ, pos, ◌≤ℤ◌, Bool-cases, inl, inr, ◌⊎◌,
}
use libvidcap.Format.{FmtInfo}
use libvidcap.Conv.Table.{ConvFunc, conversion_func_get}
use libvidcap.Sapi.Convertible.{can_convert, can_convert-convertible}
use libvidcap.Qt.Formats.{
  OsType, bgra32, yuvs, open_dml_jpeg, pixel_2vuy, le555, rgb24, yvu9, yuv420, other_type,
  map_ostype_to_fourcc, map_fourcc_to_ostype, map_nominal_fourcc_to_native_fourcc, SgSource,
  or_rgb32, rate_not_positive, sg_source_format_validate, list_validate, out_of_bounds,
  binding_validate, source_format_validate,
}

-- `map_fourcc_to_ostype` takes the fourccs of the native formats.
or_rgb32-known : (t : OsType) → (map_fourcc_to_ostype (or_rgb32 (map_ostype_to_fourcc t))).0 ≡ pos 0
unfolding map_fourcc_to_ostype map_ostype_to_fourcc
or_rgb32-known bgra32 = refl
or_rgb32-known yuvs = refl
or_rgb32-known open_dml_jpeg = refl
or_rgb32-known pixel_2vuy = refl
or_rgb32-known le555 = refl
or_rgb32-known rgb24 = refl
or_rgb32-known yvu9 = refl
or_rgb32-known yuv420 = refl
or_rgb32-known other_type = refl

native-known :
    (fourcc : ℤ) → (map_fourcc_to_ostype (map_nominal_fourcc_to_native_fourcc fourcc)).0 ≡ pos 0
unfolding map_fourcc_to_ostype map_nominal_fourcc_to_native_fourcc
native-known fourcc = ground arith

-- A size that binding accepts.
abbrev InBounds : ℤ → Type 0
InBounds n = (pos 16 ≤ℤ n) × (n ≤ℤ pos 65536)

-- What is promised of a format for the list, and for binding.
abbrev Promised : Bool → FmtInfo → FmtInfo → Type 0
Promised false nominal native =
    (native.fourcc ≡ nominal.fourcc)
    ⊎ ((f : ConvFunc) × (conversion_func_get native.fourcc nominal.fourcc ≡ some f))
Promised true nominal native = InBounds nominal.width × InBounds nominal.height

pub record Usable (for_binding : Bool) (nominal native : FmtInfo) : Type 0 where
  pub same_image : native ≡ record nominal { fourcc = native.fourcc }
  pub known : (map_fourcc_to_ostype native.fourcc).0 ≡ pos 0
  pub promised : Promised for_binding nominal native

abbrev UsableIf : Bool → FmtInfo → Option FmtInfo → Type 0
UsableIf b nominal none = Unit {0}
UsableIf b nominal (some native) = Usable b nominal native

module _ (too_fast : FmtInfo → Bool) (slower : FmtInfo → FmtInfo → Bool) (src : SgSource)
    (nominal : FmtInfo) where
  list-Usable : UsableIf false nominal (list_validate too_fast slower src nominal)
  unfolding list_validate
  list-Usable =
      let native = record nominal {
        fourcc = or_rgb32 (map_ostype_to_fourcc src.native_pixel_format);
      } in
      elim (Bool-cases (sg_source_format_validate too_fast slower src native)) [
        | inr e ↦ rw e tt
        | inl e ↦ elim (Bool-cases (can_convert slower native nominal)) [
          | inr c ↦ rw (e, c) tt
          | inl c ↦
              rw (e, c)
                (record {
                  same_image = refl;
                  known = or_rgb32-known src.native_pixel_format;
                  promised = can_convert-convertible slower native nominal c;
                })
        ]
      ]

  binding-Usable : UsableIf true nominal (binding_validate too_fast slower src nominal)
  unfolding binding_validate
  binding-Usable = elim (Bool-cases (out_of_bounds nominal.width)) [
    | inl e ↦ rw e tt
    | inr w ↦ elim (Bool-cases (out_of_bounds nominal.height)) [
      | inl e ↦ rw (w, e) tt
      | inr h ↦ elim (Bool-cases (rate_not_positive nominal)) [
        | inl e ↦ rw (w, h, e) tt
        | inr r ↦
            rw (w, h, r)
              (record {
                same_image = refl;
                known = native-known nominal.fourcc;
                promised = (ground (arith, w), ground (arith, h));
              })
      ]
    ]
  ]

  -- A format that `source_format_validate` accepts has the size and the rate of the nominal format, and a
  -- fourcc that `map_fourcc_to_ostype` takes, so that the capture thread does not fail at it. For
  -- the list of formats it is the nominal format's fourcc, or there is a conversion to that;
  -- for binding the width and the height are from 16 to 65536.
  pub source_format_validate-Usable :
      (for_binding : Bool) (native : FmtInfo)
      → source_format_validate too_fast slower src nominal for_binding ≡ some native
      → Usable for_binding nominal native
  unfolding source_format_validate
  source_format_validate-Usable false native e = rw e at list-Usable
  source_format_validate-Usable true native e = rw e at binding-Usable
