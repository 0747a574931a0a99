-- ===== src/Sapi/Convertible.antt =====
-- `sapi_can_convert_native_to_nominal` of src/sapi.c.
use libvidcap.Base.{
  ◌≡◌, arith, Bool, true, false, not, ◌||◌, if◌then◌else◌, none, some, eqb_ℤ, eqb_ℤ_iff, Bool-cases,
  Option-cases, inl, inr, ◌⊎◌,
}
use libvidcap.Format.{FmtInfo}
use libvidcap.Conv.Table.{ConvFunc, conversion_func_get}

-- `sapi_can_convert_native_to_nominal`, with the comparison of the two rates as floats.
unfoldable pub can_convert : (FmtInfo → FmtInfo → Bool) → FmtInfo → FmtInfo → Bool
can_convert slower native nominal =
    if slower native nominal
    then false
    else if not (eqb_ℤ native.width nominal.width) || not (eqb_ℤ native.height nominal.height)
    then false
    else if eqb_ℤ native.fourcc nominal.fourcc
    then true
    else elim (conversion_func_get native.fourcc nominal.fourcc) [ none ↦ false | some f ↦ true ]

-- A format that is converted is the nominal one, or has a function.
pub can_convert-convertible :
    (slower : FmtInfo → FmtInfo → Bool) (native nominal : FmtInfo)
    → can_convert slower native nominal ≡ true
    → (native.fourcc ≡ nominal.fourcc)
      ⊎ ((f : ConvFunc) × (conversion_func_get native.fourcc nominal.fourcc ≡ some f))
unfolding can_convert
can_convert-convertible slower native nominal e =
    elim (Bool-cases (eqb_ℤ native.fourcc nominal.fourcc)) [
      | inl same ↦ inl ((eqb_ℤ_iff native.fourcc nominal.fourcc).0 same)
      | inr differs ↦ elim (Option-cases (conversion_func_get native.fourcc nominal.fourcc)) [
        | inl missing ↦ absurd (ground (arith, e, differs, missing))
        | inr (f, found) ↦ inr (f, found)
      ]
    ]
