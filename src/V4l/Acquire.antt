-- ===== src/V4l/Acquire.antt =====
-- `source_acquire` and `source_release` of src/sapi_v4l.c: which sources are taken. The answers of
-- `calloc`, `open` and the three calls of ioctl are parameters; `realloc` is taken to succeed.
pub mod Requests
pub mod Exclusive
use libvidcap.Base.{
  ℕ, zero, suc, ◌+◌, ◌<◌, ◌≤◌, ◌≡◌, ◌≢◌, refl, sym, ap, ◌∙◌, arith, Bool, true, false, not, ◌&&◌,
  ◌||◌, if◌then◌else◌, Option, none, some, List, [], ◌∷◌, ◌++◌, length, ℤ, pos, negsuc, ltb_ℤ,
  eqb_ℤ, Bool-cases, Option-cases, inl, inr,
}
use libvidcap.V4l.Text.{Text}
use libvidcap.V4l.Ident.{Source, device_path_max, parse_src_identifier}
use libvidcap.V4l.SrcList.{src_list_src_match_next, append_matches, remove_all}
use libvidcap.V4l.Scan.{V4lContext, Probe, scan_sources}

-- What the calls of `source_acquire` answer.
pub record Answers : Type 0 where
  pub calloc_ok : Bool
  pub fd : ℤ
  pub cap_ok : Bool
  pub win_ok : Bool
  pub pict_ok : Bool

-- The fields of `struct sapi_v4l_src_context` that identify the device.
pub record Opened : Type 0 where
  pub src_info : Source
  pub fd : ℤ
  pub device_path : Text
  pub channel : ℤ

-- A result of `source_acquire`: what it returns, the lists, and the new source.
abbrev pub Result : Type 0
Result = ℤ × V4lContext × Option Opened

abbrev pub refused : V4lContext → Result
refused ctx = (negsuc 0, ctx, none)

-- The loop at the end: the sources of the device in the user's list are taken.
abbrev pub taken : V4lContext → Opened → Option (List Source) → Option Result
taken ctx o none = none
taken ctx o (some l) = some (pos 0, record ctx { acquired_src_list = l }, some o)

-- With the parsed identifier. A failure after `open` does not close the device.
abbrev pub open_device : V4lContext → Source → Answers → Text × ℤ → Option Result
open_device ctx info answers (path, channel) =
    if not (eqb_ℤ answers.fd (negsuc 0)) && answers.cap_ok && answers.win_ok && answers.pict_ok
    then taken ctx
        (record { src_info = info; fd = answers.fd; device_path = path; channel = channel })
        (append_matches (suc (length ctx.user_src_list)) ctx.user_src_list path 0
          ctx.acquired_src_list)
    else some (refused ctx)

-- Once the source is chosen.
unfoldable pub acquire_chosen : V4lContext → Source → Answers → Option Result
acquire_chosen ctx info answers =
    if answers.calloc_ok
    then elim (parse_src_identifier info.identifier device_path_max) [
      | none ↦ some (refused ctx)
      | some r ↦ open_device ctx info answers r
    ]
    else some (refused ctx)

-- The first source of a list that does not match an acquired one.
unfoldable pub first_free : List Source → List Source → Option Source
first_free acquired [] = none
first_free acquired (s ∷ l) =
    let rest = first_free acquired l in
    elim ((src_list_src_match_next acquired s 0).0) [ none ↦ some s | some matched ↦ rest ]

-- With the result of the scan.
unfoldable pub acquire_default : Option (ℤ × V4lContext) → Answers → Option Result
acquire_default none answers = none
acquire_default (some (count, ctx)) answers =
    if ltb_ℤ count (pos 1)
    then some (refused ctx)
    else elim (first_free ctx.acquired_src_list ctx.user_src_list) [
      | none ↦ some (refused ctx)
      | some s ↦ acquire_chosen ctx s answers
    ]

-- `source_acquire`, with a null pointer for the default source. The outer `none` is a loop that goes
-- on.
unfoldable pub source_acquire :
    (Text → Probe) → V4lContext → Option Source → Answers → Option Result
source_acquire probe ctx none answers = acquire_default (scan_sources probe ctx) answers
source_acquire probe ctx (some info) answers =
    elim ((src_list_src_match_next ctx.acquired_src_list info 0).0) [
      | none ↦ acquire_chosen ctx info answers
      | some matched ↦ some (refused ctx)
    ]

-- With what the loop over the acquired sources leaves.
abbrev pub released : V4lContext → ℤ → Option (List Source) → Option (ℤ × V4lContext)
released ctx ret none = none
released ctx ret (some l) = some (ret, record ctx { acquired_src_list = l })

-- `source_release`, with the answer of `close`.
unfoldable pub source_release : V4lContext → Opened → Bool → Option (ℤ × V4lContext)
source_release ctx o close_ok =
    released ctx (if ltb_ℤ o.fd (pos 0) || not close_ok then negsuc 0 else pos 0)
      (remove_all (suc (length ctx.acquired_src_list)) ctx.acquired_src_list o.src_info)
