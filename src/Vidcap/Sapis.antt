-- ===== src/Vidcap/Sapis.antt =====
-- The list of sapis (backends): acquiring and releasing one, and the list of its sources.
pub mod Exclusive
use Prim.Native.String.{String}
use text.Mathlib.Text
use libvidcap.Base.{
  ℕ, suc, Option, none, some, List, [], ◌∷◌, length, get_elem?, set, take, Bool, true, false, not,
  ◌||◌, eqb_ℤ, ltb_ℤ, leb_ℤ, if◌then◌else◌, ℤ, pos, negsuc, ◌+ℤ◌, ◌-ℤ◌, int32, pos_part,
  Option-cases,
}
use libvidcap.Sapi.Context.{SrcInfo}
use libvidcap.Vidcap.Blocks.{minus}

-- `struct vidcap_sapi_info`. The identifiers are texts shorter than VIDCAP_NAME_LENGTH, so that
-- `strncpy` copies them whole and `strncmp` compares them whole.
pub record SapiInfo : Type 0 where
  pub identifier : String
  pub description : String

-- `struct sapi_context`, without the backend's functions. The list of sources that a scan has
-- found is `user_src_list`.
pub record SapiContext : Type 0 where
  pub identifier : String
  pub description : String
  pub ref_count : ℤ
  pub notify_callback : Option ℕ
  pub notify_data : ℤ
  pub user_src_list : List SrcInfo

-- `sapi_acquire`: what it returns, and the context.
unfoldable pub acquire : SapiContext → ℤ × SapiContext
acquire sapi =
    if not (eqb_ℤ sapi.ref_count (pos 0))
    then (minus 1, sapi)
    else (pos 0, record sapi { ref_count = int32 (sapi.ref_count +ℤ pos 1) })

-- `sapi_release`
unfoldable pub release : SapiContext → ℤ × SapiContext
release sapi =
    if eqb_ℤ sapi.ref_count (pos 0)
    then (minus 1, sapi)
    else (pos 0, record sapi { ref_count = int32 (sapi.ref_count -ℤ pos 1) })

-- An index in a list, as one in the list with one more sapi before it.
abbrev pub one_later : Option ℕ → Option ℕ
one_later none = none
one_later (some i) = some (suc i)

-- The loop of `vidcap_sapi_acquire`: the index of the first sapi with the identifier.
unfoldable pub find_sapi : String → List SapiContext → Option ℕ
find_sapi identifier [] = none
find_sapi identifier (sapi ∷ l) =
    if Text.◌==◌ identifier sapi.identifier then some 0 else one_later (find_sapi identifier l)

-- The index that the information stands for; the first sapi, where there is none.
unfoldable pub choose_sapi : Option SapiInfo → List SapiContext → Option ℕ
choose_sapi none [] = none
choose_sapi none (sapi ∷ l) = some 0
choose_sapi (some info) l = find_sapi info.identifier l

-- With what the chosen sapi's `acquire` returns.
unfoldable pub take_sapi : ℕ → List SapiContext → ℤ × SapiContext → Option ℕ × List SapiContext
take_sapi i sapis (err, sapi) =
    if eqb_ℤ err (pos 0) then (some i, set sapis i sapi) else (none, sapis)

-- `vidcap_sapi_acquire` on the list of the context: the sapi that it returns a pointer to.
unfoldable pub sapi_acquire : Option SapiInfo → List SapiContext → Option ℕ × List SapiContext
sapi_acquire info sapis = elim (choose_sapi info sapis) [
  | none ↦ (none, sapis)
  | some i ↦ elim (get_elem? sapis i) [
    | none ↦ (none, sapis)
    | some sapi ↦ take_sapi i sapis (acquire sapi)
  ]
]

-- `vidcap_sapi_release` of the sapi at an index. `none` is a pointer to no sapi.
unfoldable pub sapi_release : ℕ → List SapiContext → Option (ℤ × List SapiContext)
sapi_release i sapis = elim (get_elem? sapis i) [
  | none ↦ none
  | some sapi ↦ some ((release sapi).0, set sapis i (release sapi).1)
]

-- `vidcap_sapi_info_get`, which always returns 0.
unfoldable pub sapi_info_get : SapiContext → SapiInfo
sapi_info_get sapi = record { identifier = sapi.identifier; description = sapi.description }

-- `vidcap_sapi_enumerate`: `none` where it returns 0.
unfoldable pub sapi_enumerate : List SapiContext → ℤ → Option SapiInfo
sapi_enumerate sapis (negsuc i) = none
sapi_enumerate sapis (pos i) = elim (get_elem? sapis i) [
  | none ↦ none
  | some sapi ↦ some (sapi_info_get sapi)
]

-- `vidcap_srcs_notify`, where the backend's `monitor_sources` returns `ret`.
unfoldable pub srcs_notify : ℤ → SapiContext → Option ℕ → ℤ → ℤ × SapiContext
srcs_notify ret sapi callback user_data =
    if eqb_ℤ ret (pos 0)
    then (ret, record sapi { notify_callback = callback; notify_data = user_data })
    else (ret, record sapi { notify_callback = none; notify_data = pos 0 })

-- `vidcap_src_list_update`, where the backend's `scan_sources` returns `ret` and the new list.
unfoldable pub src_list_update : ℤ × List SrcInfo → SapiContext → ℤ × SapiContext
src_list_update (ret, found) sapi = (ret, record sapi { user_src_list = found })

-- `vidcap_src_list_get`, for a buffer of `list_len` entries: what it returns, and the entries
-- that it copies to the buffer's start.
unfoldable pub src_list_get : SapiContext → ℤ → ℤ × List SrcInfo
src_list_get sapi list_len =
    if ltb_ℤ list_len (pos (length sapi.user_src_list))
    then (minus 1, [])
    else (pos 0, sapi.user_src_list)
