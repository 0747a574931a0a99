-- ===== src/V4l/SrcList.antt =====
-- The lists of sources of src/sapi_v4l.c: searching them for a device, removal and growth.
use libvidcap.Base.{
  ℕ, zero, suc, ◌-◌, ◌≡◌, Bool, if◌then◌else◌, Option, none, some, List, [], ◌∷◌, ◌++◌, take, drop,
  ℤ,
}
use libvidcap.V4l.Text.{Text}
use libvidcap.V4l.Ident.{Source, device_path_max, parse_src_identifier, same_text}

-- The loop of `src_list_device_match_next` from index `i` on, which began at `start`. At an
-- invalid identifier it gives up, and `*index` is not written.
unfoldable pub match_from : Text → ℕ → ℕ → List Source → Option Source × ℕ
match_from device_path start i [] = (none, i)
match_from device_path start i (s ∷ l) =
    let rest = match_from device_path start (suc i) l in
    elim (parse_src_identifier s.identifier device_path_max) [
      | none ↦ (none, start)
      | some r ↦ if same_text r.0 device_path then (some s, suc i) else rest
    ]

-- `src_list_device_match_next`: what it returns, and `*index`.
unfoldable pub src_list_device_match_next : List Source → Text → ℕ → Option Source × ℕ
unfolding match_from
src_list_device_match_next src_list device_path index =
    match_from device_path index index (drop index src_list)

-- `src_list_src_match_next`
unfoldable pub src_list_src_match_next : List Source → Source → ℕ → Option Source × ℕ
src_list_src_match_next src_list src_info index =
    elim (parse_src_identifier src_info.identifier device_path_max) [
      | none ↦ (none, index)
      | some r ↦ src_list_device_match_next src_list r.0 index
    ]

-- The `memmove`: the entries from `match_index` on go one place down.
abbrev pub moved_down : List Source → ℕ → List Source
moved_down src_list match_index = take (match_index - 1) src_list ++ drop match_index src_list

abbrev pub without_match : List Source → Option Source × ℕ → Option (List Source)
without_match src_list (none, match_index) = none
without_match src_list (some matched, match_index) = some (moved_down src_list match_index)

-- `src_list_src_remove`; `none` is -1.
unfoldable pub src_list_src_remove : List Source → Source → Option (List Source)
src_list_src_remove src_list src_info =
    without_match src_list (src_list_src_match_next src_list src_info 0)

-- `src_list_src_append`, where `realloc` succeeds.
abbrev pub src_list_src_append : List Source → Source → List Source
src_list_src_append src_list src_info = src_list ++ src_info ∷ []

-- `while ( !src_list_src_remove(...) );`, for at most `fuel` rounds; `none` is a loop that goes on.
unfoldable pub remove_all : ℕ → List Source → Source → Option (List Source)
remove_all zero src_list src_info = none
remove_all (suc fuel) src_list src_info = elim (src_list_src_remove src_list src_info) [
  | none ↦ some src_list
  | some shorter ↦ remove_all fuel shorter src_info
]

-- The loops that append every match in `from`, from `match_index` on, to `to`.
unfoldable pub append_matches : ℕ → List Source → Text → ℕ → List Source → Option (List Source)
append_matches zero from device_path match_index to = none
append_matches (suc fuel) from device_path match_index to =
    let (matched, next) = src_list_device_match_next from device_path match_index in
    elim matched [
      | none ↦ some to
      | some s ↦ append_matches fuel from device_path next (src_list_src_append to s)
    ]

-- The device path of a source, and whether it is a given one.
abbrev pub path_of : Source → Text
path_of s = elim (parse_src_identifier s.identifier device_path_max) [ none ↦ [] | some r ↦ r.0 ]

abbrev pub is_on : Text → Source → Bool
is_on path s = same_text (path_of s) path

-- The sources of a device, and those of the other devices, in their order.
abbrev pub on_device : Text → List Source → List Source
on_device path [] = []
on_device path (s ∷ l) = if is_on path s then s ∷ on_device path l else on_device path l

abbrev pub off_device : Text → List Source → List Source
off_device path [] = []
off_device path (s ∷ l) = if is_on path s then off_device path l else s ∷ off_device path l

-- The identifiers of all sources can be parsed.
abbrev pub Named : Source → Type 0
Named s = (r : Text × ℤ) × (parse_src_identifier s.identifier device_path_max ≡ some r)

abbrev pub AllNamed : List Source → Type 0
AllNamed [] = Unit
AllNamed (s ∷ l) = Named s × AllNamed l
