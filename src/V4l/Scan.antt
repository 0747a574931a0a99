-- ===== src/V4l/Scan.antt =====
-- `device_path_generate`, `src_list_device_scan` and `scan_sources` of src/sapi_v4l.c. What the
-- system answers for a device is a parameter. `realloc` is taken to succeed.
pub mod Paths
use libvidcap.Base.{
  ℕ, zero, suc, ◌+◌, ◌-◌, ◌*◌, ◌/◌, ◌%◌, ◌<◌, ◌≤◌, ◌≡◌, refl, sym, ap, ◌∙◌, arith, Bool, true,
  false, if◌then◌else◌, leb, ◌==◌, Option, none, some, List, [], ◌∷◌, ◌++◌, length, drop, map, ℤ,
  pos, negsuc, ltb_ℤ, Bool-cases, Option-cases, inl, inr,
}
use libvidcap.V4l.Text.{Text, print_int}
use libvidcap.V4l.Ident.{Source, device_source}
use libvidcap.V4l.SrcList.{src_list_src_append, append_matches, on_device, AllNamed}
use libvidcap.V4l.Matches.{append_matches_lem}
use libvidcap.V4l.Devices.{length-on_device}

-- The part of `struct sapi_v4l_context`, and of its `sapi_context`, that acquisition reads.
pub record V4lContext : Type 0 where
  pub user_src_list : List Source
  pub acquired_src_list : List Source

-- `struct video_channel`
pub record Channel : Type 0 where
  pub channel : ℤ
  pub name : Text

-- What `open`, VIDIOCGCAP and, for each channel, VIDIOCGCHAN answer for a device.
pub data Probe : Type 0 where
  not_opened : Probe
  no_caps : Probe
  has_caps : Bool → Text → List (Option Channel) → Probe

-- "/dev/video"
abbrev pub device_prefix : Text
device_prefix = 47 ∷ 100 ∷ 101 ∷ 118 ∷ 47 ∷ 118 ∷ 105 ∷ 100 ∷ 101 ∷ 111 ∷ []

-- `device_num_max`
abbrev pub device_num_max : ℕ
device_num_max = 16

-- `device_path_generate`: the path, and the next state; `none` is 0. For a state of 0 the number
-- is not read.
unfoldable pub device_path_generate : ℕ → Option (Text × ℕ)
device_path_generate state =
    let device_num = (state - 1) / 2 in
    if state == 0
    then some (device_prefix, state + 1)
    else if leb device_num_max device_num
    then none
    else if state % 2 == 0
    then some (device_prefix ++ 47 ∷ print_int (pos device_num), state + 1)
    else some (device_prefix ++ print_int (pos device_num), state + 1)

-- The loop over the channels. A channel that VIDIOCGCHAN fails for is passed over.
unfoldable pub append_channels : Text → Text → List (Option Channel) → List Source → List Source
append_channels path name [] src_list = src_list
append_channels path name (none ∷ l) src_list = append_channels path name l src_list
append_channels path name (some c ∷ l) src_list =
    append_channels path name l
      (src_list_src_append src_list (device_source path c.channel name c.name))

-- `src_list_device_scan`
unfoldable pub src_list_device_scan : List Source → Text → Probe → ℤ × List Source
src_list_device_scan src_list device_path not_opened = (pos 1, src_list)
src_list_device_scan src_list device_path no_caps = (negsuc 0, src_list)
src_list_device_scan src_list device_path (has_caps is_capture name channels) =
    if is_capture
    then (pos 0, append_channels device_path name channels src_list)
    else (negsuc 0, src_list)

module _ (probe : Text → Probe) where
  -- One round of the loop: the acquired sources of the device, and then the device itself. The test
  -- of `acquired_src_info` is after a loop that ends when it is null, so it always holds.
  abbrev pub scanned : V4lContext → Text → Option (List Source) → Option (ℤ × V4lContext)
  scanned ctx path none = none
  scanned ctx path (some l) =
      let (ret, l') = src_list_device_scan l path (probe path) in
      some (ret, record ctx { user_src_list = l' })

  unfoldable pub scan_path : V4lContext → Text → Option (ℤ × V4lContext)
  scan_path ctx path =
      let acquired = ctx.acquired_src_list in
      scanned ctx path (append_matches (suc (length acquired)) acquired path 0 ctx.user_src_list)

  -- The loop of `scan_sources`, for at most `fuel` rounds; `none` is a loop that goes on.
  unfoldable pub scan_loop : ℕ → ℕ → V4lContext → Option (ℤ × V4lContext)
  scan_loop zero state ctx = none
  scan_loop (suc fuel) state ctx = elim (device_path_generate state) [
    | none ↦ some (pos (length ctx.user_src_list), ctx)
    | some g ↦ elim (scan_path ctx g.0) [
      | none ↦ none
      | some r ↦ if ltb_ℤ r.0 (pos 0) then some (negsuc 0, r.1) else scan_loop fuel g.1 r.1
    ]
  ]

  -- `scan_sources` into `user_src_list`, which every caller passes.
  unfoldable pub scan_sources : V4lContext → Option (ℤ × V4lContext)
  scan_sources ctx = scan_loop 34 0 (record ctx { user_src_list = [] })

  -- The same over a list of paths.
  unfoldable pub scan_paths : List Text → V4lContext → Option (ℤ × V4lContext)
  scan_paths [] ctx = some (pos (length ctx.user_src_list), ctx)
  scan_paths (p ∷ l) ctx = elim (scan_path ctx p) [
    | none ↦ none
    | some r ↦
        let rest = scan_paths l r.1 in if ltb_ℤ r.0 (pos 0) then some (negsuc 0, r.1) else rest
  ]
