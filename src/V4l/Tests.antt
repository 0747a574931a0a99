-- ===== src/V4l/Tests.antt =====
-- Runs of the Video for Linux backend, and its theorems at concrete inputs.
use libvidcap.Base.{
  ◌≡◌, ◌≢◌, refl, arith, Bool, true, false, some, List, [], ◌∷◌, ℤ, pos, negsuc, int32,
}
use libvidcap.Format.{FmtInfo, fourcc_yuy2, fourcc_i420}
use libvidcap.V4l.Text.{Text, print_int, scan_int}
use libvidcap.V4l.Ident.{
  Source, device_path_max, device_source, parse_src_identifier, parse_src_identifier-device_source,
}
use libvidcap.V4l.SrcList.{
  AllNamed, on_device, src_list_src_match_next, src_list_device_match_next, append_matches,
  match_from,
}
use libvidcap.V4l.Scan.{V4lContext, Probe, not_opened, scan_sources, scan_paths}
use libvidcap.V4l.Scan.Paths.{device_paths, scan_sources-device_paths}
use libvidcap.V4l.Acquire.{Answers, Opened, source_acquire, acquire_chosen, source_release}
use libvidcap.V4l.Acquire.Exclusive.{source_acquire-exclusive, source_acquire-source_release}
use libvidcap.V4l.Capture.{Allowed, Round, Action, capture_thread_proc, capture_thread_proc-Allowed}
use libvidcap.Sapi.Convertible.{can_convert}
use libvidcap.V4l.Palette.{
  Palettes, Caps, map_fourcc_to_palette, map_palette_to_fourcc, source_format_validate, Accepted,
  source_format_validate-Accepted,
}

-- "a,0", "a,1" and "b,0": two channels of one device, and one of another.
abbrev a0 : Source
a0 = record { identifier = 97 ∷ 44 ∷ 48 ∷ []; description = [] }

abbrev a1 : Source
a1 = record { identifier = 97 ∷ 44 ∷ 49 ∷ []; description = [] }

abbrev b0 : Source
b0 = record { identifier = 98 ∷ 44 ∷ 48 ∷ []; description = [] }

abbrev path_a : Text
path_a = 97 ∷ []

abbrev path_b : Text
path_b = 98 ∷ []

a0_parsed : parse_src_identifier a0.identifier device_path_max ≡ some (path_a, pos 0)
unfolding parse_src_identifier scan_int int32
a0_parsed = refl

a1_parsed : parse_src_identifier a1.identifier device_path_max ≡ some (path_a, pos 1)
unfolding parse_src_identifier scan_int int32
a1_parsed = refl

b0_parsed : parse_src_identifier b0.identifier device_path_max ≡ some (98 ∷ [], pos 0)
unfolding parse_src_identifier scan_int int32
b0_parsed = refl

abbrev listed : V4lContext
listed = record { user_src_list = a0 ∷ a1 ∷ b0 ∷ []; acquired_src_list = [] }

listed-AllNamed : AllNamed listed.user_src_list
listed-AllNamed = ((_, a0_parsed), ((_, a1_parsed), ((_, b0_parsed), _)))

a_listed : on_device path_a listed.user_src_list ≢ []
unfolding parse_src_identifier scan_int int32
a_listed e = ground (arith, e)

abbrev answers : Answers
answers = record { calloc_ok = true; fd = pos 3; cap_ok = true; win_ok = true; pict_ok = true }

-- "a,0" is acquired, and with it "a,1".
abbrev acquired : V4lContext
acquired = record { user_src_list = a0 ∷ a1 ∷ b0 ∷ []; acquired_src_list = a0 ∷ a1 ∷ [] }

abbrev opened : Opened
opened = record { src_info = a0; fd = pos 3; device_path = path_a; channel = pos 0 }

abbrev no_device : Text → Probe
no_device path = not_opened

a0-acquired :
    source_acquire no_device listed (some a0) answers ≡ some (pos 0, acquired, some opened)
unfolding source_acquire acquire_chosen parse_src_identifier scan_int src_list_src_match_next
    src_list_device_match_next match_from append_matches int32
a0-acquired = refl

-- "b,0" is acquired after that.
abbrev both : V4lContext
both = record { user_src_list = a0 ∷ a1 ∷ b0 ∷ []; acquired_src_list = a0 ∷ a1 ∷ b0 ∷ [] }

abbrev opened_b : Opened
opened_b = record { src_info = b0; fd = pos 3; device_path = path_b; channel = pos 0 }

b0-acquired :
    source_acquire no_device acquired (some b0) answers ≡ some (pos 0, both, some opened_b)
unfolding source_acquire acquire_chosen parse_src_identifier scan_int src_list_src_match_next
    src_list_device_match_next match_from append_matches int32
b0-acquired = refl

source_acquire-exclusive_example :
    (path_a ≢ path_b)
    × ((other : Text)
        → path_a ≢ other
        → on_device other acquired.acquired_src_list ≡ on_device other [])
source_acquire-exclusive_example =
    source_acquire-exclusive no_device no_device listed acquired both (some a0) (some b0) answers
      answers opened opened_b _ listed-AllNamed a_listed a0-acquired b0-acquired

source_acquire-source_release_example :
    (ret : ℤ) × (source_release acquired opened true ≡ some (ret, listed))
source_acquire-source_release_example =
    source_acquire-source_release no_device listed acquired (some a0) answers opened true _
      listed-AllNamed a0-acquired

parse_src_identifier-device_source_example :
    parse_src_identifier (device_source path_a (negsuc 11) [] []).identifier device_path_max
    ≡ some (path_a, negsuc 11)
unfolding print_int
parse_src_identifier-device_source_example =
    parse_src_identifier-device_source path_a (negsuc 11) [] [] ((λ e. ground (arith, e)), _)
      (omega arith, omega arith) (omega arith)

scan_sources-device_paths_example :
    (r : ℤ × V4lContext) × (scan_sources no_device acquired ≡ some r)
    × (scan_paths no_device device_paths (record acquired { user_src_list = [] }) ≡ some r)
    × (r.1.acquired_src_list ≡ a0 ∷ a1 ∷ [])
scan_sources-device_paths_example =
    scan_sources-device_paths no_device acquired ((_, a0_parsed), ((_, a1_parsed), _))

abbrev good : Round
good = record { kickoff_ok = true; sync_ok = true }

capture_thread_proc-Allowed_example :
    (ret : ℤ) × (actions : List Action) × (capture_thread_proc 2 true true true true
        (good ∷ good ∷ good ∷ [])
      ≡ some (ret, actions))
    × Allowed [] actions
capture_thread_proc-Allowed_example =
    capture_thread_proc-Allowed 2 true true true true (good ∷ good ∷ good ∷ []) (omega arith)
      (omega arith)

-- The values of the system's header.
abbrev palettes : Palettes
palettes = record { yuv420p = 15; rgb24 = 4; yuyv = 8; uyvy = 9; rgb32 = 5; rgb555 = 6 }

abbrev caps : Caps
caps = record { minwidth = pos 48; maxwidth = pos 640; minheight = pos 32; maxheight = pos 480 }

abbrev i420_format : FmtInfo
i420_format = record {
  width = pos 320;
  height = pos 240;
  fourcc = fourcc_i420;
  fps_numerator = pos 30;
  fps_denominator = pos 1;
}

abbrev never : FmtInfo → FmtInfo → Bool
never f g = false

yuyv_accepted :
    source_format_validate palettes never caps 8 i420_format
    ≡ some (record i420_format { fourcc = fourcc_yuy2 })
unfolding source_format_validate map_fourcc_to_palette map_palette_to_fourcc can_convert
    libvidcap.Conv.Table.conversion_func_get
yuyv_accepted = refl

source_format_validate-Accepted_example :
    Accepted palettes caps 8 i420_format (record i420_format { fourcc = fourcc_yuy2 })
source_format_validate-Accepted_example =
    source_format_validate-Accepted palettes never caps 8 i420_format _ yuyv_accepted
