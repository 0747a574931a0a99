-- ===== src/V4l/Scan/Paths.antt =====
-- The rounds of `scan_sources` of src/sapi_v4l.c: one for each device path.
use libvidcap.Base.{
  ℕ, zero, suc, ◌+◌, ◌-◌, ◌*◌, ◌/◌, ◌%◌, ◌<◌, ◌≡◌, refl, ap, ◌∙◌, arith, true, false, leb, ◌==◌,
  none, some, List, [], ◌∷◌, ◌++◌, length, drop, ℤ, pos, negsuc, ltb_ℤ, Bool-cases, Option-cases,
  inl, inr,
}
use libvidcap.V4l.Text.{Text, print_int}
use libvidcap.V4l.SrcList.{on_device, AllNamed}
use libvidcap.V4l.Matches.{append_matches_lem}
use libvidcap.V4l.Devices.{length-on_device}
use libvidcap.V4l.Scan.{
  V4lContext, Probe, device_prefix, device_num_max, device_path_generate, src_list_device_scan,
  scanned, scan_path, scan_loop, scan_sources, scan_paths,
}

-- The paths of the devices from number `n` on, `left` of them.
abbrev numbered : ℕ → ℕ → List Text
numbered zero n = []
numbered (suc left) n =
    (device_prefix ++ print_int (pos n))
    ∷ (device_prefix ++ 47 ∷ print_int (pos n))
    ∷ numbered left (suc n)

-- "/dev/video", and for each number below 16 "/dev/video<n>" and "/dev/video/<n>".
abbrev pub device_paths : List Text
device_paths = device_prefix ∷ numbered device_num_max 0

module _ (probe : Text → Probe) where
  -- A path at the front of the list is a round of the loop.
  loop_step :
      (fuel state next : ℕ) (p : Text) (l : List Text)
      → device_path_generate state ≡ some (p, next)
      → ((ctx : V4lContext) → scan_loop probe fuel next ctx ≡ scan_paths probe l ctx)
      → (ctx : V4lContext) → scan_loop probe (suc fuel) state ctx ≡ scan_paths probe (p ∷ l) ctx
  unfolding scan_loop scan_paths
  loop_step fuel state next p l e same ctx = elim (Option-cases (scan_path probe ctx p)) [
    | inl stuck ↦ rw (scan_loop, e, scan_paths, stuck) refl
    | inr (r, done) ↦ rw (scan_loop, e, scan_paths, done, same r.1) refl
  ]

  loop_end :
      (fuel state : ℕ)
      → device_path_generate state ≡ none
      → (ctx : V4lContext) → scan_loop probe (suc fuel) state ctx ≡ scan_paths probe [] ctx
  unfolding scan_loop scan_paths
  loop_end fuel state e ctx = rw (scan_loop, e) refl

generate_zero : device_path_generate 0 ≡ some (device_prefix, 1)
unfolding device_path_generate
generate_zero = refl

generate_odd :
    (n : ℕ)
    → n < device_num_max
    → device_path_generate (2 * n + 1) ≡ some (device_prefix ++ print_int (pos n), 2 * n + 2)
unfolding device_path_generate
generate_odd n h =
    let number : (2 * n + 1 - 1) / 2 ≡ n = omega arith in
    let not_zero : (2 * n + 1 == 0) ≡ false = ground arith in
    let below : leb device_num_max n ≡ false = ground (arith, h) in
    let odd : ((2 * n + 1) % 2 == 0) ≡ false = ground arith in
    let next : 2 * n + 1 + 1 ≡ 2 * n + 2 = omega arith in
    rw (number, not_zero, below, odd, next) refl

generate_even :
    (n : ℕ)
    → n < device_num_max
    → device_path_generate (2 * n + 2)
      ≡ some (device_prefix ++ 47 ∷ print_int (pos n), 2 * suc n + 1)
unfolding device_path_generate
generate_even n h =
    let number : (2 * n + 2 - 1) / 2 ≡ n = omega arith in
    let not_zero : (2 * n + 2 == 0) ≡ false = ground arith in
    let below : leb device_num_max n ≡ false = ground (arith, h) in
    let even : ((2 * n + 2) % 2 == 0) ≡ true = ground arith in
    let next : 2 * n + 2 + 1 ≡ 2 * suc n + 1 = omega arith in
    rw (number, not_zero, below, even, next) refl

generate_end : device_path_generate (2 * device_num_max + 1) ≡ none
unfolding device_path_generate
generate_end = refl

module _ (probe : Text → Probe) where
  loop_numbered :
      (left n fuel : ℕ)
      → n + left ≡ device_num_max
      → fuel ≡ 2 * left + 1
      → (ctx : V4lContext)
      → scan_loop probe fuel (2 * n + 1) ctx ≡ scan_paths probe (numbered left n) ctx
  loop_numbered zero n fuel e f ctx =
      let last : 2 * n + 1 ≡ 2 * device_num_max + 1 = omega arith in
      let one : fuel ≡ 1 = omega arith in
      rw (one, last) (loop_end probe 0 (2 * device_num_max + 1) generate_end ctx)
  loop_numbered (suc left) n fuel e f ctx =
      let more : fuel ≡ suc (suc (2 * left + 1)) = omega arith in
      rw more (
        loop_step probe (suc (2 * left + 1)) (2 * n + 1) (2 * n + 2) _ _
          (generate_odd n (omega arith))
          (loop_step probe (2 * left + 1) (2 * n + 2) (2 * suc n + 1) _ _
            (generate_even n (omega arith))
            (loop_numbered left (suc n) (2 * left + 1) (omega arith) refl))
          ctx)

  loop_paths : (ctx : V4lContext) → scan_loop probe 34 0 ctx ≡ scan_paths probe device_paths ctx
  loop_paths ctx =
      loop_step probe 33 0 1 device_prefix (numbered device_num_max 0) generate_zero
        (loop_numbered device_num_max 0 33 refl refl) ctx

  -- With parsable acquired sources a round ends, and does not change them.
  path_ends :
      (ctx : V4lContext) (p : Text)
      → AllNamed ctx.acquired_src_list
      → (r : ℤ × V4lContext) × (scan_path probe ctx p ≡ some r)
        × (r.1.acquired_src_list ≡ ctx.acquired_src_list)
  unfolding scan_path
  path_ends ctx p named =
      let l = ctx.acquired_src_list in
      let ran =
        append_matches_lem p l named (suc (length l)) 0 ctx.user_src_list
          (omega (arith, length-on_device p l)) in
      let s = src_list_device_scan (ctx.user_src_list ++ on_device p (drop 0 l)) p (probe p) in
      ((s.0, record ctx { user_src_list = s.1 }), ap (scanned probe ctx p) ran, refl)

  scan_paths-failed :
      (p : Text) (l : List Text) (ctx : V4lContext) (r : ℤ × V4lContext)
      → scan_path probe ctx p ≡ some r
      → ltb_ℤ r.0 (pos 0) ≡ true
      → scan_paths probe (p ∷ l) ctx ≡ some (negsuc 0, r.1)
  unfolding scan_paths
  scan_paths-failed p l ctx r e failed = rw (scan_paths, e, failed) refl

  scan_paths-ok :
      (p : Text) (l : List Text) (ctx : V4lContext) (r : ℤ × V4lContext)
      → scan_path probe ctx p ≡ some r
      → ltb_ℤ r.0 (pos 0) ≡ false
      → scan_paths probe (p ∷ l) ctx ≡ scan_paths probe l r.1
  unfolding scan_paths
  scan_paths-ok p l ctx r e ok = rw (scan_paths, e, ok) refl

  paths_end :
      (l : List Text) (ctx : V4lContext)
      → AllNamed ctx.acquired_src_list
      → (r : ℤ × V4lContext) × (scan_paths probe l ctx ≡ some r)
        × (r.1.acquired_src_list ≡ ctx.acquired_src_list)
  unfolding scan_paths
  paths_end [] ctx named = (_, refl, refl)
  paths_end (p ∷ l) ctx named =
      let (r, ran, same) = path_ends ctx p named in
      let (r', ran', same') = paths_end l r.1 (rw same named) in
      elim (Bool-cases (ltb_ℤ r.0 (pos 0))) [
        | inl failed ↦ ((negsuc 0, r.1), scan_paths-failed p l ctx r ran failed, same)
        | inr ok ↦ (r', scan_paths-ok p l ctx r ran ok ∙ ran', same' ∙ same)
      ]

-- The scan ends: it makes a round for each of the 33 device paths, in their order, until a device
-- fails, and leaves the acquired sources as they are, if these have identifiers that can be parsed.
pub scan_sources-device_paths :
    (probe : Text → Probe) (ctx : V4lContext)
    → AllNamed ctx.acquired_src_list
    → (r : ℤ × V4lContext) × (scan_sources probe ctx ≡ some r)
      × (scan_paths probe device_paths (record ctx { user_src_list = [] }) ≡ some r)
      × (r.1.acquired_src_list ≡ ctx.acquired_src_list)
unfolding scan_sources
scan_sources-device_paths probe ctx named =
    let (r, ran, same) = paths_end probe device_paths (record ctx { user_src_list = [] }) named in
    (r, loop_paths probe (record ctx { user_src_list = [] }) ∙ ran, ran, same)
