-- ===== src/V4l/Matches.antt =====
-- What the searches, the removal and the collecting loops of src/sapi_v4l.c come to.
use mathlib.Core.List.{append-nil, append_assoc}
use libvidcap.Base.{
  ℕ, zero, suc, ◌+◌, ◌-◌, ◌<◌, ◌≡◌, refl, sym, ap, ◌∙◌, arith, true, false, if◌then◌else◌, none,
  some, List, [], ◌∷◌, ◌++◌, length, take, drop, Bool-cases, inl, inr, ◌⊎◌, ℤ,
}
use libvidcap.V4l.Text.{Text}
use libvidcap.V4l.Ident.{Source, device_path_max, parse_src_identifier, same_text}
use libvidcap.V4l.Devices.{on_device-append, AllNamed-append, off_device-all}
use libvidcap.V4l.SrcList.{
  match_from, src_list_device_match_next, src_list_src_match_next, without_match, moved_down,
  src_list_src_remove, src_list_src_append, remove_all, append_matches, path_of, is_on, on_device,
  off_device, Named, AllNamed,
}

-- A search over `l`, from index `i` on, finds nothing, or the source at place `k` of it.
data Search (path : Text) (start i : ℕ) (l : List Source) : Type 0 where
  missing :
      (j : ℕ)
      → j ≡ i + length l
      → match_from path start i l ≡ (none, j)
      → on_device path l ≡ []
      → Search path start i l
  found :
      (k j : ℕ) (s : Source)
      → k < length l
      → j ≡ i + suc k
      → match_from path start i l ≡ (some s, j)
      → on_device path l ≡ s ∷ on_device path (drop (suc k) l)
      → on_device path (take k l) ≡ []
      → off_device path l ≡ off_device path (take k l ++ drop (suc k) l)
      → Search path start i l

path_of-parsed :
    (s : Source) (r : Text × ℤ)
    → parse_src_identifier s.identifier device_path_max ≡ some r
    → path_of s ≡ r.0
path_of-parsed s r e = rw (path_of, e) refl

match_from-Named :
    (path : Text) (start i : ℕ) (s : Source) (l : List Source)
    → Named s
    → match_from path start i (s ∷ l)
      ≡ (if is_on path s then (some s, suc i) else match_from path start (suc i) l)
unfolding match_from
match_from-Named path start i s l (r, e) =
    rw (match_from, e)
      (ap
        (λ (p : Text).
          if same_text p path then (some s, suc i) else match_from path start (suc i) l)
        (sym (path_of-parsed s r e)))

match_from-here :
    (path : Text) (start i : ℕ) (s : Source) (l : List Source)
    → Named s
    → is_on path s ≡ true
    → match_from path start i (s ∷ l) ≡ (some s, suc i)
match_from-here path start i s l n h = match_from-Named path start i s l n ∙ (rw h refl)

match_from-past :
    (path : Text) (start i : ℕ) (s : Source) (l : List Source)
    → Named s
    → is_on path s ≡ false
    → match_from path start i (s ∷ l) ≡ match_from path start (suc i) l
match_from-past path start i s l n h = match_from-Named path start i s l n ∙ (rw h refl)

search : (path : Text) (start i : ℕ) (l : List Source) → AllNamed l → Search path start i l
unfolding match_from
search path start i [] named = missing i (omega arith) refl refl
search path start i (s ∷ l) (named, rest) = elim (Bool-cases (is_on path s)) [
  | inl here ↦
      found 0 (suc i) s (omega arith) (omega arith) (match_from-here path start i s l named here)
        (rw here refl) refl (rw here refl)
  | inr not_here ↦
      let past = match_from-past path start i s l named not_here in
      elim (search path start (suc i) l rest) [
        | missing j at_end e none_on ↦ missing j (omega arith) (past ∙ e) (rw not_here none_on)
        | found k j t h at_place e first before others ↦
            found (suc k) j t (omega arith) (omega arith) (past ∙ e) (rw not_here first)
              (rw not_here before) (rw not_here (ap (λ r. s ∷ r) others))
      ]
]

AllNamed-take : (k : ℕ) (l : List Source) → AllNamed l → AllNamed (take k l)
AllNamed-take zero l h = _
AllNamed-take (suc k) [] h = _
AllNamed-take (suc k) (s ∷ l) (h, hs) = (h, AllNamed-take k l hs)

AllNamed-drop : (k : ℕ) (l : List Source) → AllNamed l → AllNamed (drop k l)
AllNamed-drop zero l h = h
AllNamed-drop (suc k) [] h = _
AllNamed-drop (suc k) (s ∷ l) (h, hs) = AllNamed-drop k l hs

drop-nil : {A : Type 0} (n : ℕ) → drop {A = A} n [] ≡ []
drop-nil zero = refl
drop-nil (suc n) = refl

drop-drop : {A : Type 0} (a b : ℕ) (l : List A) → drop (a + b) l ≡ drop b (drop a l)
drop-drop zero b l = ap (λ k. drop k l) (omega arith)
drop-drop (suc a) b [] = drop-nil (suc a + b) ∙ sym (drop-nil b)
drop-drop (suc a) b (x ∷ l) =
    let sum : suc a + b ≡ suc (a + b) = omega arith in
    ap (λ k. drop k (x ∷ l)) sum ∙ drop-drop a b l

module _ (path : Text) (from : List Source) where
  append_matches-missing :
      (fuel index j : ℕ) (to : List Source)
      → src_list_device_match_next from path index ≡ (none, j)
      → append_matches (suc fuel) from path index to ≡ some to
  unfolding append_matches
  append_matches-missing fuel index j to e = rw (append_matches, e) refl

  append_matches-found :
      (fuel index j : ℕ) (s : Source) (to : List Source)
      → src_list_device_match_next from path index ≡ (some s, j)
      → append_matches (suc fuel) from path index to
        ≡ append_matches fuel from path j (src_list_src_append to s)
  unfolding append_matches
  append_matches-found fuel index j s to e =
      rw (append_matches, e)
        (ap (λ i. append_matches fuel from path i (src_list_src_append to s)) (ap (λ r. r.1) e))

module _ (path : Text) (from : List Source) (named : AllNamed from) where
  -- With fuel for every match and one more round, the loop appends all the matches, in order.
  pub append_matches_lem :
      (fuel index : ℕ) (to : List Source)
      → length (on_device path (drop index from)) < fuel
      → append_matches fuel from path index to ≡ some (to ++ on_device path (drop index from))
  unfolding src_list_device_match_next
  append_matches_lem zero index to h = elim h [ ]
  append_matches_lem (suc fuel) index to h =
      let here = drop index from in
      elim (search path index index here (AllNamed-drop index from named)) [
        | missing j at_end e none_on ↦
            append_matches-missing path from fuel index j to e
            ∙ ap some (sym (ap (λ m. to ++ m) none_on ∙ append-nil to))
        | found k j s inside place e first before others ↦
            let next : drop j from ≡ drop (suc k) here =
              ap (λ i. drop i from) place ∙ drop-drop index (suc k) from in
            let fewer : length (on_device path (drop j from)) < fuel =
              rw next (omega (arith, h, ap length first)) in
            append_matches-found path from fuel index j s to e
            ∙ append_matches_lem fuel j (src_list_src_append to s) fewer
            ∙ ap some (
                append_assoc to (s ∷ []) (on_device path (drop j from))
                ∙ ap (λ m. to ++ (s ∷ on_device path m)) next
                ∙ ap (λ m. to ++ m) (sym first))
      ]

module _ (path : Text) (channel : ℤ) (info : Source)
    (parsed : parse_src_identifier info.identifier device_path_max ≡ some (path, channel)) where
  remove-by_match :
      (l : List Source) → src_list_src_remove l info ≡ without_match l (match_from path 0 0 l)
  unfolding src_list_src_remove src_list_src_match_next src_list_device_match_next
  remove-by_match l = rw (src_list_src_match_next, parsed) refl

  remove_all-missing :
      (fuel : ℕ) (l : List Source)
      → src_list_src_remove l info ≡ none
      → remove_all (suc fuel) l info ≡ some l
  unfolding remove_all
  remove_all-missing fuel l e = rw (remove_all, e) refl

  remove_all-found :
      (fuel : ℕ) (l m : List Source)
      → src_list_src_remove l info ≡ some m
      → remove_all (suc fuel) l info ≡ remove_all fuel m info
  unfolding remove_all
  remove_all-found fuel l m e = rw (remove_all, e) refl

  -- With fuel for every match and one more round, the loop ends, and has removed all the matches.
  pub remove_all_lem :
      (fuel : ℕ) (l : List Source)
      → AllNamed l
      → length (on_device path l) < fuel
      → remove_all fuel l info ≡ some (off_device path l)
  remove_all_lem zero l named h = elim h [ ]
  remove_all_lem (suc fuel) l named h = elim (search path 0 0 l named) [
    | missing j at_end e none_on ↦
        remove_all-missing fuel l (remove-by_match l ∙ ap (without_match l) e)
        ∙ ap some (sym (off_device-all path l none_on))
    | found k j s inside place e first before others ↦
        let m = take k l ++ drop (suc k) l in
        let at_k : j - 1 ≡ k = omega arith in
        let at_next : j ≡ suc k = omega arith in
        let shorter : moved_down l j ≡ m =
          ap (λ i. take i l ++ drop j l) at_k ∙ ap (λ i. take k l ++ drop i l) at_next in
        let rest_on : on_device path m ≡ on_device path (drop (suc k) l) =
          on_device-append path (take k l) (drop (suc k) l)
          ∙ ap (λ r. r ++ on_device path (drop (suc k) l)) before in
        let fewer : length (on_device path m) < fuel =
          omega (arith, h, ap length first, ap length rest_on) in
        remove_all-found fuel l m (remove-by_match l ∙ ap (without_match l) e ∙ ap some shorter)
        ∙ remove_all_lem fuel m
            (AllNamed-append (take k l) (drop (suc k) l) (AllNamed-take k l named)
              (AllNamed-drop (suc k) l named))
            fewer
        ∙ ap some (sym others)
  ]

  -- Whether there is a match in a list, from its beginning.
  pub match-first :
      (l : List Source)
      → AllNamed l
      → (((src_list_src_match_next l info 0).0 ≡ none) × (on_device path l ≡ []))
        ⊎ ((s : Source) × (rest : List Source) × ((src_list_src_match_next l info 0).0 ≡ some s)
            × (on_device path l ≡ s ∷ rest))
  unfolding src_list_src_match_next src_list_device_match_next
  match-first l named = elim (search path 0 0 l named) [
    | missing j at_end e none_on ↦
        inl (rw (src_list_src_match_next, parsed) (ap (λ r. r.0) e), none_on)
    | found k j s inside place e first before others ↦
        inr (s, _, rw (src_list_src_match_next, parsed) (ap (λ r. r.0) e), first)
  ]
