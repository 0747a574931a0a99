-- ===== src/Vidcap/Sapis/Exclusive.antt =====
-- A sapi has one holder at a time.
use Prim.Native.String.{String}
use libvidcap.Base.{
  ℕ, zero, suc, ◌≡◌, refl, sym, ap, ◌∙◌, inl, inr, Option, none, some, Option-cases, List, [], ◌∷◌,
  get_elem?, set, false, Bool-cases, eqb_ℤ, eqb_ℤ_iff, pos, negsuc, ◌+ℤ◌, ◌-ℤ◌, int32,
}
use libvidcap.Vidcap.Sapis.{
  SapiInfo, SapiContext, acquire, release, find_sapi, choose_sapi, take_sapi, sapi_acquire,
  sapi_release,
}

-- A sapi that was free, once it is held.
abbrev taken : SapiContext → SapiContext
taken sapi = record sapi { ref_count = pos 1 }

module _ {A : Type 0} where
  get_of_set :
      (l : List A) (i : ℕ) (a b : A) → get_elem? l i ≡ some a → get_elem? (set l i b) i ≡ some b
  get_of_set [] i a b h = cc
  get_of_set (x ∷ l) zero a b h = refl
  get_of_set (x ∷ l) (suc i) a b h = get_of_set l i a b h

  set_back : (l : List A) (i : ℕ) (a b : A) → get_elem? l i ≡ some a → set (set l i b) i a ≡ l
  set_back [] i a b h = refl
  set_back (x ∷ l) zero a b h = cc
  set_back (x ∷ l) (suc i) a b h = ap (λ t. x ∷ t) (set_back l i a b h)

find_taken :
    (name : String) (l : List SapiContext) (i : ℕ) (sapi : SapiContext)
    → get_elem? l i ≡ some sapi
    → find_sapi name (set l i (taken sapi)) ≡ find_sapi name l
unfolding find_sapi
find_taken name [] i sapi h = refl
find_taken name (x ∷ l) zero sapi h = let same : sapi.identifier ≡ x.identifier = cc in rw same refl
find_taken name (x ∷ l) (suc i) sapi h = rw (find_taken name l i sapi h) refl

choose_taken :
    (info : Option SapiInfo) (l : List SapiContext) (i : ℕ) (sapi : SapiContext)
    → get_elem? l i ≡ some sapi
    → choose_sapi info (set l i (taken sapi)) ≡ choose_sapi info l
unfolding choose_sapi
choose_taken none [] i sapi h = refl
choose_taken none (x ∷ l) zero sapi h = refl
choose_taken none (x ∷ l) (suc i) sapi h = refl
choose_taken (some info) l i sapi h = find_taken info.identifier l i sapi h

-- What a successful acquisition shows.
record Acquired (info : Option SapiInfo) (l l' : List SapiContext) (i : ℕ) : Type 0 where
  sapi : SapiContext
  chosen : choose_sapi info l ≡ some i
  there : get_elem? l i ≡ some sapi
  free : sapi.ref_count ≡ pos 0
  after : l' ≡ set l i (taken sapi)

acquire_free : (sapi : SapiContext) → sapi.ref_count ≡ pos 0 → acquire sapi ≡ (pos 0, taken sapi)
unfolding acquire int32 ◌+ℤ◌
acquire_free sapi z = rw z refl

acquire_held :
    (sapi : SapiContext) → eqb_ℤ sapi.ref_count (pos 0) ≡ false → acquire sapi ≡ (negsuc 0, sapi)
unfolding acquire
acquire_held sapi e = rw e refl

release_taken : (sapi : SapiContext) → sapi.ref_count ≡ pos 0 → release (taken sapi) ≡ (pos 0, sapi)
unfolding release int32 ◌-ℤ◌
release_taken sapi z = ap (λ c. (pos 0, record sapi { ref_count = c })) (sym z)

taken_lem :
    (info : Option SapiInfo) (l l' : List SapiContext) (i j : ℕ) (sapi : SapiContext)
    → choose_sapi info l ≡ some j
    → get_elem? l j ≡ some sapi
    → take_sapi j l (acquire sapi) ≡ (some i, l')
    → Acquired info l l' i
unfolding take_sapi
taken_lem info l l' i j sapi c g h = elim (Bool-cases (eqb_ℤ sapi.ref_count (pos 0))) [
  | inl e ↦
      let z : sapi.ref_count ≡ pos 0 = (eqb_ℤ_iff sapi.ref_count (pos 0)).0 e in
      let got : ◌≡◌ {A = Option ℕ × List SapiContext} (some j, set l j (taken sapi)) (some i, l') =
        rw (acquire_free sapi z) at h in
      let same : j ≡ i = cc in
      record { sapi = sapi; chosen = c ∙ ap some same; there = rw same at g; free = z; after = cc }
  | inr e ↦
      let got : ◌≡◌ {A = Option ℕ × List SapiContext} (none, l) (some i, l') =
        rw (acquire_held sapi e) at h in
      absurd (cc)
]

acquired_lem :
    (info : Option SapiInfo) (l l' : List SapiContext) (i : ℕ)
    → sapi_acquire info l ≡ (some i, l')
    → Acquired info l l' i
unfolding sapi_acquire
acquired_lem info l l' i h = elim (Option-cases (choose_sapi info l)) [
  | inl n ↦ absurd (none_chosen (rw (n, sapi_acquire) at h))
  | inr (j, c) ↦ elim (Option-cases (get_elem? l j)) [
    | inl n ↦ absurd (none_chosen (rw (c, n, sapi_acquire) at h))
    | inr (sapi, g) ↦ taken_lem info l l' i j sapi c g (rw (c, g, sapi_acquire) at h)
  ]
]
  where
    none_chosen : ◌≡◌ {A = Option ℕ × List SapiContext} (none, l) (some i, l') → ⊥
    none_chosen e = cc

-- After a sapi was acquired, the same request fails and changes nothing, until the sapi is
-- released: that returns 0 and gives back the list of sapis as it was before the acquisition.
pub sapi_acquire-sapi_release :
    (info : Option SapiInfo) (l l' : List SapiContext) (i : ℕ)
    → sapi_acquire info l ≡ (some i, l')
    → (sapi_acquire info l' ≡ (none, l')) × (sapi_release i l' ≡ some (pos 0, l))
unfolding sapi_acquire sapi_release take_sapi
sapi_acquire-sapi_release info l l' i h =
    let a = acquired_lem info l l' i h in
    let sapi = a.sapi in
    let held = set l i (taken sapi) in
    let chosen : choose_sapi info held ≡ some i = choose_taken info l i sapi a.there ∙ a.chosen in
    let there : get_elem? held i ≡ some (taken sapi) = get_of_set l i sapi (taken sapi) a.there in
    rw a.after (
      rw (chosen, sapi_acquire, there, acquire_held (taken sapi) refl) refl,
      rw (there, sapi_release, release_taken sapi a.free, set_back l i sapi (taken sapi) a.there)
          refl,
    )
