-- ===== src/Vidcap/Init.antt =====
-- `vidcap_initialize`, `vidcap_destroy` and `vidcap_log_level_set` of src/vidcap.c. The
-- initializers of the backends are a parameter, a list as long as the array without its 0; the
-- answers of `calloc` are parameters, and `live` counts the blocks that are allocated.
use libvidcap.Base.{
  ℕ, zero, suc, ◌+◌, ◌-◌, ◌<◌, ◌^◌, ◌≡◌, refl, ap, ◌∙◌, arith, Bool, true, false, not, Option, none,
  some, List, [], ◌∷◌, if◌then◌else◌, eqb_ℤ, ℤ, pos, negsuc, pos_part, int32, ◌-ℤ◌, int32_lem,
}
use libvidcap.Vidcap.Sapis.{SapiContext, release}

-- What a backend's initializer makes of a blank context: what it returns, and the context.
abbrev pub Initializer : Type 0
Initializer = SapiContext → ℤ × SapiContext

-- A context of `calloc`. Its null texts are empty here.
abbrev pub blank_sapi : SapiContext
blank_sapi = record {
  identifier = "";
  description = "";
  ref_count = pos 0;
  notify_callback = none;
  notify_data = pos 0;
  user_src_list = [];
}

-- The loop of `vidcap_initialize`; `none` is a failure.
unfoldable pub initialize_all : List Initializer → Option (List SapiContext)
initialize_all [] = some []
initialize_all (f ∷ l) =
    let rest = initialize_all l in
    if eqb_ℤ (f blank_sapi).0 (pos 0)
    then elim rest [ none ↦ none | some sapis ↦ some ((f blank_sapi).1 ∷ sapis) ]
    else none

-- `vidcap_initialize`: the list of sapis, or `none` for a null pointer, and the blocks that are
-- allocated then. Without memory for the list, the context is not freed.
unfoldable pub vidcap_initialize :
    List Initializer → Bool → Bool → ℕ → Option (List SapiContext) × ℕ
vidcap_initialize initializers vcc_ok list_ok live =
    if not vcc_ok
    then (none, live)
    else if not list_ok
    then (none, live + 1)
    else elim (initialize_all initializers) [
      | none ↦ (none, live)
      | some sapis ↦ (some sapis, live + 2)
    ]

-- `while ( sapi_ctx->ref_count ) sapi_ctx->release(sapi_ctx)`, for at most `fuel` rounds; `none` is a
-- loop that goes on.
unfoldable pub release_loop : ℕ → SapiContext → Option SapiContext
release_loop zero sapi = none
release_loop (suc fuel) sapi =
    let rest = release_loop fuel (release sapi).1 in
    if eqb_ℤ sapi.ref_count (pos 0) then some sapi else rest

-- The loop over the sapis: each as it is when its `destroy` is called.
unfoldable pub destroy_all : List SapiContext → Option (List SapiContext)
destroy_all [] = some []
destroy_all (sapi ∷ l) = elim (release_loop (suc (pos_part sapi.ref_count)) sapi) [
  | none ↦ none
  | some idle ↦ elim (destroy_all l) [ none ↦ none | some rest ↦ some (idle ∷ rest) ]
]

-- `vidcap_destroy`: the sapis that were destroyed, and the blocks that are left.
unfoldable pub vidcap_destroy : List SapiContext → ℕ → Option (List SapiContext × ℕ)
vidcap_destroy sapis live = elim (destroy_all sapis) [
  | none ↦ none
  | some destroyed ↦ some (destroyed, live - 2)
]

-- `vidcap_log_level_set`: what it returns, and the level that logging is set to, if it is.
unfoldable pub log_level_set : ℤ → ℤ × Option ℕ
log_level_set level =
    if eqb_ℤ level (pos 0)
    then (pos 0, some 0)
    else if eqb_ℤ level (pos 10)
    then (pos 0, some 1)
    else if eqb_ℤ level (pos 20)
    then (pos 0, some 2)
    else if eqb_ℤ level (pos 30)
    then (pos 0, some 3)
    else if eqb_ℤ level (pos 40)
    then (pos 0, some 4)
    else (negsuc 0, none)

-- The reference count is a natural number that fits an `int`.
abbrev pub Counted : List SapiContext → Type 0
Counted [] = Unit
Counted (sapi ∷ l) = ((n : ℕ) × (sapi.ref_count ≡ pos n) × (n < 2 ^ 31)) × Counted l

abbrev released_once : ℕ → SapiContext → SapiContext
released_once n sapi = record sapi { ref_count = pos n }

one_less : (n : ℕ) → pos (suc n) -ℤ pos 1 ≡ pos n
unfolding ◌-ℤ◌
one_less n = ground arith

release_lem :
    (sapi : SapiContext) (n : ℕ)
    → sapi.ref_count ≡ pos (suc n)
    → suc n < 2 ^ 31
    → (release sapi).1 ≡ released_once n sapi
unfolding release
release_lem sapi n e h =
    let held : eqb_ℤ sapi.ref_count (pos 0) ≡ false = ground (arith, e) in
    let count : int32 (sapi.ref_count -ℤ pos 1) ≡ pos n =
      ap (λ (a : ℤ). int32 (a -ℤ pos 1)) e
      ∙ ap int32 (one_less n)
      ∙ int32_lem (pos n) (omega arith) in
    rw (held, count) refl

abbrev pub idle : SapiContext → SapiContext
idle sapi = record sapi { ref_count = pos 0 }

release_loop_lem :
    (n fuel : ℕ) (sapi : SapiContext)
    → sapi.ref_count ≡ pos n
    → n < 2 ^ 31
    → n < fuel
    → release_loop fuel sapi ≡ some (idle sapi)
unfolding release_loop
release_loop_lem n zero sapi e h k = elim k [ ]
release_loop_lem zero (suc fuel) sapi e h k =
    let done : eqb_ℤ sapi.ref_count (pos 0) ≡ true = ground (arith, e) in
    rw done (ap (λ (a : ℤ). some (record sapi { ref_count = a })) e)
release_loop_lem (suc n) (suc fuel) sapi e h k =
    let held : eqb_ℤ sapi.ref_count (pos 0) ≡ false = ground (arith, e) in
    rw (held, release_lem sapi n e h)
      (release_loop_lem n fuel (released_once n sapi) refl (omega arith) (omega arith))

-- The sapis of `sapis`, none of them acquired any more.
abbrev pub all_idle : List SapiContext → List SapiContext
all_idle [] = []
all_idle (sapi ∷ l) = idle sapi ∷ all_idle l

destroy_all_lem :
    (sapis : List SapiContext) → Counted sapis → destroy_all sapis ≡ some (all_idle sapis)
unfolding destroy_all
destroy_all_lem [] h = refl
destroy_all_lem (sapi ∷ l) ((n, e, small), rest) =
    let enough : n < suc (pos_part sapi.ref_count) = omega (arith, ap pos_part e) in
    let released = release_loop_lem n (suc (pos_part sapi.ref_count)) sapi e small enough in
    rw (destroy_all, released, destroy_all_lem l rest) refl

-- Where every reference count is a natural number below 2^31, destroying the library ends, however
-- often each sapi is acquired: each sapi's `destroy` is called once, in their order, when it is not
-- acquired any more; the two blocks of `vidcap_initialize` are freed.
pub vidcap_destroy_lem :
    (sapis : List SapiContext) (live : ℕ)
    → Counted sapis
    → vidcap_destroy sapis (live + 2) ≡ some (all_idle sapis, live)
unfolding vidcap_destroy
vidcap_destroy_lem sapis live h =
    let freed : live + 2 - 2 ≡ live = omega arith in
    rw (vidcap_destroy, destroy_all_lem sapis h, freed) refl
