-- ===== src/Qt/Sources.antt =====
-- src/quicktime/sg_manager.c: the list of sources, which is made once, and the searches in it. The
-- answers of the sequence grabber are parameters.
use Prim.Native.String.{String}
use libvidcap.Base.{
  ℕ, zero, suc, ◌+◌, ◌-◌, ◌≡◌, refl, Bool, true, false, not, ◌&&◌, Bool-cases, inl, inr,
  if◌then◌else◌, Option, none, some, List, [], ◌∷◌, ◌++◌, length, get_elem?, ℤ, pos, negsuc, eqb_ℤ,
  ltb_ℤ,
}

-- The part of `struct sg_source` that tells sources apart.
pub record QtSource : Type 0 where
  pub device_id : ℤ
  pub input_id : ℤ
  pub device_name : String
  pub input_name : String
  pub acquired : Bool

-- A device of the list: its name, and the names of its inputs, if it has a list of them.
pub record Device : Type 0 where
  pub name : String
  pub inputs : Option (List String)

-- `struct sg_manager`, with a null pointer as `none`.
pub record SgManager : Type 0 where
  pub source_list_len : ℕ
  pub source_list : Option (List QtSource)

-- What `sg_source_acquire` returns for the anonymous source, and whether the other calls succeed.
pub record ManagerAnswers : Type 0 where
  pub acquire_ret : ℤ
  pub device_list : Option (List Device)
  pub calloc_ok : Bool
  pub dispose_ok : Bool
  pub release_ok : Bool

-- `sg_source_init`
abbrev pub sg_source_init : ℕ → ℕ → String → String → QtSource
sg_source_init device_id input_id device_name input_name = record {
  device_id = pos device_id;
  input_id = pos input_id;
  device_name = device_name;
  input_name = input_name;
  acquired = false;
}

-- The two loops over devices and inputs.
unfoldable pub inputs_from : ℕ → ℕ → String → List String → List QtSource
inputs_from i j name [] = []
inputs_from i j name (input ∷ l) = sg_source_init i j name input ∷ inputs_from i (suc j) name l

unfoldable pub sources_from : ℕ → List Device → List QtSource
sources_from i [] = []
sources_from i (d ∷ l) =
    let rest = sources_from (suc i) l in
    elim (d.inputs) [ none ↦ rest | some inputs ↦ inputs_from i 0 d.name inputs ++ rest ]

-- A place of `calloc`.
abbrev zeroed_source : QtSource
zeroed_source = record {
  device_id = pos 0;
  input_id = pos 0;
  device_name = "";
  input_name = "";
  acquired = false;
}

unfoldable pub zeroed_sources : ℕ → List QtSource
zeroed_sources zero = []
zeroed_sources (suc n) = zeroed_source ∷ zeroed_sources n

-- With a list of devices. The length is added to the old one, which a failed `calloc` leaves.
unfoldable pub manager_fill : SgManager → ManagerAnswers → List Device → ℤ × SgManager
manager_fill mgr a devices =
    let sources = sources_from 0 devices in
    let len = mgr.source_list_len + length sources in
    if not a.calloc_ok then (negsuc 0, record mgr { source_list_len = len }) else (
      if a.dispose_ok && a.release_ok then pos 0 else negsuc 0,
      record {
        source_list_len = len;
        source_list = some (sources ++ zeroed_sources (len - length sources));
      },
    )

-- `sg_manager_update`; a list that is there is kept.
unfoldable pub sg_manager_update : SgManager → ManagerAnswers → ℤ × SgManager
sg_manager_update mgr a = elim (mgr.source_list) [
  | some l ↦ (pos 0, mgr)
  | none ↦
      if ltb_ℤ a.acquire_ret (pos 0)
      then (negsuc 0, mgr)
      else if not (eqb_ℤ a.acquire_ret (pos 0))
      then (pos 0, mgr)
      else elim (a.device_list) [
        | none ↦ (negsuc 0, mgr)
        | some devices ↦ manager_fill mgr a devices
      ]
]

-- `sg_source_match`
abbrev pub sg_source_match : QtSource → ℤ → ℤ → Bool
sg_source_match src device_id input_id =
    eqb_ℤ device_id src.device_id && eqb_ℤ input_id src.input_id

abbrev one_later : Option ℕ → Option ℕ
one_later none = none
one_later (some i) = some (suc i)

-- The loop of `sg_manager_source_find`: the index of the source.
unfoldable pub source_find : List QtSource → ℤ → ℤ → Option ℕ
source_find [] device_id input_id = none
source_find (src ∷ l) device_id input_id =
    let rest = source_find l device_id input_id in
    if sg_source_match src device_id input_id then some 0 else one_later rest

-- The loop of `sg_manager_source_default_find`
unfoldable pub source_default_find : List QtSource → Option ℕ
source_default_find [] = none
source_default_find (src ∷ l) =
    let rest = source_default_find l in if not src.acquired then some 0 else one_later rest

-- At the index, if there is one, stands a source that passes the test.
abbrev pub Passes : (QtSource → Bool) → List QtSource → Option ℕ → Type 0
Passes test l none = Unit {0}
Passes test l (some k) = (src : QtSource) × (get_elem? l k ≡ some src) × (test src ≡ true)

along_later :
    (test : QtSource → Bool) (src : QtSource) (l : List QtSource) (r : Option ℕ)
    → Passes test l r
    → Passes test (src ∷ l) (one_later r)
along_later test src l none h = tt
along_later test src l (some k) h = h

-- A source that is found has the ids that were asked for.
source_find-Passes :
    (l : List QtSource) (device_id input_id : ℤ)
    → Passes (λ src. sg_source_match src device_id input_id) l (source_find l device_id input_id)
unfolding source_find
source_find-Passes [] d i = tt
source_find-Passes (src ∷ l) d i = elim (Bool-cases (sg_source_match src d i)) [
  | inl e ↦ rw e (src, refl, e)
  | inr e ↦ rw e (
      along_later (λ s. sg_source_match s d i) src l (source_find l d i) (source_find-Passes l d i))
]

-- The default source is not acquired.
source_default_find-Passes :
    (l : List QtSource) → Passes (λ src. not src.acquired) l (source_default_find l)
unfolding source_default_find
source_default_find-Passes [] = tt
source_default_find-Passes (src ∷ l) = elim (Bool-cases (not src.acquired)) [
  | inl e ↦ rw e (src, refl, e)
  | inr e ↦ rw e (
      along_later (λ s. not s.acquired) src l (source_default_find l)
        (source_default_find-Passes l))
]
