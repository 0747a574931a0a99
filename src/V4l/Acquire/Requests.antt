-- ===== src/V4l/Acquire/Requests.antt =====
-- What a successful `source_acquire` of src/sapi_v4l.c has come by, for a named source and for the
-- default one alike.
use libvidcap.Base.{
  ◌≡◌, ◌≢◌, refl, sym, ap, ◌∙◌, arith, not, ◌&&◌, Option, none, some, Option-cases, [], ◌∷◌, List,
  ℤ, pos, negsuc, eqb_ℤ, ltb_ℤ, Bool-cases, inl, inr,
}
use libvidcap.V4l.Text.{Text}
use libvidcap.V4l.Ident.{Source, device_path_max, parse_src_identifier}
use libvidcap.V4l.SrcList.{on_device, AllNamed, src_list_src_match_next}
use libvidcap.V4l.Matches.{match-first}
use libvidcap.V4l.Scan.{V4lContext, Probe}
use libvidcap.V4l.Scan.Paths.{scan_sources-device_paths}
use libvidcap.V4l.Acquire.{
  Answers, Opened, Result, refused, taken, open_device, acquire_chosen, first_free, acquire_default,
  source_acquire,
}

-- A success of `source_acquire`.
abbrev pub succeeded : V4lContext → Opened → Option Result
succeeded ctx o = some (pos 0, ctx, some o)

pub refused_ne : (c ctx : V4lContext) (o : Opened) → some (refused c) ≢ succeeded ctx o
refused_ne c ctx o e = ground (arith, e)

-- The device of a source that was opened is the one that its identifier names, and the user's list is
-- as it was.
pub record Named (c : V4lContext) (s : Source) (ctx : V4lContext) (o : Opened) : Type 0 where
  pub channel : ℤ
  pub parsed : parse_src_identifier s.identifier device_path_max ≡ some (o.device_path, channel)
  pub users : c.user_src_list ≡ ctx.user_src_list

abbrev pub ctx_of : V4lContext → Option Result → V4lContext
ctx_of d none = d
ctx_of d (some r) = r.1

abbrev pub opened_of : Opened → Option Result → Opened
opened_of d none = d
opened_of d (some (ret, ctx, none)) = d
opened_of d (some (ret, ctx, some o)) = o

taken-Named :
    (c : V4lContext) (s : Source) (fd : ℤ) (path : Text) (channel : ℤ) (l : Option (List Source))
    (ctx : V4lContext) (o : Opened)
    → parse_src_identifier s.identifier device_path_max ≡ some (path, channel)
    → taken c (record { src_info = s; fd = fd; device_path = path; channel = channel }) l
      ≡ succeeded ctx o
    → Named c s ctx o
taken-Named c s fd path channel none ctx o p e = absurd (ground (arith, e))
taken-Named c s fd path channel (some l) ctx o p e = record {
  channel = channel;
  parsed = p ∙ ap (λ r. some ((opened_of o r).device_path, channel)) e;
  users = ap (λ r. (ctx_of c r).user_src_list) e;
}

chosen-Named :
    (c : V4lContext) (s : Source) (answers : Answers) (ctx : V4lContext) (o : Opened)
    → acquire_chosen c s answers ≡ succeeded ctx o
    → Named c s ctx o
unfolding acquire_chosen
chosen-Named c s answers ctx o e = elim (Bool-cases answers.calloc_ok) [
  | inr no_memory ↦ absurd (refused_ne c ctx o (rw (acquire_chosen, no_memory) at e))
  | inl alloc ↦ elim (Option-cases (parse_src_identifier s.identifier device_path_max)) [
    | inl unnamed ↦ absurd (refused_ne c ctx o (rw (acquire_chosen, alloc, unnamed) at e))
    | inr ((path, channel), parsed) ↦
        opened_case path channel parsed (rw (acquire_chosen, alloc, parsed) at e)
  ]
]
  where
    opened_case :
        (path : Text) (channel : ℤ)
        → parse_src_identifier s.identifier device_path_max ≡ some (path, channel)
        → open_device c s answers (path, channel) ≡ succeeded ctx o
        → Named c s ctx o
    opened_case path channel parsed e =
        elim (Bool-cases (
          not (eqb_ℤ answers.fd (negsuc 0))
          && answers.cap_ok
          && answers.win_ok
          && answers.pict_ok)) [
            | inl ready ↦ taken-Named c s answers.fd path channel _ ctx o parsed (rw ready at e)
            | inr failed ↦ absurd (refused_ne c ctx o (rw failed at e))
          ]

first_free-unmatched :
    (acquired l : List Source) (s : Source)
    → first_free acquired l ≡ some s
    → (src_list_src_match_next acquired s 0).0 ≡ none
unfolding first_free
first_free-unmatched acquired [] s e = absurd (ground (arith, e))
first_free-unmatched acquired (t ∷ l) s e =
    elim (Option-cases ((src_list_src_match_next acquired t 0).0)) [
      | inl free ↦
          let same : some t ≡ some s = rw (first_free, free) at e in
          ap (λ x. (src_list_src_match_next acquired (free_source t x) 0).0) (sym same) ∙ free
      | inr (m, matched) ↦ first_free-unmatched acquired l s (rw (first_free, matched) at e)
    ]
  where
    free_source : Source → Option Source → Source
    free_source d none = d
    free_source d (some x) = x

-- The source that was chosen, in a context with the same acquired sources, none of which is on
-- the device.
pub record Chosen (ctx : V4lContext) (answers : Answers) (ctx' : V4lContext) (o : Opened)
    : Type 0 where
  pub from : V4lContext
  pub info : Source
  pub acquired : from.acquired_src_list ≡ ctx.acquired_src_list
  pub ran : acquire_chosen from info answers ≡ succeeded ctx' o
  pub named : Named from info ctx' o
  pub free : on_device o.device_path from.acquired_src_list ≡ []

unmatched-Chosen :
    (ctx c : V4lContext) (s : Source) (answers : Answers) (ctx' : V4lContext) (o : Opened)
    → c.acquired_src_list ≡ ctx.acquired_src_list
    → AllNamed c.acquired_src_list
    → (src_list_src_match_next c.acquired_src_list s 0).0 ≡ none
    → acquire_chosen c s answers ≡ succeeded ctx' o
    → Chosen ctx answers ctx' o
unmatched-Chosen ctx c s answers ctx' o same all_named free ran =
    let n = chosen-Named c s answers ctx' o ran in
    record {
      from = c;
      info = s;
      acquired = same;
      ran = ran;
      named = n;
      free = elim (match-first o.device_path n.channel s n.parsed c.acquired_src_list all_named) [
        | inl (_, none_on) ↦ none_on
        | inr (t, rest, matched, on) ↦ absurd (ground (arith, sym free ∙ matched))
      ];
    }

-- Any request that succeeds has chosen a source whose device is free.
pub source_acquire-Chosen :
    (probe : Text → Probe) (ctx ctx' : V4lContext) (wanted : Option Source) (answers : Answers)
    (o : Opened)
    → AllNamed ctx.acquired_src_list
    → source_acquire probe ctx wanted answers ≡ succeeded ctx' o
    → Chosen ctx answers ctx' o
unfolding source_acquire acquire_default
source_acquire-Chosen probe ctx ctx' (some info) answers o all_named e =
    elim (Option-cases ((src_list_src_match_next ctx.acquired_src_list info 0).0)) [
      | inl free ↦
          unmatched-Chosen ctx ctx info answers ctx' o refl all_named free
            (rw (source_acquire, free) at e)
      | inr (m, matched) ↦ absurd (refused_ne ctx ctx' o (rw (source_acquire, matched) at e))
    ]
source_acquire-Chosen probe ctx ctx' none answers o all_named e =
    let ((count, c), scanned, _, same) = scan_sources-device_paths probe ctx all_named in
    let e' : acquire_default (some (count, c)) answers ≡ succeeded ctx' o =
      rw (source_acquire, scanned) at e in
    elim (Bool-cases (ltb_ℤ count (pos 1))) [
      | inl few ↦ absurd (refused_ne c ctx' o (rw (acquire_default, few) at e'))
      | inr some_there ↦ elim (Option-cases (first_free c.acquired_src_list c.user_src_list)) [
        | inl all_taken ↦
            absurd (refused_ne c ctx' o (rw (acquire_default, some_there, all_taken) at e'))
        | inr (s, found) ↦
            unmatched-Chosen ctx c s answers ctx' o same (rw same all_named)
              (first_free-unmatched c.acquired_src_list c.user_src_list s found)
              (rw (acquire_default, some_there, found) at e')
      ]
    ]
