-- ===== src/V4l/Acquire/Exclusive.antt =====
-- A device of src/sapi_v4l.c is taken by one source at a time, and given back by its release.
use mathlib.Core.List.{append-nil}
use mathlib.Core.Path.{subst}
use libvidcap.Base.{
  suc, ◌≡◌, ◌≢◌, refl, sym, ap, ◌∙◌, arith, Bool, true, false, not, ◌&&◌, Option, some, [], ◌++◌,
  length, ℤ, pos, negsuc, eqb_ℤ, Bool-cases, inl, inr,
}
use libvidcap.V4l.Text.{Text}
use libvidcap.V4l.Ident.{Source, device_path_max, parse_src_identifier}
use libvidcap.V4l.SrcList.{on_device, off_device, AllNamed}
use libvidcap.V4l.Devices.{
  length-on_device, AllNamed-on, AllNamed-append, on_device-append, off_device-append,
  off_device-all, on_device-on, off_device-on, on_device-other,
}
use libvidcap.V4l.Matches.{append_matches_lem, remove_all_lem}
use libvidcap.V4l.Scan.{V4lContext, Probe}
use libvidcap.V4l.Acquire.Requests.{
  succeeded, refused_ne, ctx_of, opened_of, Chosen, source_acquire-Chosen,
}
use libvidcap.V4l.Acquire.{
  Answers, Opened, refused, acquire_chosen, source_acquire, released, source_release,
}

module _ (path : Text) (channel : ℤ) (info : Source)
    (parsed : parse_src_identifier info.identifier device_path_max ≡ some (path, channel))
    (ctx : V4lContext) (user_named : AllNamed ctx.user_src_list)
    (acquired_named : AllNamed ctx.acquired_src_list) where
  -- The context after the source was acquired.
  abbrev pub with_device : V4lContext
  with_device = record ctx {
    acquired_src_list = ctx.acquired_src_list ++ on_device path ctx.user_src_list;
  }

  abbrev pub opened : ℤ → Opened
  opened fd = record { src_info = info; fd = fd; device_path = path; channel = channel }

  abbrev ready : Answers → Bool
  ready answers =
      not (eqb_ℤ answers.fd (negsuc 0)) && answers.cap_ok && answers.win_ok && answers.pict_ok

  -- The calls that a source needs succeed.
  abbrev answered : Answers → Bool
  answered answers = answers.calloc_ok && ready answers

  chosen-opened :
      (answers : Answers)
      → answered answers ≡ true
      → acquire_chosen ctx info answers ≡ some (pos 0, with_device, some (opened answers.fd))
  unfolding acquire_chosen
  chosen-opened answers ok =
      let ran =
        append_matches_lem path ctx.user_src_list user_named (suc (length ctx.user_src_list)) 0
          ctx.acquired_src_list (omega (arith, length-on_device path ctx.user_src_list)) in
      let alloc : answers.calloc_ok ≡ true = ground (arith, ok) in
      let rest : ready answers ≡ true = ground (arith, ok) in
      rw (acquire_chosen, alloc, parsed, rest, ran) refl

  chosen-refused :
      (answers : Answers)
      → answered answers ≡ false
      → acquire_chosen ctx info answers ≡ some (refused ctx)
  unfolding acquire_chosen
  chosen-refused answers failed = elim (Bool-cases answers.calloc_ok) [
    | inl alloc ↦
        let rest : ready answers ≡ false = ground (arith, failed, alloc) in
        rw (acquire_chosen, alloc, parsed, rest) refl
    | inr no_memory ↦ rw (acquire_chosen, no_memory) refl
  ]

  -- What a success means.
  chosen_lem :
      (answers : Answers) (ctx' : V4lContext) (o : Opened)
      → acquire_chosen ctx info answers ≡ succeeded ctx' o
      → (with_device ≡ ctx') × (opened answers.fd ≡ o)
  chosen_lem answers ctx' o got = elim (Bool-cases (answered answers)) [
    | inl ok ↦
        let same = sym (chosen-opened answers ok) ∙ got in
        (ap (ctx_of ctx) same, ap (opened_of o) same)
    | inr failed ↦ absurd (refused_ne ctx ctx' o (sym (chosen-refused answers failed) ∙ got))
  ]

  taken_on :
      on_device path with_device.acquired_src_list
      ≡ on_device path ctx.acquired_src_list ++ on_device path ctx.user_src_list
  taken_on =
      on_device-append path ctx.acquired_src_list (on_device path ctx.user_src_list)
      ∙ ap (λ l. on_device path ctx.acquired_src_list ++ l) (on_device-on path ctx.user_src_list)

  with_device-AllNamed : AllNamed with_device.acquired_src_list
  with_device-AllNamed =
      AllNamed-append ctx.acquired_src_list (on_device path ctx.user_src_list) acquired_named
        (AllNamed-on path ctx.user_src_list user_named)

  taken_all :
      on_device path ctx.acquired_src_list ≡ []
      → on_device path with_device.acquired_src_list ≡ on_device path ctx.user_src_list
  taken_all none_on = taken_on ∙ ap (λ l. l ++ on_device path ctx.user_src_list) none_on

  others_stay :
      (other : Text)
      → path ≢ other
      → on_device other with_device.acquired_src_list ≡ on_device other ctx.acquired_src_list
  others_stay other ne =
      on_device-append other ctx.acquired_src_list (on_device path ctx.user_src_list)
      ∙ ap (λ l. on_device other ctx.acquired_src_list ++ l)
          (on_device-other path other ctx.user_src_list ne)
      ∙ append-nil (on_device other ctx.acquired_src_list)

  given_back :
      on_device path ctx.acquired_src_list ≡ []
      → off_device path with_device.acquired_src_list ≡ ctx.acquired_src_list
  given_back none_on =
      off_device-append path ctx.acquired_src_list (on_device path ctx.user_src_list)
      ∙ ap (λ l. off_device path ctx.acquired_src_list ++ l) (off_device-on path ctx.user_src_list)
      ∙ append-nil (off_device path ctx.acquired_src_list)
      ∙ off_device-all path ctx.acquired_src_list none_on

  release_ends :
      (fd : ℤ) (close_ok : Bool)
      → on_device path ctx.acquired_src_list ≡ []
      → (ret : ℤ) × (source_release with_device (opened fd) close_ok ≡ some (ret, ctx))
  unfolding source_release
  release_ends fd close_ok none_on =
      let l = with_device.acquired_src_list in
      let ran =
        remove_all_lem path channel info parsed (suc (length l)) l with_device-AllNamed
          (omega (arith, length-on_device path l)) in
      (_, ap (released with_device _) (ran ∙ ap some (given_back none_on)))

-- An acquisition, with the lists as they are after it.
record Took {ctx : V4lContext} {answers : Answers} {ctx' : V4lContext} {o : Opened}
    (ch : Chosen ctx answers ctx' o) : Type 0 where
  named : AllNamed ctx'.acquired_src_list
  on : on_device o.device_path ctx'.acquired_src_list ≡ on_device o.device_path ctx'.user_src_list
  others :
      (other : Text)
      → o.device_path ≢ other
      → on_device other ctx'.acquired_src_list ≡ on_device other ctx.acquired_src_list
  released_by :
      (close_ok : Bool)
      → (ret : ℤ) × (source_release ctx' o close_ok
          ≡ some (ret, record ctx' { acquired_src_list = ctx.acquired_src_list }))

-- By what `chosen_lem` says of the lists and of the source.
Chosen-Took :
    {ctx : V4lContext} {answers : Answers} {ctx' : V4lContext} {o : Opened}
    (ch : Chosen ctx answers ctx' o)
    → AllNamed ctx.acquired_src_list
    → AllNamed ctx'.user_src_list
    → Took ch
Chosen-Took {ctx} {answers} {ctx'} {o} ch a u =
    let c = ch.from in
    let n = ch.named in
    let user_named : AllNamed c.user_src_list = rw n.users u in
    let acquired_named : AllNamed c.acquired_src_list = rw ch.acquired a in
    let (same, is_o) =
      chosen_lem o.device_path n.channel ch.info n.parsed c user_named acquired_named answers ctx' o
        ch.ran in
    let lists = ap V4lContext.acquired_src_list same in
    record {
      named = subst AllNamed lists (
          with_device-AllNamed o.device_path n.channel ch.info n.parsed c user_named
            acquired_named);
      on =
          sym (ap (on_device o.device_path) lists)
          ∙ taken_all o.device_path n.channel ch.info n.parsed c user_named acquired_named ch.free
          ∙ ap (on_device o.device_path) n.users;
      others = λ other ne.
          sym (ap (on_device other) lists)
          ∙ others_stay o.device_path n.channel ch.info n.parsed c user_named acquired_named other
              ne
          ∙ ap (on_device other) ch.acquired;
      released_by = λ close_ok.
          let (ret, ran) =
            release_ends o.device_path n.channel ch.info n.parsed c user_named acquired_named
              answers.fd close_ok ch.free in
          (
            ret,
            sym (ap (λ x. source_release x o close_ok) same)
                ∙ sym (
                    ap
                      (λ x.
                        source_release
                          (with_device o.device_path n.channel ch.info n.parsed c user_named
                            acquired_named)
                          x close_ok)
                      is_o)
                ∙ ran
                ∙ ap (λ l. some (ret, record c { user_src_list = l })) n.users
                ∙ ap (λ l. some (ret, record ctx' { acquired_src_list = l })) ch.acquired,
          );
    }

-- After a source was acquired, by a request for a named source or for the default one, no other request
-- succeeds with a source of the same device, whatever is asked for and whatever the system
-- answers, if the user's list has a source of the device; the acquired sources of every other
-- device stay. The identifiers of the acquired sources, and those in the user's list after the first
-- request, are taken to be ones that can be parsed.
pub source_acquire-exclusive :
    (probe probe' : Text → Probe) (ctx ctx' ctx'' : V4lContext) (wanted wanted' : Option Source)
    (answers answers' : Answers) (o o' : Opened)
    → AllNamed ctx.acquired_src_list
    → AllNamed ctx'.user_src_list
    → on_device o.device_path ctx'.user_src_list ≢ []
    → source_acquire probe ctx wanted answers ≡ some (pos 0, ctx', some o)
    → source_acquire probe' ctx' wanted' answers' ≡ some (pos 0, ctx'', some o')
    → (o.device_path ≢ o'.device_path)
      × ((other : Text)
          → o.device_path ≢ other
          → on_device other ctx'.acquired_src_list ≡ on_device other ctx.acquired_src_list)
source_acquire-exclusive probe probe' ctx ctx' ctx'' wanted wanted' answers answers' o o' a u listed
      got got' =
    let ch = source_acquire-Chosen probe ctx ctx' wanted answers o a got in
    let took = Chosen-Took ch a u in
    let ch' = source_acquire-Chosen probe' ctx' ctx'' wanted' answers' o' took.named got' in
    let free : on_device o'.device_path ctx'.acquired_src_list ≡ [] =
      sym (ap (on_device o'.device_path) ch'.acquired) ∙ ch'.free in
    (
      λ e. listed (sym took.on ∙ ap (λ path. on_device path ctx'.acquired_src_list) e ∙ free),
      took.others,
    )

-- Releasing a source ends, whatever `close` answers and whether the source was asked for by its
-- identifier or as the default one, and leaves the acquired sources as they were before its
-- acquisition: what was acquired with it is given back, and nothing else. The user's list stays.
-- The identifiers of the acquired sources, and those in the user's list, are taken to be ones
-- that can be parsed.
pub source_acquire-source_release :
    (probe : Text → Probe) (ctx ctx' : V4lContext) (wanted : Option Source) (answers : Answers)
    (o : Opened) (close_ok : Bool)
    → AllNamed ctx.acquired_src_list
    → AllNamed ctx'.user_src_list
    → source_acquire probe ctx wanted answers ≡ some (pos 0, ctx', some o)
    → (ret : ℤ) × (source_release ctx' o close_ok
        ≡ some (ret, record ctx' { acquired_src_list = ctx.acquired_src_list }))
source_acquire-source_release probe ctx ctx' wanted answers o close_ok a u got =
    let ch = source_acquire-Chosen probe ctx ctx' wanted answers o a got in
    (Chosen-Took ch a u).released_by close_ok
