-- ===== src/Sapi/FormatList/Accepted.antt =====
-- The list that `sapi_src_format_list_build` makes is the hot formats that the device accepts.
use libvidcap.Base.{
  ℕ, ◌+◌, ◌*◌, ◌≡◌, refl, sym, arith, Bool, true, false, none, some, List, [], ◌∷◌, ◌++◌, length,
  if◌then◌else◌, ℤ, pos,
}
use mathlib.Core.List.{append-nil, append_assoc}
use libvidcap.Format.{
  FmtInfo, HotResolution, HotFps, hot_fourcc_list, hot_fps_list, hot_resolution_list,
}
use libvidcap.Sapi.Context.{SrcContext, Backend}
use libvidcap.Sapi.FormatList.{
  built, candidate, sizeof_fmt_info, pointer_to, blocks, try_format, add_format, each_resolution,
  each_fps, each_fourcc, finish, format_list_build,
}

-- The formats that the loops go through, in their order.
module _ (fourcc : ℤ) where
  abbrev pub resolutions_of : HotFps → List HotResolution → List FmtInfo
  resolutions_of fps [] = []
  resolutions_of fps (r ∷ rs) = candidate fourcc fps r ∷ resolutions_of fps rs

  abbrev pub rates_of : List HotFps → List FmtInfo
  rates_of [] = []
  rates_of (f ∷ fs) = resolutions_of f hot_resolution_list ++ rates_of fs

abbrev pub formats_of : List ℤ → List FmtInfo
formats_of [] = []
formats_of (c ∷ cs) = rates_of c hot_fps_list ++ formats_of cs

abbrev pub accepted : (FmtInfo → Bool) → List FmtInfo → List FmtInfo
accepted ok [] = []
accepted ok (f ∷ l) = if ok f then f ∷ accepted ok l else accepted ok l

-- A backend that answers a question about a format always alike, and keeps its state.
pub record Steady {P : Type 0} (backend : Backend P) (ok : FmtInfo → Bool) : Type 0 where
  pub native : FmtInfo → FmtInfo
  pub answers :
      (p : P) (f : FmtInfo)
      → backend.format_validate p f false ≡ (if ok f then some (native f) else none, p)

module _ (ok : FmtInfo → Bool) where
  accepted-append : (a b : List FmtInfo) → accepted ok (a ++ b) ≡ accepted ok a ++ accepted ok b
  accepted-append [] b = refl
  accepted-append (f ∷ a) b = ground (arith, accepted-append a b)

  -- One more format, then the others.
  add_accepted :
      (list : List FmtInfo) (f : FmtInfo) (l : List FmtInfo)
      → (list ++ accepted ok (f ∷ [])) ++ accepted ok l ≡ list ++ accepted ok (f ∷ l)
  add_accepted list f l =
      rw
        (append_assoc list (accepted ok (f ∷ [])) (accepted ok l), sym (accepted-append (f ∷ []) l))
        refl

  add_all :
      (list a b : List FmtInfo)
      → (list ++ accepted ok a) ++ accepted ok b ≡ list ++ accepted ok (a ++ b)
  add_all list a b =
      rw (append_assoc list (accepted ok a) (accepted ok b), sym (accepted-append a b)) refl

module _ {P : Type 0} (backend : Backend P) (ok : FmtInfo → Bool) (steady : Steady backend ok)
    (realloc_ok : ℕ → Bool) (enough : (n : ℕ) → realloc_ok n ≡ true) where
  try_format_eq :
      (f : FmtInfo) (list : List FmtInfo) (p : P)
      → try_format backend realloc_ok f list p ≡ built (list ++ accepted ok (f ∷ [])) p
  unfolding try_format add_format
  try_format_eq f list p =
      ground
        (arith, steady.answers p f, append-nil list, enough ((length list + 1) * sizeof_fmt_info))

  each_resolution_eq :
      (fourcc : ℤ) (fps : HotFps) (rs : List HotResolution) (list : List FmtInfo) (p : P)
      → each_resolution backend realloc_ok fourcc fps rs list p
        ≡ built (list ++ accepted ok (resolutions_of fourcc fps rs)) p
  unfolding each_resolution
  each_resolution_eq fourcc fps [] list p = rw (append-nil list) refl
  each_resolution_eq fourcc fps (r ∷ rs) list p =
      let f = candidate fourcc fps r in
      rw
        (
          try_format_eq f list p,
          each_resolution_eq fourcc fps rs (list ++ accepted ok (f ∷ [])) p,
          add_accepted ok list f (resolutions_of fourcc fps rs),
        )
        refl

  each_fps_eq :
      (fourcc : ℤ) (fs : List HotFps) (list : List FmtInfo) (p : P)
      → each_fps backend realloc_ok fourcc fs list p
        ≡ built (list ++ accepted ok (rates_of fourcc fs)) p
  unfolding each_fps
  each_fps_eq fourcc [] list p = rw (append-nil list) refl
  each_fps_eq fourcc (f ∷ fs) list p =
      let l = resolutions_of fourcc f hot_resolution_list in
      rw
        (
          each_resolution_eq fourcc f hot_resolution_list list p,
          each_fps_eq fourcc fs (list ++ accepted ok l) p,
          add_all ok list l (rates_of fourcc fs),
        )
        refl

  each_fourcc_eq :
      (cs : List ℤ) (list : List FmtInfo) (p : P)
      → each_fourcc backend realloc_ok cs list p ≡ built (list ++ accepted ok (formats_of cs)) p
  unfolding each_fourcc
  each_fourcc_eq [] list p = rw (append-nil list) refl
  each_fourcc_eq (c ∷ cs) list p =
      let l = rates_of c hot_fps_list in
      rw
        (
          each_fps_eq c hot_fps_list list p,
          each_fourcc_eq cs (list ++ accepted ok l) p,
          add_all ok list l (formats_of cs),
        )
        refl

  -- Where no list was built, the backend answers a question about a format always alike and keeps
  -- its state, and memory suffices, the function returns 0. The list is then the hot formats that
  -- the backend accepts, in the order of the hot lists (fourccs, then rates, then resolutions),
  -- its length is recorded, it is one block, an empty list is none and a null pointer, and
  -- nothing else changes.
  pub format_list_build-accepted :
      (ctx : SrcContext P)
      → ctx.fmt_list ≡ none
      → let list = accepted ok (formats_of hot_fourcc_list) in
        format_list_build backend realloc_ok ctx ≡ (
          pos 0,
          blocks list,
          record ctx { fmt_list = pointer_to list; fmt_list_len = pos (length list) },
        )
  unfolding format_list_build finish
  format_list_build-accepted ctx h = rw (h, each_fourcc_eq hot_fourcc_list [] ctx.priv) refl
