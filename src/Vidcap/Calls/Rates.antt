-- ===== src/Vidcap/Calls/Rates.antt =====
-- The rates in a format list have a denominator, whatever the backend accepts.
use libvidcap.Base.{
  ℕ, ◌+◌, ◌*◌, ◌≢◌, arith, Bool, false, Bool-cases, inl, inr, Option, none, some, List, [], ◌∷◌,
  ◌++◌, length, ℤ, pos,
}
use libvidcap.Format.{FmtInfo, HotFps, HotResolution, hot_fps_list, hot_resolution_list}
use libvidcap.Sapi.Context.{Backend}
use libvidcap.Sapi.FormatList.{
  Build, built, oom, ◌>>=◌, candidate, sizeof_fmt_info, add_format, try_format, each_resolution,
  each_fps, each_fourcc,
}

abbrev pub Divides : ℤ → Type 0
Divides d = d ≢ pos 0

abbrev pub AllDivide : List FmtInfo → Type 0
AllDivide [] = Unit {0}
AllDivide (f ∷ l) = Divides f.fps_denominator × AllDivide l

-- The list that a loop has built, or had built before the memory ran out.
abbrev pub Built : {P : Type 0} → Build P → Type 0
Built (built list p) = AllDivide list
Built (oom list p) = Unit {0}

AllDivide-snoc :
    (l : List FmtInfo) (f : FmtInfo)
    → AllDivide l
    → Divides f.fps_denominator
    → AllDivide (l ++ f ∷ [])
AllDivide-snoc [] f h d = (d, tt)
AllDivide-snoc (g ∷ l) f (e, h) d = (e, AllDivide-snoc l f h d)

module _ {P : Type 0} (backend : Backend P) (realloc_ok : ℕ → Bool) where
  and_then :
      (b : Build P) (k : List FmtInfo → P → Build P)
      → Built b
      → ((l : List FmtInfo) (p : P) → AllDivide l → Built (k l p))
      → Built (b >>= k)
  and_then (built list p) k h f = f list p h
  and_then (oom list p) k h f = tt

  add_format_lem :
      (f : FmtInfo) (l : List FmtInfo) (r : Option FmtInfo × P)
      → AllDivide l
      → Divides f.fps_denominator
      → Built (add_format backend realloc_ok f l r)
  unfolding add_format
  add_format_lem f l (none, p) h d = h
  add_format_lem f l (some native, p) h d =
      elim (Bool-cases (realloc_ok ((length l + 1) * sizeof_fmt_info))) [
        | inl e ↦ rw e (AllDivide-snoc l f h d)
        | inr e ↦ rw e tt
      ]

  try_format_lem :
      (f : FmtInfo) (l : List FmtInfo) (p : P)
      → AllDivide l
      → Divides f.fps_denominator
      → Built (try_format backend realloc_ok f l p)
  unfolding try_format
  try_format_lem f l p h d = add_format_lem f l (backend.format_validate p f false) h d

  each_resolution_lem :
      (fourcc : ℤ) (fps : HotFps) (rs : List HotResolution) (l : List FmtInfo) (p : P)
      → AllDivide l
      → Divides fps.fps_denominator
      → Built (each_resolution backend realloc_ok fourcc fps rs l p)
  unfolding each_resolution
  each_resolution_lem fourcc fps [] l p h d = h
  each_resolution_lem fourcc fps (r ∷ rs) l p h d =
      and_then (try_format backend realloc_ok (candidate fourcc fps r) l p)
        (each_resolution backend realloc_ok fourcc fps rs)
        (try_format_lem (candidate fourcc fps r) l p h d)
        (λ l' p' h'. each_resolution_lem fourcc fps rs l' p' h' d)

  abbrev RatesDivide : List HotFps → Type 0
  RatesDivide [] = Unit {0}
  RatesDivide (f ∷ fs) = Divides f.fps_denominator × RatesDivide fs

  each_fps_lem :
      (fourcc : ℤ) (fs : List HotFps) (l : List FmtInfo) (p : P)
      → AllDivide l
      → RatesDivide fs
      → Built (each_fps backend realloc_ok fourcc fs l p)
  unfolding each_fps
  each_fps_lem fourcc [] l p h d = h
  each_fps_lem fourcc (f ∷ fs) l p h (d, ds) =
      and_then (each_resolution backend realloc_ok fourcc f hot_resolution_list l p)
        (each_fps backend realloc_ok fourcc fs)
        (each_resolution_lem fourcc f hot_resolution_list l p h d)
        (λ l' p' h'. each_fps_lem fourcc fs l' p' h' ds)

  hot_rates : RatesDivide hot_fps_list
  hot_rates = ground arith

  pub each_fourcc_lem :
      (cs : List ℤ) (l : List FmtInfo) (p : P)
      → AllDivide l
      → Built (each_fourcc backend realloc_ok cs l p)
  unfolding each_fourcc
  each_fourcc_lem [] l p h = h
  each_fourcc_lem (c ∷ cs) l p h =
      and_then (each_fps backend realloc_ok c hot_fps_list l p) (each_fourcc backend realloc_ok cs)
        (each_fps_lem c hot_fps_list l p h hot_rates) (λ l' p' h'. each_fourcc_lem cs l' p' h')
