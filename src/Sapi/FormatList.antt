-- ===== src/Sapi/FormatList.antt =====
-- `sapi_src_format_list_build`: the hot formats that the device can deliver.
pub mod Accepted
use libvidcap.Base.{
  ℕ, ◌+◌, ◌*◌, ◌≡◌, refl, ap, ◌∙◌, arith, Bool, true, false, Option, none, some, List, [], ◌∷◌,
  ◌++◌, length, if◌then◌else◌, ℤ, pos, negsuc,
}
use libvidcap.Format.{
  FmtInfo, HotResolution, HotFps, hot_fourcc_list, hot_fps_list, hot_resolution_list,
}
use libvidcap.Sapi.Context.{SrcContext, Backend}

-- The list so far and the backend's state. In `oom` the call of `realloc` for one more format has
-- failed: the block of the list is still allocated, and nothing points at it any more.
pub data Build (P : Type 0) : Type 0 where
  built : List FmtInfo → P → Build P
  oom : List FmtInfo → P → Build P

infixl 5 ◌>>=◌
abbrev pub ◌>>=◌ : {P : Type 0} → Build P → (List FmtInfo → P → Build P) → Build P
built list p >>= f = f list p
oom list p >>= f = oom list p

abbrev pub sizeof_fmt_info : ℕ
sizeof_fmt_info = 20

-- A list that was never allocated is a null pointer.
abbrev pub pointer_to : List FmtInfo → Option (List FmtInfo)
pointer_to [] = none
pointer_to (f ∷ l) = some (f ∷ l)

-- The list is one block, once it has an entry.
abbrev pub blocks : List FmtInfo → ℕ
blocks [] = 0
blocks (f ∷ l) = 1

-- `fmt_info` in the innermost loop.
abbrev pub candidate : ℤ → HotFps → HotResolution → FmtInfo
candidate fourcc fps resolution = record {
  width = resolution.width;
  height = resolution.height;
  fourcc = fourcc;
  fps_numerator = fps.fps_numerator;
  fps_denominator = fps.fps_denominator;
}

-- `realloc_ok bytes` says whether the allocator can grow the list to that size.
module _ {P : Type 0} (backend : Backend P) (realloc_ok : ℕ → Bool) where
  -- With what `format_validate` returns.
  unfoldable pub add_format : FmtInfo → List FmtInfo → Option FmtInfo × P → Build P
  add_format fmt list (none, p) = built list p
  add_format fmt list (some native, p) =
      if realloc_ok ((length list + 1) * sizeof_fmt_info)
      then built (list ++ fmt ∷ []) p
      else oom list p

  -- The body of the innermost loop.
  unfoldable pub try_format : FmtInfo → List FmtInfo → P → Build P
  try_format fmt list p = add_format fmt list (backend.format_validate p fmt false)

  unfoldable pub each_resolution : ℤ → HotFps → List HotResolution → List FmtInfo → P → Build P
  each_resolution fourcc fps [] list p = built list p
  each_resolution fourcc fps (r ∷ rs) list p =
      try_format (candidate fourcc fps r) list p >>= each_resolution fourcc fps rs

  unfoldable pub each_fps : ℤ → List HotFps → List FmtInfo → P → Build P
  each_fps fourcc [] list p = built list p
  each_fps fourcc (f ∷ fs) list p =
      each_resolution fourcc f hot_resolution_list list p >>= each_fps fourcc fs

  unfoldable pub each_fourcc : List ℤ → List FmtInfo → P → Build P
  each_fourcc [] list p = built list p
  each_fourcc (c ∷ cs) list p = each_fps c hot_fps_list list p >>= each_fourcc cs

  unfoldable pub finish : SrcContext P → Build P → ℤ × ℕ × SrcContext P
  finish ctx (built list p) = (
    pos 0,
    blocks list,
    record ctx { fmt_list = pointer_to list; fmt_list_len = pos (length list); priv = p },
  )
  finish ctx (oom list p) = (negsuc 0, blocks list, record ctx { priv = p })

  -- What the function returns, the number of blocks that it has allocated and not freed, and the
  -- context.
  unfoldable pub format_list_build : SrcContext P → ℤ × ℕ × SrcContext P
  format_list_build ctx = elim (ctx.fmt_list) [
    | some _ ↦ (negsuc 0, 0, ctx)
    | none ↦ finish ctx (each_fourcc hot_fourcc_list [] ctx.priv)
  ]
