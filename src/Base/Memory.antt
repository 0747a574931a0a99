-- ===== src/Base/Memory.antt =====
-- Blocks of memory: a length, and the byte at each offset. An access outside the block is a
-- fault, which is `none`.
use Prim.Native.Nat.{ℕ, ◌+◌, ◌-◌, ◌≤◌}
use mathlib.Core.Path.{◌≡◌}
use mathlib.Core.Bool.{◌&&◌}
use mathlib.Core.Option.{Option, none, some}
use native.Mathlib.Omega.{arith}
use libvidcap.Base.Tests.{ltb, leb, ◌==◌, if◌then◌else◌}

pub record Bytes : Type 0 where
  pub size : ℕ
  pub at : ℕ → ℕ

-- `*p`
unfoldable pub load : Bytes → ℕ → Option ℕ
load b p = if ltb p b.size then some (b.at p) else none

abbrev pub put : (ℕ → ℕ) → ℕ → ℕ → ℕ → ℕ
put f p v i = if i == p then v else f i

-- `*p = v`
unfoldable pub store : Bytes → ℕ → ℕ → Option Bytes
store b p v = if ltb p b.size then some (record b { at = put b.at p v }) else none

-- The bytes after a copy of `n` bytes from `q` of `src` to `p`.
abbrev pub copied : (ℕ → ℕ) → ℕ → (ℕ → ℕ) → ℕ → ℕ → ℕ → ℕ
copied dst p src q n i = if leb p i && ltb i (p + n) then src (q + (i - p)) else dst i

-- `memcpy(dst + p, src + q, n)` between two blocks
unfoldable pub memcpy : Bytes → ℕ → Bytes → ℕ → ℕ → Option Bytes
memcpy dst p src q n =
    if leb (p + n) dst.size && leb (q + n) src.size
    then some (record dst { at = copied dst.at p src.at q n })
    else none

pub memcpy_lem :
    (dst : Bytes) (p : ℕ) (src : Bytes) (q n : ℕ)
    → p + n ≤ dst.size
    → q + n ≤ src.size
    → memcpy dst p src q n ≡ some (record dst { at = copied dst.at p src.at q n })
unfolding memcpy
memcpy_lem dst p src q n h k = ground arith
