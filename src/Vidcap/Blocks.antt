-- ===== src/Vidcap/Blocks.antt =====
-- The blocks of memory that a source owns, and what a call on a source leaves.
use libvidcap.Base.{ℕ, ◌+◌, ◌-◌, ◌*◌, Option, none, some, Bool, true, false, ℤ, negsuc}
use libvidcap.Sapi.Context.{SrcContext, SrcState, src_acquired, src_bound, src_capturing}

-- A pointer holds a block or is null; `free` takes `held p` blocks from those that are live.
abbrev pub held {ℓ} : {A : Type ℓ} → Option A → ℕ
held none = 0
held (some a) = 1

-- What a call returns, the number of blocks that are allocated after it, and the source.
pub record Outcome (P : Type 0) : Type 0 where
  pub ret : ℤ
  pub live : ℕ
  pub ctx : SrcContext P

abbrev pub minus : ℕ → ℤ
minus n = negsuc (n - 1)

abbrev pub is_capturing : SrcState → Bool
is_capturing src_acquired = false
is_capturing src_bound = false
is_capturing src_capturing = true

abbrev pub is_bound : SrcState → Bool
is_bound src_acquired = false
is_bound src_bound = true
is_bound src_capturing = false

-- A sliding window is two blocks.
abbrev pub owned : {P : Type 0} → SrcContext P → ℕ
owned ctx =
    1
    + held ctx.fmt_list
    + held ctx.fmt_conv_buf
    + held ctx.stride_free_buf
    + 2 * held ctx.frame_times
