-- ===== src/Vidcap/Calls.antt =====
-- Sequences of calls on a source.
pub mod Rates
pub mod Accounted
pub mod Keep
pub mod Lifetime
pub mod Moves
pub mod Leftovers
use libvidcap.Base.{ℕ, Option, none, some, List, [], ◌∷◌, Bool, ℤ, Bytes}
use libvidcap.Format.{FmtInfo}
use libvidcap.Sapi.Context.{SrcContext, Backend}
use libvidcap.Vidcap.Blocks.{Outcome}
use libvidcap.Vidcap.Bind.{format_bind}
use libvidcap.Vidcap.Capture.{capture_start, capture_stop}

-- A call that an application makes, with what the allocator answers during it.
pub data Call : Type 0 where
  bind_call : (ℕ → ℤ → Option Bytes) → Option FmtInfo → Call
  start_call : (ℕ → ℕ → Bool) → Option ℕ → ℤ → Call
  stop_call : Call

module _ {P : Type 0} (backend : Backend P) where
  unfoldable pub call : Call → ℕ → SrcContext P → Option (Outcome P)
  call (bind_call malloc fmt_info) live ctx = format_bind backend malloc live ctx fmt_info
  call (start_call calloc_ok callback user_data) live ctx =
      capture_start backend calloc_ok live ctx callback user_data
  call stop_call live ctx = some (capture_stop backend live ctx)

  -- One call after the other, whatever they return. `none` is a fault in one of them.
  unfoldable pub calls : List Call → ℕ → SrcContext P → Option (ℕ × SrcContext P)
  calls [] live ctx = some (live, ctx)
  calls (c ∷ cs) live ctx = elim (call c live ctx) [ none ↦ none | some o ↦ calls cs o.live o.ctx ]
