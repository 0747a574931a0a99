-- ===== src/Base.antt =====
-- The names that every module shares: the libraries', passed on, and those of the children:
-- Boolean tests, lists with native indices, the signed integers of C,
-- counted loops and blocks of bytes.
mod Tests
mod Lists
mod Int
mod Loop
mod Memory
pub use Tests.*
pub use Lists.*
unfoldable pub use Int.*
unfoldable pub use Loop.*
unfoldable pub use Memory.*
pub use Prim.Native.Nat.{ℕ, zero, suc, ◌+◌, ◌-◌, ◌*◌, ◌/◌, ◌%◌, ◌^◌, ◌≤◌, ◌<◌, min}
pub use mathlib.Core.Path.{◌≡◌, refl, sym, ap, ◌∙◌}
pub use mathlib.Core.Logic.{◌≢◌, ◌↔◌, ◌⊎◌, inl, inr}
pub use mathlib.Core.Bool.{Bool, true, false, not, ◌&&◌, ◌||◌}
pub use mathlib.Core.Option.{Option, none, some}
pub use mathlib.Core.List.{List, [], ◌∷◌, ◌++◌, map}
pub use native.Mathlib.Omega.{arith}
