-- ===== src/Common.antt =====
-- The names that every component shares: the library's, passed on, and those of the children
-- (Boolean tests, lists over the native numbers, facts on division).
mod Tests
mod Lists
mod Division
pub use Tests.*
pub use Lists.*
pub use Division.*
pub use Prim.Native.Nat.{ℕ, suc, ◌+◌, ◌-◌, ◌*◌, ◌/◌, ◌%◌, ◌^◌, ◌≤◌, ◌<◌}
pub use Prim.Native.String.{String}
pub use mathlib.Core.Path.{◌≡◌, refl, sym, ap, ap₂, ◌∙◌, subst}
pub use mathlib.Core.Logic.{◌≢◌, ◌↔◌, ◌⊎◌, inl, inr}
pub use mathlib.Core.Bool.{Bool, true, false, not, ◌&&◌, ◌||◌}
pub use mathlib.Core.Option.{Option, none, some}
pub use mathlib.Core.List.{List, [], ◌∷◌, ◌++◌, reverse}
pub use native.Mathlib.Omega.{arith}
