-- ===== src/Common.antt =====
-- The names that every module shares: the libraries', and those of the children below.
mod Tests
mod Lists
mod Outcomes
mod Texts
mod Numbers
mod Sorting
mod Slices
pub use Tests.*
pub use Lists.*
pub use Outcomes.*
unfoldable pub use Texts.*
unfoldable pub use Numbers.*
unfoldable pub use Sorting.*
pub use Slices.*
pub use Prim.Native.Nat.{ℕ, zero, suc, ◌+◌, ◌-◌, ◌*◌, ◌/◌, ◌%◌, ◌^◌, ◌≤◌, ◌<◌}
pub use mathlib.Core.Path.{◌≡◌, refl, sym, ap, ap₂, subst, ◌∙◌}
pub use mathlib.Core.Logic.{◌≢◌, ◌↔◌, ◌⊎◌, inl, inr}
pub use mathlib.Core.Bool.{Bool, true, false, not, ◌&&◌, ◌||◌}
pub use mathlib.Core.Option.{Option, none, some}
pub use mathlib.Core.List.{List, [], ◌∷◌, ◌++◌, map}
pub use native.Mathlib.Omega.{arith}
