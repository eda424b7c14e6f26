-- ===== src/Prelude.antt =====
-- Names that every module shares: the library's, passed on, and those of the children.
mod Tests
mod Lists
mod Predicates
pub mod Strings
pub mod Sorting
pub mod Decimal
pub use Tests.*
pub use Lists.*
pub use Predicates.*
unfoldable pub use Strings.*
unfoldable pub use Decimal.*
pub use Prim.Native.Nat.{ℕ, zero, suc, ◌+◌, ◌-◌, ◌*◌, ◌/◌, ◌%◌, ◌^◌, ◌≤◌, ◌<◌, min, max}
pub use mathlib.Core.Path.{◌≡◌, refl, sym, ap, ◌∙◌, fun_ext}
pub use mathlib.Core.Logic.{◌≢◌, ◌↔◌, ◌⊎◌, inl, inr}
pub use mathlib.Core.Bool.{Bool, true, false, not, ◌&&◌, ◌||◌}
pub use mathlib.Core.Option.{Option, none, some}
pub use mathlib.Core.List.{List, [], ◌∷◌, ◌++◌, map}
pub use native.Mathlib.Omega.{arith}
