-- ===== src/Base.antt =====
-- The names that all modules share: the libraries', passed on, and those of the children.
pub mod Tests
pub mod Classes
pub mod Lists
pub mod Maps
pub mod Tables
pub mod Text
pub mod Heap
pub mod Json
pub use Tests.*
pub use Classes.*
unfoldable pub use Lists.*
unfoldable pub use Maps.*
unfoldable pub use Tables.*
pub use Text.*
pub use Heap.*
pub use Json.{Object}
pub use Prim.Native.Nat.{ℕ, zero, suc, ◌+◌, ◌-◌, ◌*◌, ◌/◌, ◌%◌, ◌≤◌, ◌<◌, min}
pub use Prim.Native.String.{String}
pub use mathlib.Core.Path.{◌≡◌, refl, sym, ap, ap₂, subst, ◌∙◌}
pub use mathlib.Core.Logic.{◌≢◌, ◌↔◌, ◌⊎◌, inl, inr}
pub use mathlib.Core.Bool.{Bool, true, false, not, ◌&&◌, ◌||◌}
pub use mathlib.Core.Option.{Option, none, some}
pub use mathlib.Core.List.{List, [], ◌∷◌, ◌++◌, map}
pub use native.Mathlib.Omega.{arith}
