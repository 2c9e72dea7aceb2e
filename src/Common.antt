-- ===== src/Common.antt =====
-- Names that every part shares: the libraries', and the tests, arrays and machine words below.
mod Tests
mod Arrays
mod Find
mod Words
mod Search
mod Outcomes
mod Strings
mod Lines
pub use Tests.*
pub use Arrays.*
pub use Find.*
pub use Words.*
pub use Search.*
pub use Outcomes.*
pub use Strings.*
pub use Lines.*
pub use Prim.Native.Nat.{ℕ, zero, suc, ◌+◌, ◌-◌, ◌*◌, ◌/◌, ◌%◌, ◌^◌, ◌≤◌, ◌<◌}
pub use mathlib.Core.Path.{◌≡◌, refl, sym, ap, ap₂, ◌∙◌}
pub use mathlib.Core.Logic.{◌≢◌, ◌↔◌, ◌⊎◌, inl, inr}
pub use mathlib.Core.Bool.{Bool, true, false, not, ◌&&◌, ◌||◌}
pub use mathlib.Core.Option.{Option, none, some}
pub use mathlib.Core.List.{List, [], ◌∷◌, ◌++◌, map}
pub use native.Mathlib.Omega.{arith}
