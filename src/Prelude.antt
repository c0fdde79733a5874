-- ===== src/Prelude.antt =====
-- The names that the other modules share: the libraries', passed on, and the tests, lists and
-- integers of the children.
mod Tests
mod Div
pub mod Int
pub mod Order
pub use Tests.*
pub use Div.*
pub use Prim.Native.Nat.{ℕ, zero, suc, ◌+◌, ◌-◌, ◌*◌, ◌/◌, ◌%◌, ◌^◌, ◌≤◌, ◌<◌, min, max}
pub use mathlib.Core.Path.{◌≡◌, refl, sym, ap, ◌∙◌}
pub use mathlib.Core.Logic.{◌≢◌, ◌↔◌, ◌⊎◌, inl, inr}
pub use mathlib.Core.Bool.{Bool, true, false, not, ◌&&◌, ◌||◌}
pub use mathlib.Core.Option.{Option, none, some}
pub use native.Mathlib.Omega.{arith}
