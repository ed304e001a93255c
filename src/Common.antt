-- ===== src/Common.antt =====
-- The names that the other modules share: the libraries', passed on, and those of the children: Boolean
-- tests (Tests), lists as C arrays (Lists), C's signed integers (Int), exclusive or on bytes (Xor), the
-- best element of an array (Extreme), text (Text) and computations over an outside world that can fault
-- or spin (Runs).
mod Tests
mod Lists
pub mod Int
pub mod Xor
pub mod Extreme
pub mod Text
pub mod Runs
pub use Tests.*
pub use Lists.*
pub use Prim.Native.Nat.{ℕ, zero, suc, ◌+◌, ◌-◌, ◌*◌, ◌/◌, ◌%◌, ◌^◌, ◌≤◌, ◌<◌}
pub use mathlib.Core.Path.{◌≡◌, refl, sym, ap, ◌∙◌}
pub use mathlib.Core.Logic.{◌≢◌, ◌↔◌, ◌⊎◌, inl, inr}
pub use mathlib.Core.Bool.{Bool, true, false, ◌&&◌, ◌||◌, not}
pub use mathlib.Core.Option.{Option, none, some}
pub use mathlib.Core.List.{List, [], ◌∷◌, ◌++◌, map}
pub use native.Mathlib.Omega.{arith}
