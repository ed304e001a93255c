-- ===== src/Float.antt =====
-- C's `float` and `double`, as the program uses them: an abstract pair of types with the
-- conversions, comparisons and arithmetic that the code calls. `IsOrdered` names the facts of IEEE 754
-- arithmetic that the theorems need; the child Fixed meets them by thousandths.
pub mod Fixed
mod Defs
pub use Defs.{Float, IsOrdered, millis, below}
