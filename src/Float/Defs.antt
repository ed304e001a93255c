-- ===== src/Float/Defs.antt =====
-- The operations on `float` and `double` that the program uses, and the facts of IEEE 754 that the
-- theorems rest on.
use batterysystem.Common.{ℕ, ◌≤◌, ◌≡◌, Bool, true, false, ltb}
use batterysystem.Common.Int.{ℤ, pos, negsuc}

pub record Float : Type 1 where
  -- `float` and `double`
  pub T : Type 0
  pub D : Type 0
  -- an int converted to float; an int converted to double
  pub of_int : ℤ → T
  pub double_of_int : ℤ → D
  -- the decimal constants n / d, as a float (`2.5f`) and as a double (`0.03`)
  pub literal : ℕ → ℕ → T
  pub double_literal : ℕ → ℕ → D
  pub widen : T → D
  pub narrow : D → T
  -- x < y and x == y
  pub lt : T → T → Bool
  pub eq : T → T → Bool
  pub double_lt : D → D → Bool
  pub add : T → T → T
  pub sub : T → T → T
  pub mul : T → T → T
  pub double_sub : D → D → D
  pub double_mul : D → D → D
  pub double_div : D → D → D

-- The float that `n / 1000.0` becomes when it is assigned.
abbrev pub millis : (F : Float) → ℕ → F.T
millis F n = F.narrow (F.double_div (F.double_of_int (pos n)) (F.double_literal 1000 1))

-- `x < y - 0.03`, which C computes in double.
abbrev pub below : (F : Float) → F.T → F.T → Bool
below F x y = F.double_lt (F.widen x) (F.double_sub (F.widen y) (F.double_literal 3 100))

-- Comparison is a strict partial order; the float of a negative int is not above 0 and is equal to
-- itself; and the floats of the thousandths up to 255938 (the largest that a sensor can report) are
-- in the order of the thousandths. The `below` laws say where the test `x < y - 0.03` in double
-- arithmetic cannot go either way by rounding.
pub record IsOrdered (F : Float) : Type 0 where
  pub lt_irrefl : (x : F.T) → F.lt x x ≡ false
  pub lt_trans : (x y z : F.T) → F.lt x y ≡ true → F.lt y z ≡ true → F.lt x z ≡ true
  pub zero_lt_negsuc : (k : ℕ) → F.lt (F.of_int (pos 0)) (F.of_int (negsuc k)) ≡ false
  pub eq_negsuc : (k : ℕ) → F.eq (F.of_int (negsuc k)) (F.of_int (negsuc k)) ≡ true
  pub lt_millis : (m n : ℕ) → m ≤ 255938 → n ≤ 255938 → F.lt (millis F m) (millis F n) ≡ ltb m n
  pub zero_lt_millis : (n : ℕ) → n ≤ 255938 → F.lt (F.of_int (pos 0)) (millis F n) ≡ ltb 0 n
  pub negsuc_lt_millis : (k n : ℕ) → n ≤ 255938 → F.lt (F.of_int (negsuc k)) (millis F n) ≡ true
  pub millis_ne_negsuc : (k n : ℕ) → n ≤ 255938 → F.eq (millis F n) (F.of_int (negsuc k)) ≡ false
  pub below_self : (x : F.T) → F.lt (F.of_int (pos 0)) x ≡ true → below F x x ≡ false
  pub below_zero :
      (x : F.T) → F.lt (F.of_int (pos 0)) x ≡ true → below F x (F.of_int (pos 0)) ≡ false
  pub negsuc_below_zero : (k : ℕ) → below F (F.of_int (negsuc k)) (F.of_int (pos 0)) ≡ true
  pub negsuc_below_pos :
      (k : ℕ) (x : F.T) → F.lt (F.of_int (pos 0)) x ≡ true → below F (F.of_int (negsuc k)) x ≡ true
