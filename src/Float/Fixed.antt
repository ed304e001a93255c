-- ===== src/Float/Fixed.antt =====
-- A float that meets the assumptions: whole thousandths.
use batterysystem.Common.{ℕ, ◌+◌, ◌*◌, ◌/◌, ◌≡◌, arith}
use batterysystem.Common.Int.{ℤ, pos, pos_part, neg_part, sub_ℕ, ◌+ℤ◌, ◌-ℤ◌, ltb_ℤ, eqb_ℤ}
use batterysystem.Float.Defs.{Float, IsOrdered, millis}

-- an integer times a natural number, and an integer over one, rounded towards 0
abbrev scale : ℤ → ℕ → ℤ
scale a k = sub_ℕ (pos_part a * k) (neg_part a * k)

abbrev shrink : ℤ → ℕ → ℤ
shrink a k = sub_ℕ (pos_part a / k) (neg_part a / k)

abbrev times : ℤ → ℤ → ℤ
times a b =
    shrink
      (sub_ℕ (pos_part a * pos_part b + neg_part a * neg_part b)
        (pos_part a * neg_part b + neg_part a * pos_part b))
      1000

-- for a positive divisor
abbrev over : ℤ → ℤ → ℤ
over a b = shrink (scale a 1000) (pos_part b)

abbrev pub fixed : Float
fixed = record {
  T = ℤ;
  D = ℤ;
  of_int = λ a. scale a 1000;
  double_of_int = λ a. scale a 1000;
  literal = λ n d. pos (n * 1000 / d);
  double_literal = λ n d. pos (n * 1000 / d);
  widen = λ a. a;
  narrow = λ a. a;
  lt = ltb_ℤ;
  eq = eqb_ℤ;
  double_lt = ltb_ℤ;
  add = ◌+ℤ◌;
  sub = ◌-ℤ◌;
  mul = times;
  double_sub = ◌-ℤ◌;
  double_mul = times;
  double_div = over;
}

millis-fixed : (n : ℕ) → millis fixed n ≡ pos n
millis-fixed n = ground arith

pub fixed-IsOrdered : IsOrdered fixed
fixed-IsOrdered = record {
  lt_irrefl = λ x. ground arith;
  lt_trans = λ x y z p q. ground arith;
  zero_lt_negsuc = λ k. ground arith;
  eq_negsuc = λ k. ground arith;
  lt_millis = λ m n p q. ground (arith, millis-fixed m, millis-fixed n);
  zero_lt_millis = λ n p. ground (arith, millis-fixed n);
  negsuc_lt_millis = λ k n p. ground (arith, millis-fixed n);
  millis_ne_negsuc = λ k n p. ground (arith, millis-fixed n);
  below_self = λ x p. ground arith;
  below_zero = λ x p. ground arith;
  negsuc_below_zero = λ k. ground arith;
  negsuc_below_pos = λ k x p. ground arith;
}
