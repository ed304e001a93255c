-- ===== src/Common/Xor.antt =====
-- The laws of exclusive or that a checksum needs, from the digit recursion that `bit_xor` stands for.
use Prim.Native.Nat.{
  ℕ, zero, suc, ◌+◌, ◌*◌, ◌/◌, ◌%◌, ◌^◌, ◌≤◌, ◌<◌, bit_xor, digits, differ, bit_xor-bitwise,
}
use mathlib.Core.Path.{◌≡◌, refl, ◌∙◌}
use native.Mathlib.Nat.{pow-suc}
use native.Mathlib.Omega.{arith}

abbrev xor_digits : ℕ → ℕ → ℕ → ℕ
xor_digits n a b = digits (λ b. b) differ n a b

differ-bits : (x y : ℕ) → x < 2 → y < 2 → differ x y ≡ (x + y) % 2
differ-bits zero zero p q = refl
differ-bits zero (suc zero) p q = refl
differ-bits zero (suc (suc y)) p q = absurd (omega arith)
differ-bits (suc zero) zero p q = refl
differ-bits (suc zero) (suc zero) p q = refl
differ-bits (suc zero) (suc (suc y)) p q = absurd (omega arith)
differ-bits (suc (suc x)) y p q = absurd (omega arith)

xor_digits_fuel : (n m a b : ℕ) → a ≤ n → a ≤ m → xor_digits n a b ≡ xor_digits m a b
xor_digits_fuel zero zero a b p q = refl
xor_digits_fuel zero (suc m) zero b p q = refl
xor_digits_fuel zero (suc m) (suc a) b p q = absurd (omega arith)
xor_digits_fuel (suc n) zero zero b p q = refl
xor_digits_fuel (suc n) zero (suc a) b p q = absurd (omega arith)
xor_digits_fuel (suc n) (suc m) zero b p q = refl
xor_digits_fuel (suc n) (suc m) (suc a) b p q =
    omega (arith, xor_digits_fuel n m (suc a / 2) (b / 2) (omega arith) (omega arith))

zero-bit_xor : (b : ℕ) → bit_xor 0 b ≡ b
zero-bit_xor b = bit_xor-bitwise 0 b

-- The lowest digit of the exclusive or is the sum without carry, and the rest goes by halves.
pub bit_xor_step : (a b : ℕ) → bit_xor a b ≡ bit_xor (a / 2) (b / 2) * 2 + (a % 2 + b % 2) % 2
bit_xor_step zero b = omega (arith, zero-bit_xor b, zero-bit_xor (b / 2))
bit_xor_step (suc a) b = omega (
  arith,
  bit_xor-bitwise (suc a) b,
  bit_xor-bitwise (suc a / 2) (b / 2),
  xor_digits_fuel a (suc a / 2) (suc a / 2) (b / 2) (omega arith) (omega arith),
  differ-bits (suc a % 2) (b % 2) (omega arith) (omega arith),
)

-- Exclusive or stays within the width of its operands.
pub bit_xor-lt : (k a b : ℕ) → a < 2 ^ k → b < 2 ^ k → bit_xor a b < 2 ^ k
bit_xor-lt zero a b p q =
    let ha : a ≡ 0 = omega arith in
    let hb : b ≡ 0 = omega arith in rw (ha, hb) (omega (arith, zero-bit_xor 0))
bit_xor-lt (suc k) a b p q =
    let e = pow-suc 2 k in
    omega (arith, bit_xor_step a b, bit_xor-lt k (a / 2) (b / 2) (omega arith) (omega arith))

-- Two numbers that differ stay different under exclusive or with a third, on either side.
pub bit_xor_cancel_left : (k s a b : ℕ) → a < 2 ^ k → b < 2 ^ k → bit_xor s a ≡ bit_xor s b → a ≡ b
bit_xor_cancel_left zero s a b p q e = omega arith
bit_xor_cancel_left (suc k) s a b p q e =
    let w = pow-suc 2 k in
    let step = bit_xor_step s a in
    let step' = bit_xor_step s b in
    let halves : a / 2 ≡ b / 2 =
      bit_xor_cancel_left k (s / 2) (a / 2) (b / 2) (omega arith) (omega arith) (omega arith) in
    omega arith

pub bit_xor_comm : (k a b : ℕ) → a < 2 ^ k → b < 2 ^ k → bit_xor a b ≡ bit_xor b a
bit_xor_comm zero a b p q =
    let ha : a ≡ 0 = omega arith in let hb : b ≡ 0 = omega arith in rw (ha, hb)
bit_xor_comm (suc k) a b p q =
    let w = pow-suc 2 k in
    omega (
      arith,
      bit_xor_step a b,
      bit_xor_step b a,
      bit_xor_comm k (a / 2) (b / 2) (omega arith) (omega arith),
    )

pub bit_xor_cancel_right :
    (k a b s : ℕ) → a < 2 ^ k → b < 2 ^ k → s < 2 ^ k → bit_xor a s ≡ bit_xor b s → a ≡ b
bit_xor_cancel_right k a b s p q r e =
    bit_xor_cancel_left k s a b p q (bit_xor_comm k s a r p ∙ e ∙ bit_xor_comm k b s q r)

-- A number cancels itself.
pub bit_xor_self : (k a : ℕ) → a < 2 ^ k → bit_xor a a ≡ 0
bit_xor_self zero a p = let h : a ≡ 0 = omega arith in rw h
bit_xor_self (suc k) a p =
    let w = pow-suc 2 k in omega (arith, bit_xor_step a a, bit_xor_self k (a / 2) (omega arith))
