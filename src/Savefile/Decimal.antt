-- ===== src/Savefile/Decimal.antt =====
-- Decimal numbers in RES_FILE: `atoi` of what "%d" prints.
use mathlib.Core.Path.{subst}
use native.Mathlib.Numerals.{unary_clauses}
use batterysystem.Common.{
  lt_or_ge, ℕ, zero, suc, ◌+◌, ◌*◌, ◌-◌, ◌/◌, ◌%◌, ◌^◌, ◌<◌, ◌≤◌, length, length-snoc, ◌≡◌, refl,
  sym, ap, ◌∙◌, List, [], ◌∷◌, ◌++◌, true, false, ltb, ◌==◌, All, arith, inl, inr, All-append,
}
use batterysystem.Common.Int.{pos}
use batterysystem.Savefile.{is_digit, is_space, digits, decimal, digits_value, signed_value, atoi}

abbrev pub IsDigit : ℕ → Type 0
IsDigit c = is_digit c ≡ true

add_lt_ten_lem : (n : ℕ) → n < 10 → IsDigit (48 + n)
add_lt_ten_lem n h = ground arith

digits_value-snoc :
    (v : ℕ) (xs : List ℕ) (d : ℕ)
    → All IsDigit xs
    → d < 10
    → digits_value v (xs ++ (48 + d) ∷ []) ≡ digits_value v xs * 10 + d
unfolding digits_value
digits_value-snoc v [] d ds h = rw (add_lt_ten_lem d h) (omega arith)
digits_value-snoc v (x ∷ xs) d (p, ds) h = rw p (digits_value-snoc (v * 10 + (x - 48)) xs d ds h)

digits_small : (fuel n : ℕ) → n < 10 → digits (suc fuel) n ≡ (48 + n) ∷ []
unfolding digits
digits_small fuel n h = let e : ltb n 10 ≡ true = ground arith in rw (e, digits)

digits_large :
    (fuel n : ℕ) → 10 ≤ n → digits (suc fuel) n ≡ digits fuel (n / 10) ++ (48 + n % 10) ∷ []
unfolding digits
digits_large fuel n h = let e : ltb n 10 ≡ false = ground arith in rw (e, digits)

pub digits-IsDigit : (fuel n : ℕ) → All IsDigit (digits fuel n)
unfolding digits
digits-IsDigit zero n = tt
digits-IsDigit (suc fuel) n = elim (lt_or_ge n 10) [
  | inl small ↦ subst (All IsDigit) (sym (digits_small fuel n small)) (add_lt_ten_lem n small, tt)
  | inr large ↦ subst (All IsDigit) (sym (digits_large fuel n large)) (
      All-append IsDigit (digits fuel (n / 10)) ((48 + n % 10) ∷ []) (digits-IsDigit fuel (n / 10))
        (add_lt_ten_lem (n % 10) (omega arith), tt))
]

pub digits_value-digits : (fuel n : ℕ) → n < fuel → digits_value 0 (digits fuel n) ≡ n
unfolding digits_value
digits_value-digits zero n h = elim h [ ]
digits_value-digits (suc fuel) n h = elim (lt_or_ge n 10) [
  | inl small ↦
      ap (digits_value 0) (digits_small fuel n small)
      ∙ digits_value-snoc 0 [] n tt small
      ∙ omega arith
  | inr large ↦
      ap (digits_value 0) (digits_large fuel n large)
      ∙ digits_value-snoc 0 (digits fuel (n / 10)) (n % 10) (digits-IsDigit fuel (n / 10))
          (omega arith)
      ∙ omega (arith, digits_value-digits fuel (n / 10) (omega arith))
]

-- A number that begins with a digit has no space and no sign.
atoi_of_digits : (xs : List ℕ) → All IsDigit xs → atoi xs ≡ pos (digits_value 0 xs)
unfolding atoi signed_value digits_value
atoi_of_digits [] ds = refl
atoi_of_digits (x ∷ xs) (p, ds) =
    let space : is_space x ≡ false = ground arith in
    let minus : (x == 45) ≡ false = ground arith in
    let plus : (x == 43) ≡ false = ground arith in rw (space, minus, plus)

-- atoi of a printed number is the number.
pub atoi-decimal : (n : ℕ) → atoi (decimal n) ≡ pos n
atoi-decimal n =
    atoi_of_digits (decimal n) (digits-IsDigit (suc n) n)
    ∙ ap pos (digits_value-digits (suc n) n (omega arith))

snoc_cons : (xs : List ℕ) (x : ℕ) → (c : ℕ) × (cs : List ℕ) × (xs ++ x ∷ [] ≡ c ∷ cs)
snoc_cons [] x = (x, [], refl)
snoc_cons (y ∷ xs) x = (y, xs ++ x ∷ [], refl)

-- A printed number has a digit.
pub decimal_cons : (n : ℕ) → (c : ℕ) × (cs : List ℕ) × (decimal n ≡ c ∷ cs)
decimal_cons n = elim (lt_or_ge n 10) [
  | inl small ↦ (48 + n, [], digits_small n n small)
  | inr large ↦
      let (c, cs, e) = snoc_cons (digits n (n / 10)) (48 + n % 10) in
      (c, cs, digits_large n n large ∙ e)
]

tenth_lt : (k n : ℕ) → n < 10 ^ suc (suc k) → n / 10 < 10 ^ suc k
tenth_lt k n h = let wide = simp unary_clauses at h in simp unary_clauses (omega (arith, wide))

-- A number below a power of ten is printed with at most as many digits as the exponent says.
pub length-digits : (k fuel n : ℕ) → n < 10 ^ suc k → length (digits fuel n) ≤ suc k
unfolding digits
length-digits k zero n h = omega arith
length-digits zero (suc fuel) n h = omega (arith, ap length (digits_small fuel n h))
length-digits (suc k) (suc fuel) n h = elim (lt_or_ge n 10) [
  | inl small ↦ omega (arith, ap length (digits_small fuel n small))
  | inr large ↦ omega (
    arith,
    ap length (digits_large fuel n large),
    length-snoc (digits fuel (n / 10)) (48 + n % 10),
    length-digits k fuel (n / 10) (tenth_lt k n h),
  )
]
