-- ===== src/Tests/Text.antt =====
-- "%.2f" and atof for floats that are whole thousandths: rounded to hundredths, and read back.
use batterysystem.Common.{
  ℕ, suc, ◌+◌, ◌*◌, ◌-◌, ◌/◌, ◌%◌, ◌≡◌, refl, ap, List, [], ◌∷◌, ◌++◌, All, arith, ◌==◌,
  if◌then◌else◌, All-append,
}
use batterysystem.Common.Int.{ℤ, pos, negsuc, sub_ℕ}
use batterysystem.Common.Text.{codes}
use batterysystem.Float.Fixed.{fixed}
use batterysystem.Savefile.{FloatText, decimal, digits}
use batterysystem.Savefile.Decimal.{digits-IsDigit, decimal_cons}
use batterysystem.Savefile.Fields.{IsText, IsInField, digits-IsInField}

-- hundredths
abbrev pub print_hundredths : ℕ → List ℕ
print_hundredths h = decimal (h / 100) ++ (46 ∷ (48 + h % 100 / 10) ∷ (48 + h % 10) ∷ [])

abbrev pub print_millis : ℤ → List ℕ
print_millis (pos n) = print_hundredths ((n + 5) / 10)
print_millis (negsuc n) = 45 ∷ print_hundredths ((n + 6) / 10)

-- the number without its point, by digits
abbrev pub read_hundredths : ℕ → List ℕ → ℕ
read_hundredths v [] = v
read_hundredths v (c ∷ text) =
    if c == 46 then read_hundredths v text else read_hundredths (v * 10 + (c - 48)) text

abbrev pub read_millis : List ℕ → ℤ
read_millis [] = pos 0
read_millis (c ∷ text) =
    if c == 45
    then sub_ℕ 0 (read_hundredths 0 text * 10)
    else pos (read_hundredths 0 (c ∷ text) * 10)

abbrev pub fixed_text : FloatText fixed
fixed_text = record { print = print_millis; atof = read_millis }

print_test : print_millis (pos 2126) ≡ codes "2.13"
unfolding digits
print_test = refl

read_test : read_millis (codes "2.13") ≡ pos 2130
read_test = refl

hundredths-IsInField : (h : ℕ) → All IsInField (print_hundredths h)
hundredths-IsInField h =
    All-append IsInField (decimal (h / 100)) (46 ∷ (48 + h % 100 / 10) ∷ (48 + h % 10) ∷ [])
      (digits-IsInField (decimal (h / 100)) (digits-IsDigit (suc (h / 100)) (h / 100)))
      (
        ((ground arith, ground arith), ground arith),
        (
          ((ground arith, ground arith), ground arith),
          (((ground arith, ground arith), ground arith), tt),
        ),
      )

hundredths_cons : (h : ℕ) → (c : ℕ) × (cs : List ℕ) × (print_hundredths h ≡ c ∷ cs)
hundredths_cons h =
    let (c, cs, e) = decimal_cons (h / 100) in
    let last = 46 ∷ (48 + h % 100 / 10) ∷ (48 + h % 10) ∷ [] in
    (c, cs ++ last, ap (λ z. z ++ last) e)

millis_cons : (x : ℤ) → (c : ℕ) × (cs : List ℕ) × (print_millis x ≡ c ∷ cs)
millis_cons (pos n) = hundredths_cons ((n + 5) / 10)
millis_cons (negsuc n) = (45, print_hundredths ((n + 6) / 10), refl)

millis-IsInField : (x : ℤ) → All IsInField (print_millis x)
millis-IsInField (pos n) = hundredths-IsInField ((n + 5) / 10)
millis-IsInField (negsuc n) =
    (((ground arith, ground arith), ground arith), hundredths-IsInField ((n + 6) / 10))

pub fixed_text-IsText : IsText fixed_text
fixed_text-IsText = record { first = millis_cons; plain = millis-IsInField }
