-- ===== src/SystemTime/RoundTrip.antt =====
-- `SetSystemTime` on the texts of the form that its comment shows.
use mathlib.Core.Path.{subst}
use batterysystem.Common.{
  ℕ, suc, ◌+◌, ◌*◌, ◌-◌, ◌≡◌, refl, sym, ap, ◌∙◌, List, [], ◌∷◌, ◌++◌, some, Bool, true, false, ◌<◌,
  lt→ltb, ◌==◌, ==_refl, All, arith, if◌then◌else◌,
}
use batterysystem.Common.Int.{ℤ, pos, negsuc, ◌-ℤ◌}
use batterysystem.Common.Runs.{Run, done}
use batterysystem.Common.Text.{codes}
use batterysystem.Savefile.{is_digit, is_space, decimal, digits_value}
use batterysystem.Savefile.Decimal.{IsDigit, digits-IsDigit, digits_value-digits, decimal_cons}
use batterysystem.SystemTime.{
  Tm, Clock, read_digits, unsigned, with_sign, skip_spaces, signed, read_int, read_separator,
  after_number, after_separator, read_numbers, store_numbers, is_int, are_ints, format,
  set_system_time,
}

-- A text that does not go on with a digit.
Stops : List ℕ → Type 0
Stops [] = Unit {0}
Stops (c ∷ text) = is_digit c ≡ false

read_digits-append :
    (v : ℕ) (xs rest : List ℕ)
    → All IsDigit xs
    → Stops rest
    → read_digits v (xs ++ rest) ≡ (digits_value v xs, rest)
unfolding read_digits digits_value Stops
read_digits-append v [] [] ds stops = refl
read_digits-append v [] (c ∷ rest) ds stops = rw stops refl
read_digits-append v (x ∷ xs) rest (p, ds) stops =
    rw p (read_digits-append (v * 10 + (x - 48)) xs rest ds stops)

unsigned_digit :
    (c : ℕ) (text : List ℕ) → IsDigit c → unsigned (c ∷ text) ≡ some (read_digits 0 (c ∷ text))
unfolding unsigned
unsigned_digit c text p = rw p refl

unsigned-append :
    (c : ℕ) (cs rest : List ℕ)
    → All IsDigit (c ∷ cs)
    → Stops rest
    → unsigned (c ∷ (cs ++ rest)) ≡ some (digits_value 0 (c ∷ cs), rest)
unsigned-append c cs rest (p, ds) stops =
    unsigned_digit c (cs ++ rest) p ∙ ap some (read_digits-append 0 (c ∷ cs) rest (p, ds) stops)

read_int-append :
    (c : ℕ) (cs rest : List ℕ)
    → All IsDigit (c ∷ cs)
    → Stops rest
    → read_int (c ∷ (cs ++ rest)) ≡ some (pos (digits_value 0 (c ∷ cs)), rest)
unfolding read_int skip_spaces signed with_sign
read_int-append c cs rest (p, ds) stops =
    let space : is_space c ≡ false = ground arith in
    let minus : (c == 45) ≡ false = ground arith in
    let plus : (c == 43) ≡ false = ground arith in
    rw (space, minus, plus, unsigned-append c cs rest (p, ds) stops) refl

-- A printed number is read back, with what stands after it.
read_int-decimal :
    (n : ℕ) (rest : List ℕ) → Stops rest → read_int (decimal n ++ rest) ≡ some (pos n, rest)
read_int-decimal n rest stops =
    let (c, cs, e) = decimal_cons n in
    let ds = subst (All IsDigit) e (digits-IsDigit (suc n) n) in
    ap (λ z. read_int (z ++ rest)) e
    ∙ read_int-append c cs rest ds stops
    ∙ ap (λ z. some (pos (digits_value 0 z), rest)) (sym e)
    ∙ ap (λ v. some (pos v, rest)) (digits_value-digits (suc n) n (omega arith))

-- The text of a time, as in "2006-4-20 20:30:30".
pub print_time : ℕ → ℕ → ℕ → ℕ → ℕ → ℕ → List ℕ
print_time year month day hour minute second =
    decimal year
    ++ (45
        ∷ (decimal month
            ++ (45
                ∷ (decimal day
                    ++ (32
                        ∷ (decimal hour
                            ++ (58 ∷ (decimal minute ++ (58 ∷ (decimal second ++ []))))))))))

read_numbers-decimal :
    (separator n : ℕ) (fmt rest after : List ℕ)
    → is_digit separator ≡ false
    → read_separator separator (separator ∷ rest) ≡ some after
    → read_numbers (separator ∷ fmt) (decimal n ++ (separator ∷ rest))
      ≡ pos n ∷ read_numbers fmt after
unfolding read_numbers after_number after_separator Stops
read_numbers-decimal separator n fmt rest after stops e =
    rw (read_int-decimal n (separator ∷ rest) stops, e) refl

read_separator_same :
    (separator : ℕ) (rest : List ℕ)
    → (separator == 32) ≡ false
    → read_separator separator (separator ∷ rest) ≡ some rest
unfolding read_separator
read_separator_same separator rest e = rw (e, ==_refl separator) refl

skip_spaces_digit : (c : ℕ) (text : List ℕ) → IsDigit c → skip_spaces (c ∷ text) ≡ c ∷ text
unfolding skip_spaces
skip_spaces_digit c text p = let space : is_space c ≡ false = ground arith in rw space refl

read_separator_space :
    (n : ℕ) (rest : List ℕ)
    → read_separator 32 (32 ∷ (decimal n ++ rest)) ≡ some (decimal n ++ rest)
unfolding read_separator skip_spaces
read_separator_space n rest =
    let (c, cs, e) = decimal_cons n in
    let ds = subst (All IsDigit) e (digits-IsDigit (suc n) n) in
    subst (λ z. some (skip_spaces (z ++ rest)) ≡ some (z ++ rest)) (sym e)
      (ap some (skip_spaces_digit c (cs ++ rest) (ds.0)))

-- sscanf reads the numbers of a printed time.
read_numbers-print_time :
    (year month day hour minute second : ℕ)
    → read_numbers format (print_time year month day hour minute second)
      ≡ pos year ∷ pos month ∷ pos day ∷ pos hour ∷ pos minute ∷ pos second ∷ []
unfolding print_time read_numbers after_number Stops
read_numbers-print_time year month day hour minute second =
    let seconds = decimal second ++ [] in
    let minutes = decimal minute ++ (58 ∷ seconds) in
    let hours = decimal hour ++ (58 ∷ minutes) in
    let days = decimal day ++ (32 ∷ hours) in
    let months = decimal month ++ (45 ∷ days) in
    let colon = read_separator_same 58 in
    let dash = read_separator_same 45 in
    read_numbers-decimal 45 year (codes "- ::") months months refl (dash months refl)
    ∙ ap (◌∷◌ (pos year))
        (read_numbers-decimal 45 month (codes " ::") days days refl (dash days refl))
    ∙ ap (λ r. pos year ∷ pos month ∷ r)
        (read_numbers-decimal 32 day (codes "::") hours hours refl
          (read_separator_space hour (58 ∷ minutes)))
    ∙ ap (λ r. pos year ∷ pos month ∷ pos day ∷ r)
        (read_numbers-decimal 58 hour (codes ":") minutes minutes refl (colon minutes refl))
    ∙ ap (λ r. pos year ∷ pos month ∷ pos day ∷ pos hour ∷ r)
        (read_numbers-decimal 58 minute [] seconds seconds refl (colon seconds refl))
    ∙ ap (λ r. pos year ∷ pos month ∷ pos day ∷ pos hour ∷ pos minute ∷ after_number r (λ _. []))
        (read_int-decimal second [] tt)

are_six :
    (year month day hour minute second : ℕ)
    → year < 2147483648
    → month < 2147483648
    → day < 2147483648
    → hour < 2147483648
    → minute < 2147483648
    → second < 2147483648
    → are_ints (pos year ∷ pos month ∷ pos day ∷ pos hour ∷ pos minute ∷ pos second ∷ []) ≡ true
unfolding are_ints is_int
are_six year month day hour minute second y mo d h mi s =
    rw
      (
        lt→ltb year 2147483648 y,
        lt→ltb month 2147483648 mo,
        lt→ltb day 2147483648 d,
        lt→ltb hour 2147483648 h,
        lt→ltb minute 2147483648 mi,
        lt→ltb second 2147483648 s,
      )
      refl

module _ (C : Clock) where
  open C use {World}

  -- What SetSystemTime returns for the result of settimeofday.
  abbrev pub reported : Bool × World → Run World ℤ
  reported (ok, w) =
      if ok
      then done (pos 0) w
      else done (negsuc 0) (C.print (codes "Set system datatime error!/n") w)

  -- A number that fits into an int.
  abbrev pub IsInt : ℕ → Type 0
  IsInt n = n < 2147483648

  -- For every time whose six numbers fit into an int, SetSystemTime of the text in which it is printed, as
  -- in "2006-4-20 20:30:30", sets the clock to the seconds that mktime makes of that time, with the
  -- month counted from 0 and the year from 1900, and with the flag for daylight saving time that stood in
  -- the variable before, and returns 0 if the clock could be set and else -1.
  pub set_system_time-print_time :
      (unset : Tm) (year month day hour minute second : ℕ) (w : World)
      → IsInt year
      → IsInt month
      → IsInt day
      → IsInt hour
      → IsInt minute
      → IsInt second
      → set_system_time C unset (print_time year month day hour minute second) w
        ≡ reported (
            C.settimeofday
              (C.mktime (record {
                tm_year = pos year -ℤ pos 1900;
                tm_mon = pos month -ℤ pos 1;
                tm_mday = pos day;
                tm_hour = pos hour;
                tm_min = pos minute;
                tm_sec = pos second;
                tm_isdst = unset.tm_isdst;
              }))
              w)
  unfolding set_system_time store_numbers
  set_system_time-print_time unset year month day hour minute second w y mo d h mi s =
      rw
        (
          read_numbers-print_time year month day hour minute second,
          are_six year month day hour minute second y mo d h mi s,
        )
        refl
