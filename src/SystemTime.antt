-- ===== src/SystemTime.antt =====
-- batterySystem/temptest.c: `SetSystemTime`, which sets the clock from a text, and the program that tries
-- it. The C library's mktime, localtime, asctime and strftime and the system's clock are a parameter.
pub mod RoundTrip
use batterysystem.Common.{
  ℕ, zero, suc, ◌+◌, ◌*◌, ◌-◌, ◌/◌, ◌%◌, List, [], ◌∷◌, ◌++◌, Option, none, some, Bool, true, false,
  ltb, ◌&&◌, ◌==◌, if◌then◌else◌,
}
use batterysystem.Common.Int.{ℤ, pos, negsuc, sub_ℕ, ◌-ℤ◌}
use batterysystem.Common.Runs.{M, bind, done, fault}
use batterysystem.Common.Text.{codes}
use batterysystem.Savefile.{is_digit, is_space, decimal}

-- The digits at the head of a text, after those of the value so far, and the text after them.
unfoldable pub read_digits : ℕ → List ℕ → ℕ × List ℕ
read_digits value [] = (value, [])
read_digits value (c ∷ text) =
    let rest = read_digits (value * 10 + (c - 48)) text in
    if is_digit c then rest else (value, c ∷ text)

unfoldable pub unsigned : List ℕ → Option (ℕ × List ℕ)
unfolding read_digits
unsigned [] = none
unsigned (c ∷ text) = if is_digit c then some (read_digits 0 (c ∷ text)) else none

-- the number with its sign
unfoldable pub with_sign : (ℕ → ℤ) → Option (ℕ × List ℕ) → Option (ℤ × List ℕ)
with_sign sign none = none
with_sign sign (some (n, text)) = some (sign n, text)

unfoldable pub skip_spaces : List ℕ → List ℕ
skip_spaces [] = []
skip_spaces (c ∷ text) = let rest = skip_spaces text in if is_space c then rest else c ∷ text

unfoldable pub signed : List ℕ → Option (ℤ × List ℕ)
unfolding unsigned with_sign
signed [] = none
signed (c ∷ text) =
    if c == 45
    then with_sign (sub_ℕ 0) (unsigned text)
    else if c == 43
    then with_sign pos (unsigned text)
    else with_sign pos (unsigned (c ∷ text))

-- "%d" of sscanf; `none` where no number stands there. (What does not fit into an int is
-- undefined; set_system_time tests it.)
unfoldable pub read_int : List ℕ → Option (ℤ × List ℕ)
unfolding skip_spaces signed
read_int text = signed (skip_spaces text)

-- A character of the format between two numbers: a space is any white space, or none.
unfoldable pub read_separator : ℕ → List ℕ → Option (List ℕ)
unfolding skip_spaces
read_separator separator [] = if separator == 32 then some [] else none
read_separator separator (c ∷ text) =
    if separator == 32
    then some (skip_spaces (c ∷ text))
    else if c == separator
    then some text
    else none

-- What follows a "%d", and what follows a separator: the numbers read from the rest of the text, if it
-- was found.
unfoldable pub after_number : Option (ℤ × List ℕ) → (List ℕ → List ℤ) → List ℤ
after_number none next = []
after_number (some (n, rest)) next = n ∷ next rest

unfoldable pub after_separator : Option (List ℕ) → (List ℕ → List ℤ) → List ℤ
after_separator none next = []
after_separator (some rest) next = next rest

-- The numbers that sscanf stores, up to the first that it does not find.
unfoldable pub read_numbers : List ℕ → List ℕ → List ℤ
unfolding read_int read_separator after_number after_separator
read_numbers [] text = after_number (read_int text) (λ rest. [])
read_numbers (separator ∷ format) text =
    after_number (read_int text)
      λ rest. after_separator (read_separator separator rest) (read_numbers format)

-- Whether an int of 32 bits holds the number.
unfoldable pub is_int : ℤ → Bool
is_int (pos n) = ltb n 2147483648
is_int (negsuc n) = ltb n 2147483648

unfoldable pub are_ints : List ℤ → Bool
unfolding is_int
are_ints [] = true
are_ints (n ∷ numbers) = is_int n && are_ints numbers

-- "%d-%d-%d %d:%d:%d", by what stands between the numbers
abbrev pub format : List ℕ
format = codes "-- ::"

-- `struct rtc_time` and `struct tm`, as far as they are used.
pub record Tm : Type 0 where
  pub tm_year : ℤ
  pub tm_mon : ℤ
  pub tm_mday : ℤ
  pub tm_hour : ℤ
  pub tm_min : ℤ
  pub tm_sec : ℤ
  pub tm_isdst : ℤ

-- The fields in the order of the format; those for which no number was read keep what they had.
unfoldable pub store_numbers : List ℤ → Tm → Tm
store_numbers [] t = t
store_numbers (y ∷ []) t = record t { tm_year = y }
store_numbers (y ∷ m ∷ []) t = record t { tm_year = y; tm_mon = m }
store_numbers (y ∷ m ∷ d ∷ []) t = record t { tm_year = y; tm_mon = m; tm_mday = d }
store_numbers (y ∷ m ∷ d ∷ h ∷ []) t = record t {
  tm_year = y;
  tm_mon = m;
  tm_mday = d;
  tm_hour = h;
}
store_numbers (y ∷ m ∷ d ∷ h ∷ n ∷ []) t = record t {
  tm_year = y;
  tm_mon = m;
  tm_mday = d;
  tm_hour = h;
  tm_min = n;
}
store_numbers (y ∷ m ∷ d ∷ h ∷ n ∷ s ∷ rest) t = record t {
  tm_year = y;
  tm_mon = m;
  tm_mday = d;
  tm_hour = h;
  tm_min = n;
  tm_sec = s;
}

-- `_tm` from `tm`
abbrev pub calendar : Tm → Tm
calendar t = record t { tm_mon = t.tm_mon -ℤ pos 1; tm_year = t.tm_year -ℤ pos 1900 }

-- The clock and the C library.
pub record Clock : Type 1 where
  pub World : Type 0
  pub time : World → ℕ × World
  -- settimeofday(_, 0) of a number of seconds: whether it succeeds
  pub settimeofday : ℤ → World → Bool × World
  pub print : List ℕ → World → World
  -- in the time zone of the system
  pub mktime : Tm → ℤ
  pub localtime : ℕ → Tm
  pub asctime : Tm → List ℕ
  -- strftime "%x %X %n%Y-%m-%d %H:%M:%S %nzone: %Z\n"
  pub strftime : Tm → List ℕ
  -- sizeof(int), sizeof(long int) and sizeof(time_t)
  pub sizes : ℕ × ℕ × ℕ

-- "%lx", by as much fuel as the number itself
unfoldable pub hexadecimal : ℕ → ℕ → List ℕ
hexadecimal zero n = []
hexadecimal (suc fuel) n =
    let digit = (if ltb (n % 16) 10 then 48 + n % 16 else 87 + n % 16) in
    elim (ltb n 16) [ true ↦ digit ∷ [] | false ↦ hexadecimal fuel (n / 16) ++ digit ∷ [] ]

module _ (C : Clock) where
  open C use {World}

  -- `unset` is what stands in `tm` and `_tm` before sscanf, which C leaves open; of its fields
  -- `tm_isdst` is never set, and mktime reads it. A number beyond an int is undefined.
  unfoldable pub set_system_time : Tm → List ℕ → M World ℤ
  unfolding read_numbers store_numbers are_ints
  set_system_time unset dt w =
      let numbers = read_numbers format dt in
      let (ok, w1) = C.settimeofday (C.mktime (calendar (store_numbers numbers unset))) w in
      if are_ints numbers
      then (if ok
          then done (pos 0) w1
          else done (negsuc 0) (C.print (codes "Set system datatime error!/n") w1))
      else fault

  -- the program: what it prints, and the clock that it sets
  unfoldable pub main : Tm → M World ℤ
  unfolding set_system_time hexadecimal
  main unset w =
      let (now, w1) = C.time w in
      let timenow = C.localtime now in
      let w2 = C.print (codes "Local   time   is   " ++ (C.asctime timenow ++ codes "/n")) w1 in
      bind (set_system_time unset (codes "2015-12-15 10:54:00") w2) λ _ w3.
        let w4 = C.print (codes "now datetime : " ++ (C.strftime timenow ++ codes "\n")) w3 in
        let w5 = C.print (codes "nowtime = " ++ (decimal now ++ codes "\n")) w4 in
        let w6 = C.print (codes "nowtime = " ++ (hexadecimal 92801 92800 ++ codes "\n")) w5 in
        let (size_int, size_long, size_time) = C.sizes in
        done (pos 0) (
          C.print
            (codes "nowtime = int:"
              ++ (decimal size_int
                  ++ (codes "   long :"
                      ++ (decimal size_long
                          ++ (codes "  time_t:" ++ (decimal size_time ++ codes "\n"))))))
            w6)
