-- ===== src/Database/Sql/Buffer/Plain.antt =====
-- The texts of statements have no NUL.
use batterysystem.Common.{
  ℕ, suc, ◌-◌, ◌≡◌, refl, List, [], ◌∷◌, ◌++◌, Bool, true, ◌&&◌, not, ◌==◌, length, replicate, All,
  zero, arith,
}
use batterysystem.Float.{Float}
use batterysystem.Output.{Moment, two_digits}
use batterysystem.Savefile.{decimal}
use batterysystem.Savefile.Decimal.{IsDigit, digits-IsDigit}
use batterysystem.Database.{
  Statement, battery_group, battery_single, battery_config, network_config, battery_current,
  create_database, create_table, insert_group, insert_cell, delete_old, select_total, insert_config,
  insert_current,
}
use batterysystem.Database.Sql.{Printing, four_digits, timestring, joined, pieces, sql}

-- no NUL
abbrev pub is_plain : List ℕ → Bool
is_plain [] = true
is_plain (c ∷ text) = not (c == 0) && is_plain text

abbrev all_plain : List (List ℕ) → Bool
all_plain [] = true
all_plain (text ∷ texts) = is_plain text && all_plain texts

pub is_plain-append :
    (xs ys : List ℕ) → is_plain xs ≡ true → is_plain ys ≡ true → is_plain (xs ++ ys) ≡ true
is_plain-append [] ys h k = k
is_plain-append (x ∷ xs) ys h k = ground (arith, is_plain-append xs ys)

joined-plain : (texts : List (List ℕ)) → all_plain texts ≡ true → is_plain (joined texts) ≡ true
joined-plain [] h = refl
joined-plain (text ∷ texts) h =
    ground (arith, is_plain-append text (joined texts), joined-plain texts)

digits-plain : (xs : List ℕ) → All IsDigit xs → is_plain xs ≡ true
digits-plain [] h = refl
digits-plain (x ∷ xs) (d, ds) = ground (arith, digits-plain xs ds)

pub decimal-plain : (n : ℕ) → is_plain (decimal n) ≡ true
decimal-plain n = digits-plain (decimal n) (digits-IsDigit (suc n) n)

zeros-plain : (n : ℕ) → is_plain (replicate n 48) ≡ true
zeros-plain zero = refl
zeros-plain (suc n) = zeros-plain n

two_digits-plain : (n : ℕ) → is_plain (two_digits n) ≡ true
unfolding two_digits
two_digits-plain n = ground arith

four_digits-plain : (n : ℕ) → is_plain (four_digits n) ≡ true
unfolding four_digits
four_digits-plain n =
    let missing = 4 - length (decimal n) in
    is_plain-append (replicate missing 48) (decimal n) (zeros-plain missing) (decimal-plain n)

timestring-plain : (t : Moment) → is_plain (timestring t) ≡ true
unfolding timestring
timestring-plain t =
    let last = two_digits t.minute ++ two_digits t.second in
    let time = two_digits t.hour ++ last in
    let month = two_digits t.month ++ (two_digits t.day ++ time) in
    let last-plain =
      is_plain-append (two_digits t.minute) (two_digits t.second) (two_digits-plain t.minute)
        (two_digits-plain t.second) in
    let time-plain =
      is_plain-append (two_digits t.hour) last (two_digits-plain t.hour) last-plain in
    is_plain-append (four_digits t.year) month (four_digits-plain t.year) (
      is_plain-append (two_digits t.month) (two_digits t.day ++ time) (two_digits-plain t.month)
        (is_plain-append (two_digits t.day) time (two_digits-plain t.day) time-plain))

-- What printf makes of a number has no NUL.
pub record IsPrinted {F : Float} (X : Printing F) : Type 0 where
  pub print-plain : (k : ℕ) (x : F.T) → is_plain (X.print k x) ≡ true
  pub print_double-plain : (k : ℕ) (x : F.D) → is_plain (X.print_double k x) ≡ true

module _ {F : Float} (X : Printing F) (p : IsPrinted X) where
  pieces-plain : (s : Statement F) → all_plain (pieces X s) ≡ true
  unfolding pieces
  pieces-plain create_database = refl
  pieces-plain (create_table battery_group) = refl
  pieces-plain (create_table battery_single) = refl
  pieces-plain (create_table battery_config) = refl
  pieces-plain (create_table network_config) = refl
  pieces-plain (create_table battery_current) = refl
  pieces-plain (insert_group time total sum current temperature) = rw (
    timestring-plain (X.localtime time),
    decimal-plain total,
    p.print-plain 3 sum,
    p.print-plain 3 current,
    p.print-plain 3 temperature,
  )
  pieces-plain (insert_cell time number voltage resistance capacity) = rw (
    timestring-plain (X.localtime time),
    decimal-plain number,
    p.print-plain 3 voltage,
    p.print-plain 3 resistance,
    p.print-plain 3 capacity,
  )
  pieces-plain (delete_old battery_group) = refl
  pieces-plain (delete_old battery_single) = refl
  pieces-plain (delete_old battery_config) = refl
  pieces-plain (delete_old network_config) = refl
  pieces-plain (delete_old battery_current) = refl
  pieces-plain select_total = refl
  pieces-plain (insert_config total max_vol min_vol max_res min_cap) = rw (
    decimal-plain total,
    p.print_double-plain 3 max_vol,
    p.print_double-plain 3 min_vol,
    p.print_double-plain 2 max_res,
    p.print_double-plain 1 min_cap,
  )
  pieces-plain (insert_current time current) =
      rw (timestring-plain (X.localtime time), p.print-plain 3 current)

  pub sql-plain : (s : Statement F) → is_plain (sql X s) ≡ true
  unfolding sql
  sql-plain s = joined-plain (pieces X s) (pieces-plain s)
