-- ===== src/Database/Sql/Bounds.antt =====
-- The buffers for the statements.
use batterysystem.Common.{
  ℕ, suc, ◌+◌, ◌-◌, replicate, ◌≤◌, ◌<◌, ◌≡◌, refl, ap, ◌∙◌, List, [], ◌∷◌, ◌++◌, length,
  length-append, length-replicate, arith,
}
use batterysystem.Float.{Float}
use batterysystem.Output.{Moment, two_digits}
use batterysystem.Savefile.{decimal}
use batterysystem.Savefile.Decimal.{length-digits}
use batterysystem.Database.{
  Statement, battery_group, battery_single, battery_config, network_config, battery_current,
  create_database, create_table, insert_group, insert_cell, delete_old, select_total, insert_config,
  insert_current,
}
use batterysystem.Database.Sql.{Printing, four_digits, timestring, joined, pieces, sql}

sum_lengths : List (List ℕ) → ℕ
sum_lengths [] = 0
sum_lengths (piece ∷ rest) = length piece + sum_lengths rest

length-joined : (xs : List (List ℕ)) → length (joined xs) ≡ sum_lengths xs
unfolding sum_lengths
length-joined [] = refl
length-joined (piece ∷ rest) =
    length-append piece (joined rest) ∙ ap (λ n. length piece + n) (length-joined rest)

-- With a year of at most four digits `timestring` and its NUL fit into 15 characters.
timestring-bound : (t : Moment) → t.year < 10000 → length (timestring t) + 1 ≤ 15
unfolding timestring four_digits two_digits
timestring-bound t h =
    let year = decimal t.year in
    let zeros : List ℕ = replicate (4 - length year) 48 in
    let rest =
      two_digits t.month
      ++ (two_digits t.day
          ++ (two_digits t.hour ++ (two_digits t.minute ++ two_digits t.second))) in
    omega (
      arith,
      length-digits 3 (suc t.year) t.year h,
      length-replicate {A = ℕ} (4 - length year) 48,
      length-append zeros year,
      length-append (zeros ++ year) rest,
    )

module _ {F : Float} (X : Printing F) where
  -- A printed number of at most 44 characters, as many as "%.3f" makes of a float of 32 bits.
  abbrev pub IsNarrow : List ℕ → Type 0
  IsNarrow text = length text ≤ 44

  abbrev pub IsDated : ℕ → Type 0
  IsDated time = (X.localtime time).year < 10000

  -- A statement whose numbers are not wider than their types make them.
  abbrev pub IsShort : Statement F → Type 0
  IsShort (insert_group time total sum current temperature) =
      IsDated time
      × (total < 10000000000)
      × IsNarrow (X.print 3 sum)
      × IsNarrow (X.print 3 current)
      × IsNarrow (X.print 3 temperature)
  IsShort (insert_cell time number voltage resistance capacity) =
      IsDated time
      × (number < 10000000000)
      × IsNarrow (X.print 3 voltage)
      × IsNarrow (X.print 3 resistance)
      × IsNarrow (X.print 3 capacity)
  IsShort (insert_config total max_vol min_vol max_res min_cap) =
      (total < 10000000000)
      × IsNarrow (X.print_double 3 max_vol)
      × IsNarrow (X.print_double 3 min_vol)
      × IsNarrow (X.print_double 2 max_res)
      × IsNarrow (X.print_double 1 min_cap)
  IsShort (insert_current time current) = IsDated time × IsNarrow (X.print 3 current)
  IsShort _ = Unit

  length-number : (n : ℕ) → n < 10000000000 → length (decimal n) ≤ 10
  length-number n h = length-digits 9 (suc n) n h

  -- A statement, whose numbers print with at most 44 characters, the integers with ten digits and the year
  -- with four, fits with its NUL into the 512 characters of `querystring`.
  pub sql-bound : (s : Statement F) → IsShort s → length (sql X s) + 1 ≤ 512
  unfolding sql pieces sum_lengths
  sql-bound create_database h = omega arith
  sql-bound (create_table battery_group) h = omega arith
  sql-bound (create_table battery_single) h = omega arith
  sql-bound (create_table battery_config) h = omega arith
  sql-bound (create_table network_config) h = omega arith
  sql-bound (create_table battery_current) h = omega arith
  sql-bound (insert_group time total sum current temperature) (dated, few, a, b, c) = omega (
    arith,
    length-joined (pieces X (insert_group time total sum current temperature)),
    timestring-bound (X.localtime time) dated,
    length-number total few,
    a,
    b,
    c,
  )
  sql-bound (insert_cell time number voltage resistance capacity) (dated, few, a, b, c) = omega (
    arith,
    length-joined (pieces X (insert_cell time number voltage resistance capacity)),
    timestring-bound (X.localtime time) dated,
    length-number number few,
    a,
    b,
    c,
  )
  sql-bound (delete_old battery_group) h = omega arith
  sql-bound (delete_old battery_single) h = omega arith
  sql-bound (delete_old battery_config) h = omega arith
  sql-bound (delete_old network_config) h = omega arith
  sql-bound (delete_old battery_current) h = omega arith
  sql-bound select_total h = omega arith
  sql-bound (insert_config total max_vol min_vol max_res min_cap) (few, a, b, c, d) = omega (
    arith,
    length-joined (pieces X (insert_config total max_vol min_vol max_res min_cap)),
    length-number total few,
    a,
    b,
    c,
    d,
  )
  sql-bound (insert_current time current) (dated, a) = omega (
    arith,
    length-joined (pieces X (insert_current time current)),
    timestring-bound (X.localtime time) dated,
    a,
  )
