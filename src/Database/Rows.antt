-- ===== src/Database/Rows.antt =====
-- The rows of the table of the group that statements insert.
use batterysystem.Common.{ℕ, ◌+◌, ◌≤◌, ◌≡◌, refl, ap, inl, inr, List, [], ◌∷◌, ◌++◌, take, arith}
use batterysystem.Float.{Float}
use batterysystem.Pack.{SingleBattery, BatteryPack}
use batterysystem.Database.{
  Client, Statement, create_database, create_table, insert_group, insert_cell, delete_old,
  select_total, insert_config, insert_current,
}
use batterysystem.Database.Written.{
  cell_statements, pack_statements, after_create, Sends, group_statements,
}
use batterysystem.Database.Recorded.{deletions, current_statements, Recorded, RecordedCurrent}

module _ {F : Float} where
  -- whether a statement inserts a row into the table of the group
  abbrev inserts : Statement F → ℕ
  inserts create_database = 0
  inserts (create_table t) = 0
  inserts (insert_group time total sum current temperature) = 1
  inserts (insert_cell time number voltage resistance capacity) = 0
  inserts (delete_old t) = 0
  inserts select_total = 0
  inserts (insert_config total max_vol min_vol max_res min_cap) = 0
  inserts (insert_current time current) = 0

  -- whether a statement inserts a row into the table of the currents
  abbrev inserts_current : Statement F → ℕ
  inserts_current create_database = 0
  inserts_current (create_table t) = 0
  inserts_current (insert_group time total sum current temperature) = 0
  inserts_current (insert_cell time number voltage resistance capacity) = 0
  inserts_current (delete_old t) = 0
  inserts_current select_total = 0
  inserts_current (insert_config total max_vol min_vol max_res min_cap) = 0
  inserts_current (insert_current time current) = 1

  rows : (Statement F → ℕ) → List (Statement F) → ℕ
  rows counted [] = 0
  rows counted (s ∷ statements) = counted s + rows counted statements

  rows-append :
      (counted : Statement F → ℕ) (xs ys : List (Statement F))
      → rows counted (xs ++ ys) ≡ rows counted xs + rows counted ys
  unfolding rows
  rows-append counted [] ys = omega arith
  rows-append counted (x ∷ xs) ys = omega (arith, rows-append counted xs ys)

  pub group_rows : List (Statement F) → ℕ
  unfolding rows
  group_rows = rows inserts

  pub current_rows : List (Statement F) → ℕ
  unfolding rows
  current_rows = rows inserts_current

  cells_without :
      (t i : ℕ) (cells : List (SingleBattery F)) → group_rows (cell_statements t i cells) ≡ 0
  unfolding group_rows cell_statements
  cells_without t i [] = refl
  cells_without t i (c ∷ cells) = omega (arith, cells_without t (i + 1) cells)

  pack_one :
      (t total : ℕ) (first : SingleBattery F) (bp : BatteryPack F)
      → group_rows (pack_statements t total first bp) ≡ 1
  unfolding group_rows pack_statements
  pack_one t total first bp = omega (arith, cells_without t 0 (take total bp.single_bat))

module _ {F : Float} {World : Type 0} (C : Client F World) (log : World → List (Statement F)) where
  -- Where the statements have one row, what is sent has one at most.
  Sends-le :
      (counted : Statement F → ℕ) (statements : World → List (Statement F)) (w : World)
      (sent : List (Statement F))
      → counted create_database ≡ 0
      → ((u : World) → rows counted (statements u) ≡ 1)
      → Sends C statements w sent
      → rows counted sent ≤ 1
  unfolding rows
  Sends-le counted statements w sent free one (inl (_, e)) =
      omega (arith, ap (rows counted) e, one (C.select_db w).1)
  Sends-le counted statements w sent free one (inr (_, inl (_, e))) =
      omega (arith, ap (rows counted) e, free, one (C.select_db (after_create C w)).1)
  Sends-le counted statements w sent free one (inr (_, inr (_, e))) =
      omega (arith, ap (rows counted) e, free)

  -- A record that is stored adds one row at most.
  pub Recorded-rows :
      (total : ℕ) (bp : BatteryPack F) (first : SingleBattery F) (w w' : World)
      → Recorded C log total bp first w w'
      → group_rows (log w') ≤ group_rows (log w) + 1
  unfolding group_rows rows
  Recorded-rows total bp first w w' (sent, is, grew) = omega (
    arith,
    ap group_rows grew,
    rows-append inserts (log w) (sent ++ deletions),
    rows-append inserts sent deletions,
    Sends-le inserts (group_statements C total first bp) (C.connect w).1 sent refl
        (λ u. pack_one _ total first bp) is,
  )

  -- A current that is stored adds one row at most.
  pub RecordedCurrent-rows :
      (current : F.T) (w w' : World)
      → RecordedCurrent C log current w w'
      → current_rows (log w') ≤ current_rows (log w) + 1
  unfolding current_rows rows
  RecordedCurrent-rows current w w' (sent, is, grew) = omega (
    arith,
    ap current_rows grew,
    rows-append inserts_current (log w) sent,
    Sends-le inserts_current (λ u. current_statements current (C.time u).0) (C.connect w).1 sent
        refl (λ u. refl) is,
  )
