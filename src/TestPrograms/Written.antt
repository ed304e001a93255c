-- ===== src/TestPrograms/Written.antt =====
-- What mainoftest.c sends to the database.
use mathlib.Core.List.{append-nil}
use mathlib.Core.Path.{subst}
use batterysystem.Common.{
  true, ℕ, zero, suc, ◌+◌, ◌≤◌, ◌≡◌, refl, sym, ap, ◌∙◌, inl, inr, List, [], ◌++◌, some, All,
  All-append, length, length-set, get_elem?, get_elem?_of_lt, set, arith,
}
use batterysystem.Common.Int.{pos}
use batterysystem.Common.Runs.{Returns, Returns-bind, Returns-map}
use batterysystem.Float.{Float}
use batterysystem.Pack.{max_battery_total, SingleBattery, BatteryPack}
use batterysystem.Database.{Client, Statement, insert_cell, write_to_mysql, connect_to_mysql}
use batterysystem.Database.Written.{
  Sends, group_statements, write_to_mysql-Grew, IsLog, Grew, Grew-trans, pack_statements,
  pack_statements_zero,
}
use batterysystem.Database.Recorded.{IsConnected}
use batterysystem.TestPrograms.{
  battery_total, numbered, fill_cells, test_pack, writes, fill_and_write, mainoftest_main,
}

module _ {F : Float} where
  fill_cells-suc :
      (rounds i : ℕ) (cells : List (SingleBattery F)) (old : SingleBattery F)
      → get_elem? cells i ≡ some old
      → fill_cells (suc rounds) i cells ≡ fill_cells rounds (i + 1) (set cells i (numbered i))
  unfolding fill_cells
  fill_cells-suc rounds i cells old found = rw (found, fill_cells)

  fill_cells-length :
      (rounds i n : ℕ) (cells : List (SingleBattery F))
      → length cells ≡ n
      → i + rounds ≤ n
      → (filled : List (SingleBattery F)) × (fill_cells rounds i cells ≡ some filled)
        × (length filled ≡ n)
  unfolding fill_cells
  fill_cells-length zero i n cells h fits = (cells, refl, h)
  fill_cells-length (suc rounds) i n cells h fits =
      let (old, found) = get_elem?_of_lt cells i (omega (arith, h)) in
      let (filled, e, len) =
        fill_cells-length rounds (i + 1) n (set cells i (numbered i))
          (length-set cells i (numbered i) ∙ h) (omega arith) in
      (filled, fill_cells-suc rounds i cells old found ∙ e, len)

  -- A statement that inserts no row for a cell.
  abbrev pub IsCellless : Statement F → Type 0
  IsCellless (insert_cell t i voltage resistance capacity) = ⊥
  IsCellless _ = Unit

  -- The statements for a record without cells.
  pack_statements-IsCellless :
      (t : ℕ) (first : SingleBattery F) (bp : BatteryPack F)
      → All IsCellless (pack_statements t 0 first bp)
  pack_statements-IsCellless t first bp =
      subst (All IsCellless) (sym (pack_statements_zero t first bp)) (tt, (tt, (tt, tt)))

module _ {F : Float} {World : Type 0} (C : Client F World) (log : World → List (Statement F)) where
  -- No row for a cell was inserted.
  abbrev pub Cellless : World → World → Type 0
  Cellless w w' = (sent : List (Statement F)) × All IsCellless sent × Grew C log sent w w'

  sent-IsCellless :
      (first : SingleBattery F) (bp : BatteryPack F) (w : World) (sent : List (Statement F))
      → Sends C (group_statements C 0 first bp) w sent
      → All IsCellless sent
  sent-IsCellless first bp w sent is = elim is [
    | inl (_, e) ↦ subst (All IsCellless) (sym e) (pack_statements-IsCellless _ first bp)
    | inr (_, inl (_, e)) ↦
        subst (All IsCellless) (sym e) (tt, pack_statements-IsCellless _ first bp)
    | inr (_, inr (_, e)) ↦ subst (All IsCellless) (sym e) (tt, tt)
  ]

module _ {F : Float} {World : Type 0} (C : Client F World) (up : IsConnected C)
    (log : World → List (Statement F)) (l : IsLog C log) where
  writes-Cellless :
      (rounds : ℕ) (bp : BatteryPack F) (first : SingleBattery F) (w : World)
      → get_elem? bp.single_bat 0 ≡ some first
      → Returns (writes C true rounds bp w) (λ _ w'. Cellless C log w w')
  unfolding writes
  writes-Cellless zero bp first w found = ([], tt, sym (append-nil (log w)))
  writes-Cellless (suc rounds) bp first w found =
      Returns-bind (write_to_mysql C true battery_total bp w) _ _ (λ _ w'. Cellless C log w w')
        (write_to_mysql-Grew C log l battery_total bp first w found (omega arith))
        λ _ w1 (sent, is, g).
          Returns-map (writes C true rounds bp w1) _ _ (writes-Cellless rounds bp first w1 found)
            λ _ w2 (sent2, none2, g2). (
              sent ++ sent2,
              All-append IsCellless sent sent2 (sent-IsCellless C log first bp w sent is) none2,
              Grew-trans C log l sent sent2 w w1 w2 g g2,
            )

  fill_and_write-Cellless :
      (rounds total : ℕ) (cells : List (SingleBattery F)) (w : World)
      → length cells ≡ max_battery_total
      → total ≤ max_battery_total
      → Returns (fill_and_write C rounds total cells w) (λ r w'. (r ≡ pos 0) × Cellless C log w w')
  unfolding fill_and_write connect_to_mysql
  fill_and_write-Cellless rounds total cells w sized few =
      let (t, w1) = C.time w in
      let (filled, e, len) =
        fill_cells-length total 0 max_battery_total cells sized (omega arith) in
      let (first, found) = get_elem?_of_lt filled 0 (omega (arith, len)) in
      let w2 = (C.connect w1).1 in
      rw (e, up.connect-true w1)
        (Returns-bind (writes C true rounds (test_pack total t filled) w2) _ _
          (λ r w'. (r ≡ pos 0) × Cellless C log w w')
          (writes-Cellless rounds (test_pack total t filled) first w2 found)
          λ _ w3 (sent, without, g).
            (refl, (sent, without, g ∙ ap (λ z. z ++ sent) (l.log-connect w1 ∙ l.log-time w))))

  -- With a server that can be reached, an array of 60 cells and at most as many to fill, mainoftest.c ends
  -- and returns 0; it never inserts a row for a cell, though it fills the cells: `battery_total`, up to
  -- which writeToMysql writes them, is 0 in this program.
  pub mainoftest_main-Cellless :
      (total : ℕ) (cells : List (SingleBattery F)) (w : World)
      → length cells ≡ max_battery_total
      → total ≤ max_battery_total
      → Returns (mainoftest_main C total cells w) (λ r w'. (r ≡ pos 0) × Cellless C log w w')
  unfolding mainoftest_main
  mainoftest_main-Cellless = fill_and_write-Cellless 20000
