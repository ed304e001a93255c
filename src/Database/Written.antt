-- ===== src/Database/Written.antt =====
-- The statements that `writeToMysql` sends, in order.
use mathlib.Core.List.{append_assoc, append-nil}
use mathlib.Core.Path.{subst}
use batterysystem.Common.{
  ℕ, zero, suc, ◌+◌, ◌≤◌, ◌≡◌, ◌⊎◌, inl, inr, refl, sym, ap, ◌∙◌, List, [], ◌∷◌, ◌++◌, some, true,
  get_elem?, get_elem?-append, length, length-snoc, take, Bool, false, Bool-cases, if◌then◌else◌,
  arith,
}
use batterysystem.Common.Runs.{M, bind, pure, Returns, Returns-bind, Returns-map}
use batterysystem.Float.{Float}
use batterysystem.Pack.{SingleBattery, BatteryPack}
use batterysystem.Database.{
  Client, Statement, create_database, create_table, battery_group, battery_single, insert_group,
  insert_cell, use_database, insert_cells, write_tables, write_to_mysql,
}

-- A log of the statements that the server was given, to which no other call adds.
pub record IsLog {F : Float} {World : Type 0} (C : Client F World)
    (log : World → List (Statement F)) : Type 0 where
  pub log-query : (s : Statement F) (w : World) → log (C.query s w) ≡ log w ++ s ∷ []
  pub log-store_result : (w : World) → log (C.store_result w).1 ≡ log w
  pub log-select_db : (w : World) → log (C.select_db w).1 ≡ log w
  pub log-connect : (w : World) → log (C.connect w).1 ≡ log w
  pub log-close : (w : World) → log (C.close w) ≡ log w
  pub log-time : (w : World) → log (C.time w).1 ≡ log w
  pub log-report : (w : World) → log (C.report w) ≡ log w

-- The statements for some cells, with their numbers from `i + 1` on.
unfoldable pub cell_statements : {F : Float} → ℕ → ℕ → List (SingleBattery F) → List (Statement F)
cell_statements time i [] = []
cell_statements time i (c ∷ cells) =
    insert_cell time (i + 1) c.voltage c.resistance c.capacity ∷ cell_statements time (i + 1) cells

-- The statements for a record: the tables, the row of the group, and a row for each cell.
unfoldable pub pack_statements :
    {F : Float} → ℕ → ℕ → SingleBattery F → BatteryPack F → List (Statement F)
pack_statements time total first bp =
    create_table battery_group
    ∷ insert_group time total bp.total_voltage bp.group_current first.temperature
    ∷ create_table battery_single
    ∷ cell_statements time 0 (take total bp.single_bat)

-- Without cells just the tables and the row of the group are written.
pub pack_statements_zero :
    {F : Float} (time : ℕ) (first : SingleBattery F) (bp : BatteryPack F)
    → pack_statements time 0 first bp
      ≡ create_table battery_group
        ∷ insert_group time 0 bp.total_voltage bp.group_current first.temperature
        ∷ create_table battery_single
        ∷ []
unfolding pack_statements cell_statements
pack_statements_zero time first bp = refl

module _ {F : Float} {World : Type 0} (C : Client F World) where
  -- After a database that cannot be used, and an attempt to create it.
  abbrev pub after_create : World → World
  after_create w = (C.store_result (C.query create_database (C.select_db w).1)).1

  -- What is sent where `statements` need the database, by whether it can be used, and whether it can be
  -- after an attempt to create it; they depend on the world in which the first of them is sent.
  abbrev pub Sends : (World → List (Statement F)) → World → List (Statement F) → Type 0
  Sends statements w sent =
      (((C.select_db w).0 ≡ true) × (sent ≡ statements (C.select_db w).1))
      ⊎ (((C.select_db w).0 ≡ false)
          × ((((C.select_db (after_create w)).0 ≡ true)
                × (sent ≡ create_database ∷ statements (C.select_db (after_create w)).1))
              ⊎ (((C.select_db (after_create w)).0 ≡ false) × (sent ≡ create_database ∷ []))))

  -- The statements for a record, with the time after the first of them.
  abbrev pub group_statements : ℕ → SingleBattery F → BatteryPack F → World → List (Statement F)
  group_statements total first bp u =
      pack_statements (C.time (C.store_result (C.query (create_table battery_group) u)).1).0 total
        first bp

module _ {F : Float} {World : Type 0} (C : Client F World) (log : World → List (Statement F)) where
  -- The log has grown by these statements.
  abbrev pub Grew : List (Statement F) → World → World → Type 0
  Grew statements w w' = log w' ≡ log w ++ statements

module _ {F : Float} {World : Type 0} (C : Client F World) (log : World → List (Statement F))
    (l : IsLog C log) where
  pub log-run :
      (s : Statement F) (w : World) → log (C.store_result (C.query s w)).1 ≡ log w ++ s ∷ []
  log-run s w = l.log-store_result (C.query s w) ∙ l.log-query s w

  pub Grew-trans :
      (xs ys : List (Statement F)) (w w1 w2 : World)
      → Grew C log xs w w1
      → Grew C log ys w1 w2
      → Grew C log (xs ++ ys) w w2
  Grew-trans xs ys w w1 w2 g h = h ∙ ap (λ z. z ++ ys) g ∙ append_assoc (log w) xs ys

  insert_cells-Grew :
      (t rounds i : ℕ) (pre cells : List (SingleBattery F)) (w : World)
      → i ≡ length pre
      → rounds ≤ length cells
      → Returns
          (insert_cells C t rounds i (pre ++ cells) w)
          (λ _ w'. Grew C log (cell_statements t i (take rounds cells)) w w')
  unfolding insert_cells cell_statements
  insert_cells-Grew t zero i pre cells w e fits = sym (append-nil (log w))
  insert_cells-Grew t (suc rounds) i pre [] w e fits = elim fits [ ]
  insert_cells-Grew t (suc rounds) i pre (c ∷ cells) w e fits =
      let statement = insert_cell t (i + 1) c.voltage c.resistance c.capacity in
      let w1 = (C.store_result (C.query statement w)).1 in
      let rest = cell_statements t (i + 1) (take rounds cells) in
      let found : get_elem? (pre ++ c ∷ cells) i ≡ some c =
        ap (get_elem? (pre ++ c ∷ cells)) e ∙ get_elem?-append pre c cells in
      let next =
        subst (λ z. Returns (insert_cells C t rounds (i + 1) z w1) (λ _ w'. Grew C log rest w1 w'))
          (append_assoc pre (c ∷ []) cells)
          (insert_cells-Grew t rounds (i + 1) (pre ++ c ∷ []) cells w1
            (omega (arith, length-snoc pre c)) (omega arith)) in
      rw (found, insert_cells)
        (Returns-map (insert_cells C t rounds (i + 1) (pre ++ c ∷ cells) w1) _ _ next
          λ _ w' grew. Grew-trans (statement ∷ []) rest w w1 w' (log-run statement w) grew)

  -- Whether the database can be used, the world after that, and the statement that creates it if it
  -- cannot.
  abbrev pub Used : World → Bool → World → Type 0
  Used w ok w' =
      (((C.select_db w).0 ≡ true) × (ok ≡ true) × (w' ≡ (C.select_db w).1) × Grew C log [] w w')
      ⊎ (((C.select_db w).0 ≡ false)
          × ((((C.select_db (after_create C w)).0 ≡ true)
                × (ok ≡ true)
                × (w' ≡ (C.select_db (after_create C w)).1)
                × Grew C log (create_database ∷ []) w w')
              ⊎ (((C.select_db (after_create C w)).0 ≡ false)
                  × (ok ≡ false)
                  × Grew C log (create_database ∷ []) w w')))

  pub use_database-Used : (w : World) → Returns (use_database C true w) (λ ok w'. Used w ok w')
  unfolding use_database
  use_database-Used w = elim (Bool-cases (C.select_db w).0) [
    | inl e ↦ rw e (inl (refl, refl, refl, l.log-select_db w ∙ sym (append-nil (log w))))
    | inr e ↦
        let w1 = (C.select_db w).1 in
        let w2 = after_create C w in
        let w3 = (C.select_db w2).1 in
        let sent : Grew C log (create_database ∷ []) w w3 =
          l.log-select_db w2
          ∙ log-run create_database w1
          ∙ ap (λ z. z ++ create_database ∷ []) (l.log-select_db w) in
        rw e (elim (Bool-cases (C.select_db w2).0) [
          | inl created ↦ rw created (inr (refl, inl (refl, refl, refl, sent)))
          | inr failed ↦ rw failed (inr (refl, inr (refl, refl, l.log-report w3 ∙ sent)))
        ])
  ]

  -- What a function sends that uses the database and then sends some statements.
  pub Used-Sends :
      (statements : World → List (Statement F)) (f : M World (Unit {0})) (w : World)
      → ((u : World) → Returns (f u) (λ _ w'. Grew C log (statements u) u w'))
      → Returns
          (bind (use_database C true w) (λ ok. if ok then f else pure tt))
          (λ _ w'. (sent : List (Statement F)) × Sends C statements w sent × Grew C log sent w w')
  Used-Sends statements f w sends =
      Returns-bind (use_database C true w) (λ ok. if ok then f else pure tt) (Used w) _
        (use_database-Used w)
        λ ok w1 used. elim used [
          | inl (e, usable, same, g) ↦ rw usable (
              Returns-map (f w1) _ _ (sends w1) λ _ w' h. (
                statements w1,
                inl (e, ap statements same),
                Grew-trans [] (statements w1) w w1 w' g h,
              ))
          | inr (e, inl (e2, usable, same, g)) ↦ rw usable (
              Returns-map (f w1) _ _ (sends w1) λ _ w' h. (
                create_database ∷ statements w1,
                inr (e, inl (e2, ap (λ u. create_database ∷ statements u) same)),
                Grew-trans (create_database ∷ []) (statements w1) w w1 w' g h,
              ))
          | inr (e, inr (e2, unusable, g)) ↦
              rw unusable (create_database ∷ [], inr (e, inr (e2, refl)), g)
        ]

  write_tables-Grew :
      (total : ℕ) (bp : BatteryPack F) (first : SingleBattery F) (w : World)
      → get_elem? bp.single_bat 0 ≡ some first
      → total ≤ length bp.single_bat
      → Returns
          (write_tables C total bp w)
          (λ _ w'. Grew C log (group_statements C total first bp w) w w')
  unfolding write_tables pack_statements
  write_tables-Grew total bp first w e fits =
      let w1 = (C.store_result (C.query (create_table battery_group) w)).1 in
      let t = (C.time w1).0 in
      let w2 = (C.time w1).1 in
      let row = insert_group t total bp.total_voltage bp.group_current first.temperature in
      let w3 = (C.store_result (C.query row w2)).1 in
      let w4 = (C.store_result (C.query (create_table battery_single) w3)).1 in
      let cells = cell_statements t 0 (take total bp.single_bat) in
      rw e (
        Returns-map (insert_cells C t total 0 bp.single_bat w4) _ _
          (insert_cells-Grew t total 0 [] bp.single_bat w4 refl fits)
          λ _ w' grew.
            Grew-trans (create_table battery_group ∷ []) (row ∷ create_table battery_single ∷ cells)
              w w1 w' (log-run (create_table battery_group) w)
              (Grew-trans (row ∷ []) (create_table battery_single ∷ cells) w1 w3 w'
                (log-run row w2 ∙ ap (λ z. z ++ row ∷ []) (l.log-time w1))
                (Grew-trans (create_table battery_single ∷ []) cells w3 w4 w'
                  (log-run (create_table battery_single) w3) grew)))

  -- For an array with a first cell and at most as many cells as it holds, writeToMysql ends without a
  -- fault. If the database can be used, the statements that it sends are those for the record, with the
  -- time after the first of them and a row for each cell; if it cannot, one that creates the database,
  -- and then those for the record if it can be used after that; if it cannot be used then either, that
  -- one alone.
  pub write_to_mysql-Grew :
      (total : ℕ) (bp : BatteryPack F) (first : SingleBattery F) (w : World)
      → get_elem? bp.single_bat 0 ≡ some first
      → total ≤ length bp.single_bat
      → Returns (write_to_mysql C true total bp w) (λ _ w'.
        (sent : List (Statement F)) × Sends C (group_statements C total first bp) w sent
        × Grew C log sent w w')
  unfolding write_to_mysql
  write_to_mysql-Grew total bp first w e fits =
      Used-Sends (group_statements C total first bp) (write_tables C total bp) w
        λ u. write_tables-Grew total bp first u e fits
