-- ===== src/Database/Steady.antt =====
-- What the functions of manageData.c leave as it is: whatever the calls of the client library keep.
use batterysystem.Common.{
  ℕ, zero, suc, ◌+◌, ◌≤◌, ◌≡◌, ◌⊎◌, inl, inr, List, Option, none, some, Bool, true, false,
  get_elem?, Bool-cases, Option-cases,
}
use batterysystem.Common.Runs.{M, done}
use batterysystem.Common.Runs.Yields.{Yields, Yields-trans, Yields-map}
use batterysystem.Float.{Float}
use batterysystem.Pack.{SingleBattery, BatteryPack}
use batterysystem.Database.{
  Client, Statement, create_database, create_table, battery_group, battery_single, insert_group,
  insert_cell, delete_old, run, use_database, connect_to_mysql, insert_cells, write_tables,
  write_to_mysql, delete_old_data, store_record, add_current_data, battery_current, insert_current,
}

-- Time goes on.
abbrev pub Later : {World : Type 0} → (World → ℕ) → World → World → Type 0
Later clock w w' = clock w ≤ clock w'

-- Time goes on, and no statement is sent.
abbrev pub Quiet :
    {F : Float} {World : Type 0}
    → (World → List (Statement F))
    → (World → ℕ)
    → World
    → World
    → Type 0
Quiet log clock w w' = (clock w ≤ clock w') × (log w' ≡ log w)

-- A preorder of the worlds that every call of the library moves along.
pub record IsSteadyClient {F : Float} {World : Type 0} (C : Client F World)
    (R : World → World → Type 0) : Type 0 where
  pub same : (w : World) → R w w
  pub trans : (a b c : World) → R a b → R b c → R a c
  pub connect : (w : World) → R w (C.connect w).1
  pub select_db : (w : World) → R w (C.select_db w).1
  pub query : (s : Statement F) (w : World) → R w (C.query s w)
  pub store_result : (w : World) → R w (C.store_result w).1
  pub close : (w : World) → R w (C.close w)
  pub time : (w : World) → R w (C.time w).1
  pub report : (w : World) → R w (C.report w)

module _ {F : Float} {World : Type 0} (C : Client F World) (R : World → World → Type 0)
    (s : IsSteadyClient C R) where
  abbrev pub Moves : {A : Type 0} → M World A → Type 0
  Moves m = (w : World) → Yields (m w) (λ _ w'. R w w')

  ran : (statement : Statement F) (w : World) → R w (C.store_result (C.query statement w)).1
  ran statement w =
      let w1 = C.query statement w in
      s.trans w w1 (C.store_result w1).1 (s.query statement w) (s.store_result w1)

  use_database-Moves : (mysql : Bool) → Moves (use_database C mysql)
  unfolding use_database
  use_database-Moves false w = tt
  use_database-Moves true w =
      let w1 = (C.select_db w).1 in
      let w2 = (C.store_result (C.query create_database w1)).1 in
      let w3 = (C.select_db w2).1 in
      let asked = s.trans w w1 w2 (s.select_db w) (ran create_database w1) in
      let again = s.trans w w2 w3 asked (s.select_db w2) in
      elim (Bool-cases (C.select_db w).0) [
        | inl e ↦ rw e (s.select_db w)
        | inr e ↦ rw e (elim (Bool-cases (C.select_db w2).0) [
          | inl created ↦ rw created again
          | inr failed ↦ rw failed (s.trans w w3 (C.report w3) again (s.report w3))
        ])
      ]

  connect_to_mysql-Moves : Moves (connect_to_mysql C)
  unfolding connect_to_mysql
  connect_to_mysql-Moves w =
      let w1 = (C.connect w).1 in
      elim (Bool-cases (C.connect w).0) [
        | inl e ↦ rw e (s.connect w)
        | inr e ↦ rw e (s.trans w w1 (C.report w1) (s.connect w) (s.report w1))
      ]

  insert_cells-Moves :
      (t rounds i : ℕ) (cells : List (SingleBattery F)) → Moves (insert_cells C t rounds i cells)
  unfolding insert_cells
  insert_cells-Moves t zero i cells w = s.same w
  insert_cells-Moves t (suc rounds) i cells w = elim (Option-cases (get_elem? cells i)) [
    | inl missing ↦ rw (missing, insert_cells) tt
    | inr (c, e) ↦
        let statement = insert_cell t (i + 1) c.voltage c.resistance c.capacity in
        rw (e, insert_cells)
          (Yields-trans R (run C statement w) (λ _. insert_cells C t rounds (i + 1) cells) w s.trans
            (ran statement w) λ _ w1. insert_cells-Moves t rounds (i + 1) cells w1)
  ]

  write_tables-Moves : (total : ℕ) (bp : BatteryPack F) → Moves (write_tables C total bp)
  unfolding write_tables
  write_tables-Moves total bp w =
      let w1 = (C.store_result (C.query (create_table battery_group) w)).1 in
      let (t, w2) = C.time w1 in
      let begun = s.trans w w1 w2 (ran (create_table battery_group) w) (s.time w1) in
      elim (Option-cases (get_elem? bp.single_bat 0)) [
        | inl missing ↦ rw missing tt
        | inr (first, e) ↦
            let row = insert_group t total bp.total_voltage bp.group_current first.temperature in
            let w3 = (C.store_result (C.query row w2)).1 in
            let w4 = (C.store_result (C.query (create_table battery_single) w3)).1 in
            rw e (
              Yields-map (insert_cells C t total 0 bp.single_bat w4) _ _
                (insert_cells-Moves t total 0 bp.single_bat w4)
                λ _ w5 r. s.trans w w2 w5 begun (
                  s.trans w2 w3 w5 (ran row w2)
                    (s.trans w3 w4 w5 (ran (create_table battery_single) w3) r)))
      ]

  write_to_mysql-Moves :
      (mysql : Bool) (total : ℕ) (bp : BatteryPack F) → Moves (write_to_mysql C mysql total bp)
  unfolding write_to_mysql
  write_to_mysql-Moves mysql total bp w =
      Yields-trans R (use_database C mysql w) _ w s.trans (use_database-Moves mysql w) λ ok w1.
        elim (Bool-cases ok) [
          | inl e ↦ rw e (write_tables-Moves total bp w1)
          | inr e ↦ rw e (s.same w1)
        ]

  delete_old_data-Moves : (mysql : Bool) → Moves (delete_old_data C mysql)
  unfolding delete_old_data
  delete_old_data-Moves false w = tt
  delete_old_data-Moves true w =
      let w1 = (C.store_result (C.query (delete_old battery_group) w)).1 in
      s.trans w w1 _ (ran (delete_old battery_group) w) (ran (delete_old battery_single) w1)

  pub store_record-Moves :
      (total : ℕ) (group_battery : World → BatteryPack F)
      → Moves (store_record C total group_battery)
  unfolding store_record
  store_record-Moves total group_battery w =
      Yields-trans R (connect_to_mysql C w) _ w s.trans (connect_to_mysql-Moves w) λ conn w1.
        Yields-trans R (write_to_mysql C conn total (group_battery w1) w1)
          (λ _ w2.
            batterysystem.Common.Runs.bind (delete_old_data C conn w2)
              (λ _ w3. done tt (C.close w3)))
          w1 s.trans (write_to_mysql-Moves conn total (group_battery w1) w1)
          λ _ w2.
            Yields-trans R (delete_old_data C conn w2) (λ _ w3. done tt (C.close w3)) w2 s.trans
              (delete_old_data-Moves conn w2) λ _ w3. s.close w3

  pub add_current_data-Moves : (current : F.T) → Moves (add_current_data C current)
  unfolding add_current_data
  add_current_data-Moves current w =
      Yields-trans R (connect_to_mysql C w) _ w s.trans (connect_to_mysql-Moves w) λ conn w1.
        Yields-trans R (use_database C conn w1) _ w1 s.trans (use_database-Moves conn w1) λ ok w2.
          let (t, w3) = C.time w2 in
          let w4 = (C.store_result (C.query (create_table battery_current) w3)).1 in
          let w5 = (C.store_result (C.query (insert_current t current) w4)).1 in
          elim (Bool-cases ok) [
            | inr e ↦ rw e (s.same w2)
            | inl e ↦ rw e (
                s.trans w2 w3 (C.close w5) (s.time w2) (
                  s.trans w3 w4 (C.close w5) (ran (create_table battery_current) w3)
                    (s.trans w4 w5 (C.close w5) (ran (insert_current t current) w4) (s.close w5))))
          ]
