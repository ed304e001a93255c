-- ===== src/Database.antt =====
-- batterySystem/manageData.c: what the program asks of the MySQL server. The client library is a
-- parameter, and a statement is given by its format and the values that sprintf puts into it.
pub mod Written
pub mod Total
pub mod Recorded
pub mod Rows
pub mod Sql
pub mod Steady
use batterysystem.Common.{
  ℕ, zero, suc, ◌+◌, ◌*◌, List, [], ◌∷◌, Option, none, some, Bool, true, false, get_elem?,
  if◌then◌else◌,
}
use batterysystem.Common.Int.{ℤ, pos, negsuc}
use batterysystem.Common.Runs.{M, ◌>>=◌, ◌>>◌, pure, done, fault}
use batterysystem.Float.{Float}
use batterysystem.Pack.{SingleBattery, BatteryPack}
use batterysystem.Savefile.{atoi}

-- BATTERY_GROUP, BATTERY_SINGLE, BATTERY_CONFIG, NETWORK_CONFIG and BATTERY_CURRENT
pub data Table : Type 0 where
  battery_group battery_single battery_config network_config battery_current : Table

-- The statements, by their formats.
pub data Statement (F : Float) : Type 0 where
  create_database : Statement F
  create_table : Table → Statement F
  -- time, number of cells, total voltage, current, temperature
  insert_group : ℕ → ℕ → F.T → F.T → F.T → Statement F
  -- time, number of the cell, voltage, resistance, capacity
  insert_cell : ℕ → ℕ → F.T → F.T → F.T → Statement F
  delete_old : Table → Statement F
  select_total : Statement F
  -- the row of the defaults: number of cells, voltages, resistance, capacity
  insert_config : ℕ → F.D → F.D → F.D → F.D → Statement F
  insert_current : ℕ → F.T → Statement F

-- The client library, for one connection, and time(2), over a world that other parts of the program share.
-- A row is a list of texts.
pub record Client (F : Float) (World : Type 0) : Type 0 where
  -- mysql_init and mysql_real_connect: whether there is a connection
  pub connect : World → Bool × World
  -- mysql_select_db(_, DATABASE_NAME) == 0
  pub select_db : World → Bool × World
  -- mysql_real_query(_, statement, 512); the code does not look at what it returns
  pub query : Statement F → World → World
  -- mysql_store_result, `none` for NULL
  pub store_result : World → Option (List (List (List ℕ))) × World
  pub close : World → World
  pub time : World → ℕ × World
  -- printftime(2) and fprintf(stderr, _) with mysql_error
  pub report : World → World

-- DEFAULT_BATTERY_TOTAL
abbrev pub default_battery_total : ℕ
default_battery_total = 55

-- DEFAULT_MAX_VOL, DEFAULT_MIN_VOL, DEFAULT_MAX_RES and DEFAULT_MIN_CAP
module _ (F : Float) where
  abbrev pub default_max_vol : F.D
  default_max_vol = F.double_literal 23 10

  abbrev pub default_min_vol : F.D
  default_min_vol = F.double_literal 18 10

  abbrev pub default_max_res : F.D
  default_max_res = F.double_literal 10 1

  abbrev pub default_min_cap : F.D
  default_min_cap = F.double_literal 50 1

module _ {F : Float} {World : Type 0} (C : Client F World) where
  -- a query with the result stored and freed
  abbrev pub run : Statement F → M World (Unit {0})
  run statement w = done tt (C.store_result (C.query statement w)).1

  -- The block at the head of each function, for a connection that is not NULL, or for NULL, on which
  -- mysql_select_db is undefined: whether the database can be used, after an attempt to create it if
  -- need be.
  unfoldable pub use_database : Bool → M World Bool
  use_database false w = fault
  use_database true w =
      let (found, w1) = C.select_db w in
      if found
      then done true w1
      else (do
        run create_database
        λ w2.
            let (created, w3) = C.select_db w2 in
            if created then done true w3 else done false (C.report w3))
          w1

  -- Whether what is returned is a connection, and not NULL.
  unfoldable pub connect_to_mysql : M World Bool
  connect_to_mysql w =
      let (ok, w1) = C.connect w in if ok then done true w1 else done false (C.report w1)

  -- `for (i = 0; i < battery_total; i++)`, by the rounds left; a cell outside the array is a `fault`
  unfoldable pub insert_cells : ℕ → ℕ → ℕ → List (SingleBattery F) → M World (Unit {0})
  insert_cells time zero i cells = pure tt
  insert_cells time (suc rounds) i cells = elim (get_elem? cells i) [
    | none ↦ λ w. fault
    | some cell ↦ do
      run (insert_cell time (i + 1) cell.voltage cell.resistance cell.capacity)
      insert_cells time rounds (i + 1) cells
  ]

  -- `bp->single_bat[0].temperature` is in the row of the group.
  unfoldable pub write_tables : ℕ → BatteryPack F → M World (Unit {0})
  unfolding insert_cells
  write_tables battery_total bp = do
    run (create_table battery_group)
    t ← λ w. let (t, w') = C.time w in done t w'
    elim (get_elem? bp.single_bat 0) [
      | none ↦ λ w. fault
      | some first ↦ do
        run (insert_group t battery_total bp.total_voltage bp.group_current first.temperature)
        run (create_table battery_single)
        insert_cells t battery_total 0 bp.single_bat
    ]

  unfoldable pub write_to_mysql : Bool → ℕ → BatteryPack F → M World (Unit {0})
  unfolding use_database write_tables
  write_to_mysql mysql battery_total bp = do
    ok ← use_database mysql
    if ok then write_tables battery_total bp else pure tt

  unfoldable pub delete_old_data : Bool → M World (Unit {0})
  delete_old_data false = λ w. fault
  delete_old_data true = do run (delete_old battery_group); run (delete_old battery_single)

  -- What thread_bs01 does after a patrol, with the shared record as it is when it is written.
  unfoldable pub store_record : ℕ → (World → BatteryPack F) → M World (Unit {0})
  unfolding connect_to_mysql write_to_mysql delete_old_data
  store_record battery_total group_battery = do
    conn ← connect_to_mysql
    λ w. write_to_mysql conn battery_total (group_battery w) w
    delete_old_data conn
    λ w. done tt (C.close w)

  -- the row that stands for a missing configuration
  abbrev pub default_config : Statement F
  default_config =
      insert_config default_battery_total (default_max_vol F) (default_min_vol F)
        (default_max_res F) (default_min_cap F)

  -- The query for the number of cells: the rows, of which mysql_num_rows cannot count those of NULL.
  unfoldable pub config_rows : M World (List (List (List ℕ)))
  config_rows = do
    run (create_table battery_config)
    λ w.
        let (rows, w') = C.store_result (C.query select_total w) in
        elim rows [ none ↦ fault | some rows ↦ done rows w' ]

  unfoldable pub create_battery_config : M World (Unit {0})
  unfolding connect_to_mysql use_database config_rows
  create_battery_config = do
    conn ← connect_to_mysql
    ok ← use_database conn
    if ok
        then (do
          rows ← config_rows
          _ ← elim rows [ [] ↦ run default_config | row ∷ rest ↦ pure tt ]
          λ w. done tt (C.close w))
        else pure tt

  unfoldable pub create_network_config : M World (Unit {0})
  unfolding connect_to_mysql use_database
  create_network_config = do
    conn ← connect_to_mysql
    ok ← use_database conn
    if ok then (do run (create_table network_config); λ w. done tt (C.close w)) else pure tt

  -- What getBatterytotal returns for the rows: the default, which is stored, or the number in the first
  -- row.
  unfoldable pub total_of : List (List (List ℕ)) → M World ℤ
  total_of [] = do run default_config; pure (pos default_battery_total)
  total_of ([] ∷ rest) = λ w. fault
  total_of ((text ∷ columns) ∷ rest) = pure (atoi text)

  unfoldable pub get_battery_total : M World ℤ
  unfolding connect_to_mysql use_database config_rows total_of
  get_battery_total = do
    conn ← connect_to_mysql
    ok ← use_database conn
    if ok then (do rows ← config_rows; total_of rows) else pure (negsuc 0)

  unfoldable pub add_current_data : F.T → M World (Unit {0})
  unfolding connect_to_mysql use_database
  add_current_data current = do
    conn ← connect_to_mysql
    ok ← use_database conn
    if ok
        then (do
          t ← λ w. let (t, w') = C.time w in done t w'
          run (create_table battery_current)
          run (insert_current t current)
          λ w. done tt (C.close w))
        else pure tt
