-- ===== src/Tests/Database.antt =====
-- manageData.c with a server that stores a number of cells.
use batterysystem.Common.{ℕ, ◌≡◌, refl, inr, List, [], ◌∷◌, ◌++◌, some, Bool, true, false, arith}
use batterysystem.Common.Int.{pos}
use batterysystem.Common.Text.{codes}
use batterysystem.Common.Runs.{Returns, done, fault}
use batterysystem.Float.Fixed.{fixed}
use batterysystem.Pack.{SingleBattery, BatteryPack}
use batterysystem.Database.{
  Client, Statement, create_table, battery_group, battery_single, insert_group, insert_cell,
  write_to_mysql, create_battery_config, create_network_config, get_battery_total, add_current_data,
  store_record, use_database, write_tables, insert_cells,
}
use batterysystem.Database.Written.{IsLog, Grew, Sends, group_statements, write_to_mysql-Grew}
use batterysystem.Database.Total.{IsSelecting, Total, unconnected, get_battery_total-Total}

-- The world is the statements so far; the configuration has 24 cells.
abbrev server : Bool → Client fixed (List (Statement fixed))
server up = record {
  connect = λ w. (up, w);
  select_db = λ w. (true, w);
  query = λ s w. w ++ s ∷ [];
  store_result = λ w. (some ((codes "24" ∷ []) ∷ []), w);
  close = λ w. w;
  time = λ w. (1000, w);
  report = λ w. w;
}

abbrev server_log : List (Statement fixed) → List (Statement fixed)
server_log w = w

server-IsLog : (up : Bool) → IsLog (server up) server_log
server-IsLog up = record {
  log-query = λ s w. refl;
  log-store_result = λ w. refl;
  log-select_db = λ w. refl;
  log-connect = λ w. refl;
  log-close = λ w. refl;
  log-time = λ w. refl;
  log-report = λ w. refl;
}

server-IsSelecting : (up : Bool) → IsSelecting (server up)
server-IsSelecting up = record { rows-select = λ w. inr (codes "24", [], [], refl) }

abbrev cell_of : ℕ → SingleBattery fixed
cell_of n = record { voltage = pos n; temperature = pos 25; resistance = pos 0; capacity = pos 0 }

abbrev two_cells : BatteryPack fixed
two_cells = record {
  date_time = 0;
  total_voltage = pos 4;
  group_current = pos 7;
  single_bat = cell_of 1 ∷ cell_of 2 ∷ [];
}

written :
    write_to_mysql (server true) true 2 two_cells []
    ≡ done tt (
        create_table battery_group
        ∷ insert_group 1000 2 (pos 4) (pos 7) (pos 25)
        ∷ create_table battery_single
        ∷ insert_cell 1000 1 (pos 1) (pos 0) (pos 0)
        ∷ insert_cell 1000 2 (pos 2) (pos 0) (pos 0)
        ∷ [])
unfolding write_to_mysql use_database write_tables insert_cells
written = refl

write_to_mysql-Grew_example : Returns (write_to_mysql (server true) true 2 two_cells []) (λ _ w'.
    (sent : List (Statement fixed)) × Sends
      (server true)
      (group_statements (server true) 2 (cell_of 1) two_cells)
      []
      sent
    × Grew (server true) server_log sent [] w')
write_to_mysql-Grew_example =
    write_to_mysql-Grew (server true) server_log (server-IsLog true) 2 two_cells (cell_of 1) [] refl
      (omega arith)

unconnected_example :
    (create_battery_config (server false) [] ≡ fault)
    × (create_network_config (server false) [] ≡ fault)
    × (get_battery_total (server false) [] ≡ fault)
    × (add_current_data (server false) (pos 5) [] ≡ fault)
    × (store_record (server false) 2 (λ w. two_cells) [] ≡ fault)
unconnected_example = unconnected (server false) (pos 5) 2 (λ w. two_cells) [] refl

get_battery_total-Total_example :
    Returns
      (get_battery_total (server true) [])
      (Total (server true) server_log (server-IsLog true) (server-IsSelecting true) [])
get_battery_total-Total_example =
    get_battery_total-Total (server true) server_log (server-IsLog true) (server-IsSelecting true)
      [] refl
