-- ===== src/TestPrograms.antt =====
-- batterySystem/maintest.c and batterySystem/mainoftest.c: the programs that try the functions of
-- manageData.c. The macro BATTERY_TOTAL of the second is defined nowhere: it is an argument here.
pub mod Written
use batterysystem.Common.{Bool, ℕ, zero, suc, ◌+◌, List, Option, none, some, get_elem?, set}
use batterysystem.Common.Int.{ℤ, pos, ◌-ℤ◌}
use batterysystem.Common.Runs.{M, ◌>>=◌, ◌>>◌, pure, done, fault}
use batterysystem.Float.{Float}
use batterysystem.Pack.{SingleBattery, BatteryPack}
use batterysystem.Database.{Client, connect_to_mysql, write_to_mysql}

-- The global `battery_total`, which nothing sets in these programs.
abbrev pub battery_total : ℕ
battery_total = 0

module _ {F : Float} where
  -- all fields of a cell are its index
  abbrev pub numbered : ℕ → SingleBattery F
  numbered i = record {
    voltage = F.of_int (pos i);
    temperature = F.of_int (pos i);
    resistance = F.of_int (pos i);
    capacity = F.of_int (pos i);
  }

  -- the `for` that fills the array, by the rounds left; `none` is a write outside it
  unfoldable pub fill_cells : ℕ → ℕ → List (SingleBattery F) → Option (List (SingleBattery F))
  fill_cells zero i cells = some cells
  fill_cells (suc rounds) i cells = elim (get_elem? cells i) [
    | none ↦ none
    | some old ↦ fill_cells rounds (i + 1) (set cells i (numbered i))
  ]

  abbrev pub test_pack : ℕ → ℕ → List (SingleBattery F) → BatteryPack F
  test_pack total timep cells = record {
    date_time = timep;
    total_voltage = F.of_int (pos (total + 1));
    group_current = F.of_int (pos total -ℤ pos 1);
    single_bat = cells;
  }

module _ {F : Float} {World : Type 0} (C : Client F World) where
  -- maintest.c, which does nothing with the connection
  unfoldable pub maintest_main : M World ℤ
  unfolding connect_to_mysql
  maintest_main = do conn ← connect_to_mysql C; pure (pos 0)

  -- `for (i = 0; i < 20000; i++)`, by the rounds left; `timep` is not used
  unfoldable pub writes : Bool → ℕ → BatteryPack F → M World (Unit {0})
  writes conn zero bp = pure tt
  writes conn (suc rounds) bp = do write_to_mysql C conn battery_total bp; writes conn rounds bp

  -- mainoftest.c with a number of rounds, and the array as it is before it is filled
  unfoldable pub fill_and_write : ℕ → ℕ → List (SingleBattery F) → M World ℤ
  unfolding fill_cells connect_to_mysql writes
  fill_and_write rounds total cells = do
    timep ← λ w. let (t, w') = C.time w in done t w'
    filled ← λ w. elim (fill_cells total 0 cells) [ none ↦ fault | some filled ↦ done filled w ]
    conn ← connect_to_mysql C
    writes conn rounds (test_pack total timep filled)
    pure (pos 0)

  unfoldable pub mainoftest_main : ℕ → List (SingleBattery F) → M World ℤ
  mainoftest_main = fill_and_write 20000
