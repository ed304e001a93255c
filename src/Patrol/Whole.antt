-- ===== src/Patrol/Whole.antt =====
-- `thread_bs01` of batterySystem/bs01thread.c as a whole: the number of cells, the serial line and
-- RES_FILE, then the loop.
pub mod Running
use batterysystem.Common.{ℕ, List, Option, none, some}
use batterysystem.Common.Int.{ℤ, pos, negsuc}
use batterysystem.Common.Text.{codes}
use batterysystem.Common.Runs.{M, ◌>>=◌, ◌>>◌, done, fault}
use batterysystem.Float.{Float}
use batterysystem.Serial.Open.{baud_9600, Lines, open_line, no_parity}
use batterysystem.Pack.{SingleBattery, BatteryPack}
use batterysystem.Database.{get_battery_total}
use batterysystem.Savefile.{FloatText}
use batterysystem.Patrol.{Site, Thread, time_now, turns}
use batterysystem.Patrol.Start.{begin}

-- BS01_SEIRAL_FILE
abbrev pub bs01_serial_file : List ℕ
bs01_serial_file = codes "/dev/ttyS3"

-- RES_FILE
abbrev pub res_file : List ℕ
res_file = codes "/var/log/s800bmsystem/resistance.data"

-- What the thread finds: the lines, what stands in a file (`none` if it does not open), the array of
-- cells, which nothing sets before, and the shared record.
pub record Start {F : Float} (S : Site F) : Type 0 where
  pub lines : Lines S.port.World
  pub read_file : List ℕ → S.port.World → Option (List ℕ)
  pub cells : List (SingleBattery F)
  pub group_battery : BatteryPack F

module _ {F : Float} (X : FloatText F) (S : Site F) (A : Start S) where
  open S use {port}

  -- what RES_FILE gives
  unfoldable pub begin_now : ℕ → ℕ → M port.World (Thread F)
  unfolding begin
  begin_now battery_total t w =
      elim (begin X battery_total (A.read_file res_file w) A.cells A.group_battery t) [
        | none ↦ fault
        | some d ↦ done d w
      ]

  -- The thread with its number of cells, for a number of turns of its loop. A negative number is undefined
  -- behaviour in the first turn, where control_voltage has an array of that length. Nothing tests
  -- whether the line opened; the port is that of its descriptor.
  unfoldable pub with_total : ℕ → ℕ → ℤ → M port.World (Thread F)
  unfolding open_line begin_now
  with_total fuel rounds (negsuc n) = λ w. fault
  with_total fuel rounds (pos battery_total) = do
    t ← time_now S
    _ ← λ w. done tt (open_line A.lines bs01_serial_file baud_9600 no_parity 8 1 w).1
    d ← begin_now battery_total t
    turns X S fuel battery_total rounds d

  unfoldable pub thread_bs01 : ℕ → ℕ → M port.World (Thread F)
  unfolding with_total
  thread_bs01 fuel rounds = do total ← get_battery_total S.client; with_total fuel rounds total
