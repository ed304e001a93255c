-- ===== src/Current.antt =====
-- `thread_dis01` of batterySystem/dis01thread.c: the current of the whole group, once a second.
pub mod Samples
pub mod Rate
use batterysystem.Common.{ℕ, zero, suc, List, [], ◌∷◌, ◌++◌}
use batterysystem.Common.Runs.{M, ◌>>=◌, pure, done}
use batterysystem.Float.{Float}
use batterysystem.Serial.Port.{Port}
use batterysystem.Serial.Command.{send_serial_text_current}
use batterysystem.Serial.Open.{baud_9600, Lines, open_line, no_parity}
use batterysystem.Pack.{BatteryPack}
use batterysystem.Database.{Client, add_current_data}
use batterysystem.Common.Text.{codes}

module _ (F : Float) where
  -- `(value - 2.5f) * factor`, with the factor 40.0f
  unfoldable pub amperes : F.T → F.T
  amperes value = F.mul (F.sub value (F.literal 25 10)) (F.literal 40 1)

  -- the assignment under the lock
  unfoldable pub set_current : F.T → BatteryPack F → BatteryPack F
  set_current current group = record group { group_current = current }

-- DIS01_SEIRAL_FILE
abbrev pub dis01_serial_file : List ℕ
dis01_serial_file = codes "/dev/ttyS2"

module _ (F : Float) (P : Port) (C : Client F P.World) where
  open P use {World, sleep}

  -- One turn of `while (running)`, with the shared record as it stands when the lock is taken.
  unfoldable pub sample : ℕ → BatteryPack F → M World (BatteryPack F)
  unfolding amperes set_current
  sample fuel group = do
    value ← send_serial_text_current F P fuel
    _ ← add_current_data C (amperes F value)
    λ w. done (set_current F (amperes F value) group) (sleep 1000000 w)

  -- `while (running)`: this many turns. `others` is what the other threads make of the shared record
  -- between two turns.
  unfoldable pub samples :
      (World → BatteryPack F → BatteryPack F) → ℕ → ℕ → BatteryPack F → M World (BatteryPack F)
  unfolding sample
  samples others zero fuel group = pure group
  samples others (suc turns) fuel group = do
    before ← λ w. done (others w group) w
    after ← sample fuel before
    samples others turns fuel after

  -- The thread: the line, which nothing tests, and the loop. The port is that of the line's descriptor.
  unfoldable pub thread_dis01 :
      Lines World
      → (World → BatteryPack F → BatteryPack F)
      → ℕ
      → ℕ
      → BatteryPack F
      → M World (BatteryPack F)
  unfolding open_line samples
  thread_dis01 L others turns fuel group w =
      samples others turns fuel group (open_line L dis01_serial_file baud_9600 no_parity 8 1 w).1
