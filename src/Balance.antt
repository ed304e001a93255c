-- ===== src/Balance.antt =====
-- `control_voltage` of batterySystem/bs01thread.c: measure every cell, discharge those that are well
-- above the lowest, and publish the voltages.
pub mod Decision
pub mod Measured
pub mod Fair
pub mod Steady
use batterysystem.Common.{
  ℕ, zero, suc, ◌+◌, ◌-◌, List, Option, none, some, Bool, ◌==◌, get_elem?, get_or, set, replicate,
  if◌then◌else◌,
}
use batterysystem.Common.Int.{pos}
use batterysystem.Common.Runs.{M, ◌>>=◌, ◌>>◌, pure, done, fault}
use batterysystem.Float.{Float, below}
use batterysystem.Serial.Port.{
  Port, Command, test_voltage, charge_discharge_open, charge_discharge_off,
}
use batterysystem.Serial.Command.{send_serial_text_command, send_serial_control_command}
use batterysystem.Pack.{SingleBattery, BatteryPack}

-- The variables of the first loop.
pub record Scan (F : Float) : Type 0 where
  pub min_value : F.T
  pub max_value : F.T
  pub bat_zu : List F.T

module _ (F : Float) where
  abbrev pub zero_value : F.T
  zero_value = F.of_int (pos 0)

  -- `bat_zu` has `battery_total` elements, which the loop sets before they are read.
  abbrev pub start : ℕ → Scan F
  start battery_total = record {
    min_value = zero_value;
    max_value = zero_value;
    bat_zu = replicate battery_total zero_value;
  }

  -- The body of the first loop, with the value that the cell answered.
  unfoldable pub note : ℕ → F.T → Scan F → Scan F
  note i value s =
      let s1 =
        if F.lt zero_value value
        then record s {
          bat_zu = set s.bat_zu (i - 1) value;
          max_value = (if F.lt s.max_value value then value else s.max_value);
          min_value = (if F.lt value s.min_value then value else s.min_value);
        }
        else record s { bat_zu = set s.bat_zu (i - 1) zero_value } in
      if i == 1 then record s1 { max_value = value; min_value = value } else s1

  -- `MinValue < bat_zu[i - 1] - 0.03`
  unfoldable pub decide : F.T → F.T → Command
  decide min_value voltage =
      if below F min_value voltage then charge_discharge_open else charge_discharge_off

  -- `for (i = 1; i < battery_total + 1; i++)`, by the rounds left; `none` is a write outside the array
  unfoldable pub store_voltages :
      ℕ → ℕ → List F.T → List (SingleBattery F) → Option (List (SingleBattery F))
  store_voltages zero i bat_zu cells = some cells
  store_voltages (suc rounds) i bat_zu cells = elim (get_elem? cells (i - 1)) [
    | none ↦ none
    | some cell ↦
        store_voltages rounds (i + 1) bat_zu
          (set cells (i - 1) (record cell { voltage = get_or bat_zu (i - 1) zero_value }))
  ]

module _ (F : Float) (P : Port) where
  open P use {World}

  -- `for (i = 1; i <= battery_total; i++)`, by the rounds left
  unfoldable pub measure : ℕ → ℕ → ℕ → Scan F → M World (Scan F)
  measure fuel zero i s = pure s
  measure fuel (suc rounds) i s = do
    value ← send_serial_text_command F P fuel test_voltage i
    measure fuel rounds (i + 1) (note F i value s)

  unfoldable pub regulate : ℕ → ℕ → ℕ → Scan F → M World (Unit {0})
  regulate fuel zero i s = pure tt
  regulate fuel (suc rounds) i s = do
    _ ←
        send_serial_control_command P fuel
          (decide F s.min_value (get_or s.bat_zu (i - 1) (zero_value F))) i
    regulate fuel rounds (i + 1) s

  -- The last loop, under the lock.
  unfoldable pub publish_voltages : ℕ → Scan F → BatteryPack F → M World (BatteryPack F)
  publish_voltages battery_total s group_battery w =
      elim (store_voltages F battery_total 1 s.bat_zu group_battery.single_bat) [
        | none ↦ fault
        | some cells ↦ done (record group_battery { single_bat = cells }) w
      ]

  -- The shared record is given as it stands when the lock is taken. `fuel` bounds the loops of the
  -- commands. Without cells `bat_zu` is an array of length 0, which is undefined.
  unfoldable pub control_voltage : ℕ → ℕ → BatteryPack F → M World (BatteryPack F)
  control_voltage fuel zero group_battery = λ w. fault
  control_voltage fuel (suc others) group_battery =
      let battery_total = suc others in
      (do
        s ← measure fuel battery_total 1 (start F battery_total)
        regulate fuel battery_total 1 s
        publish_voltages battery_total s group_battery)
