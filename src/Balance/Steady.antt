-- ===== src/Balance/Steady.antt =====
-- What control_voltage leaves as it is: whatever the calls on the port keep.
use batterysystem.Common.{ℕ, zero, suc, ◌+◌, ◌-◌, inl, inr, get_or, Option-cases}
use batterysystem.Common.Runs.Yields.{Yields, Yields-trans}
use batterysystem.Float.{Float}
use batterysystem.Serial.Port.{Port, test_voltage}
use batterysystem.Serial.Command.{send_serial_text_command, send_serial_control_command}
use batterysystem.Serial.Steady.{
  IsSteady, Moves, send_serial_text_command-Moves, send_serial_control_command-Moves,
}
use batterysystem.Pack.{BatteryPack}
use batterysystem.Balance.{
  Scan, zero_value, start, note, decide, store_voltages, measure, regulate, publish_voltages,
  control_voltage,
}

module _ (F : Float) (P : Port) (R : P.World → P.World → Type 0) (s : IsSteady P R) where
  measure-Moves : (fuel rounds i : ℕ) (scan : Scan F) → Moves P R s (measure F P fuel rounds i scan)
  unfolding measure
  measure-Moves fuel zero i scan w = s.same w
  measure-Moves fuel (suc rounds) i scan w =
      Yields-trans R (send_serial_text_command F P fuel test_voltage i w)
        (λ value. measure F P fuel rounds (i + 1) (note F i value scan)) w s.trans
        (send_serial_text_command-Moves P R s F fuel test_voltage i w)
        λ value w1. measure-Moves fuel rounds (i + 1) (note F i value scan) w1

  regulate-Moves :
      (fuel rounds i : ℕ) (scan : Scan F) → Moves P R s (regulate F P fuel rounds i scan)
  unfolding regulate
  regulate-Moves fuel zero i scan w = s.same w
  regulate-Moves fuel (suc rounds) i scan w =
      let cmd = decide F scan.min_value (get_or scan.bat_zu (i - 1) (zero_value F)) in
      Yields-trans R (send_serial_control_command P fuel cmd i w)
        (λ _. regulate F P fuel rounds (i + 1) scan) w s.trans
        (send_serial_control_command-Moves P R s fuel cmd i w)
        λ _ w1. regulate-Moves fuel rounds (i + 1) scan w1

  publish_voltages-Moves :
      (total : ℕ) (scan : Scan F) (group : BatteryPack F)
      → Moves P R s (publish_voltages F P total scan group)
  unfolding publish_voltages
  publish_voltages-Moves total scan group w =
      elim (Option-cases (store_voltages F total 1 scan.bat_zu group.single_bat)) [
        | inl outside ↦ rw (outside, Yields) tt
        | inr (cells, e) ↦ rw (e, Yields) (s.same w)
      ]

  pub control_voltage-Moves :
      (fuel total : ℕ) (group : BatteryPack F) → Moves P R s (control_voltage F P fuel total group)
  unfolding control_voltage
  control_voltage-Moves fuel zero group w = tt
  control_voltage-Moves fuel (suc others) group w =
      let total = suc others in
      Yields-trans R (measure F P fuel total 1 (start F total) w) _ w s.trans
        (measure-Moves fuel total 1 (start F total) w)
        λ scan w1.
          Yields-trans R (regulate F P fuel total 1 scan w1)
            (λ _. publish_voltages F P total scan group) w1 s.trans
            (regulate-Moves fuel total 1 scan w1) λ _ w2. publish_voltages-Moves total scan group w2
