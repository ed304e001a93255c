-- ===== src/Balance/Fair.antt =====
-- A round of `control_voltage` whose first cell gives a voltage: which cells it discharges.
use mathlib.Core.Path.{subst}
use batterysystem.Common.{ℕ, ◌+◌, ◌≤◌, ◌<◌, ◌≡◌, sym, List, [], ◌∷◌, map, true, length, arith}
use batterysystem.Common.Runs.{Run, Returns, Returns-map, done}
use batterysystem.Float.{Float, IsOrdered}
use batterysystem.Serial.Port.{Port, IsBounded, IsOpen, test_voltage}
use batterysystem.Serial.Exchange.Closed.{Settles}
use batterysystem.Serial.Command.{send_serial_text_command}
use batterysystem.Pack.{BatteryPack}
use batterysystem.Balance.{zero_value, control_voltage}
use batterysystem.Balance.Decision.{clean, IsFair, values-IsFair}
use batterysystem.Balance.Measured.{
  Answered, Commanded, min_value_of, Published, control_voltage-Returns,
}

module _ (F : Float) (o : IsOrdered F) (P : Port) where
  open P use {World}

  -- The cells are asked in order, and each is sent the command for its own voltage and the lowest voltage
  -- of all.
  abbrev pub IsBalanced : ℕ → ℕ → World → World → Type 0
  IsBalanced fuel battery_total w w' =
      (values : List F.T) × (length values ≡ battery_total)
      × (lowest : F.T) × IsFair F o values lowest
      × (w1 : World) × Answered F P fuel 1 values w w1
      × Commanded F P fuel lowest 1 (map (clean F) values) w1 w'

  same_value :
      (m : Run World F.T) (v v' : F.T) (w w' : World) → m ≡ done v w → m ≡ done v' w' → v' ≡ v
  same_value m v v' w w' e e' = cc

  balanced :
      (fuel battery_total : ℕ) (group group' : BatteryPack F) (w w1 w' : World) (v : F.T)
      → 0 < battery_total
      → send_serial_text_command F P fuel test_voltage 1 w ≡ done v w1
      → F.lt (zero_value F) v ≡ true
      → Published F P fuel battery_total group w group' w'
      → IsBalanced fuel battery_total w w'
  unfolding Answered
  balanced fuel total group group' w w1 w' v some_cells asked positive ([], len, _, _) =
      absurd (omega arith)
  balanced fuel total group group' w w1 w' v some_cells asked positive
        (v' ∷ values, len, (w2, (w3, e, answers), commands), published) =
      let same =
        same_value (send_serial_text_command F P fuel test_voltage 1 w) v v' w1 w3 asked e in
      (
        v' ∷ values,
        len,
        min_value_of F P (v' ∷ values),
        values-IsFair F o v' values (subst (λ x. F.lt (zero_value F) x ≡ true) (sym same) positive),
        w2,
        (w3, e, answers),
        commands,
      )

  -- On an open port whose buffer settles, with fuel for it, at least one cell and at most as many as the
  -- array holds: if the first cell gives a voltage, a round of control_voltage ends without a fault. It
  -- asks the cells for their voltages in order, and sends each in order the command for its own voltage,
  -- where an error code counts as 0, and the lowest voltage that a cell gave. That command switches
  -- the discharge off for the lowest voltage itself and for 0.
  pub answering_first_cell :
      IsBounded P
      → IsOpen P
      → (n fuel : ℕ) → ((w : World) → Settles P n w)
      → n + 3 ≤ fuel
      → (battery_total : ℕ) (group : BatteryPack F) (w w1 : World) (v : F.T) → 0 < battery_total
      → battery_total ≤ length group.single_bat
      → send_serial_text_command F P fuel test_voltage 1 w ≡ done v w1
      → F.lt (zero_value F) v ≡ true
      → Returns
          (control_voltage F P fuel battery_total group w)
          (λ _ w'. IsBalanced fuel battery_total w w')
  answering_first_cell b op n fuel settles enough total group w w1 v some_cells fits asked
        positive =
      Returns-map (control_voltage F P fuel total group w) _ _
        (control_voltage-Returns F P b op n fuel settles enough total group w some_cells fits)
        λ group' w' p. balanced fuel total group group' w w1 w' v some_cells asked positive p
