-- ===== src/Tests/Balance.antt =====
-- `control_voltage` on the test devices.
use batterysystem.Common.{ℕ, ◌≡◌, refl, List, [], ◌∷◌, replicate, arith, map}
use batterysystem.Common.Int.{ℤ, pos, negsuc}
use batterysystem.Common.Runs.{Returns}
use batterysystem.Float.Fixed.{fixed, fixed-IsOrdered}
use batterysystem.Serial.Port.{charge_discharge_open, charge_discharge_off}
use batterysystem.Pack.{SingleBattery, BatteryPack}
use batterysystem.Balance.{start, note, decide, control_voltage}
use batterysystem.Balance.Decision.{note_all}
use batterysystem.Balance.Fair.{IsBalanced, answering_first_cell}
use batterysystem.Serial.Checksum.{gen_checksum, xor_from}
use batterysystem.Serial.Decode.{decode_data}
use batterysystem.Serial.Exchange.{drain, send_to_serial_and_recv, recv_loop}
use batterysystem.Serial.Command.{text_loop, accepted, frame, send_serial_text_command}
use batterysystem.Balance.Measured.{Published, control_voltage-Returns}
use batterysystem.Tests.Device.{device, device-IsBounded, device-IsOpen, device-Settles}

abbrev blank_cell : SingleBattery fixed
blank_cell = record { voltage = pos 0; temperature = pos 0; resistance = pos 0; capacity = pos 0 }

abbrev blank : BatteryPack fixed
blank = record {
  date_time = 0;
  total_voltage = pos 0;
  group_current = pos 7;
  single_bat = replicate 60 blank_cell;
}

-- Cells at 2.100 V, 2.200 V and one that is silent.
abbrev answers : List ℤ
answers = pos 2200 ∷ pos 2100 ∷ negsuc 999 ∷ pos 2125 ∷ []

decisions :
    let s = note_all fixed 1 answers (start fixed 4) in
    map (decide fixed s.min_value) s.bat_zu
    ≡ charge_discharge_open ∷ charge_discharge_off ∷ charge_discharge_off ∷ charge_discharge_off
      ∷ []
unfolding note_all note decide
decisions = refl

abbrev voltmeter : List ℕ → List ℕ
voltmeter request = 1 ∷ 0x40 ∷ 0x80 ∷ 0xc1 ∷ []

control_voltage-Returns_example :
    Returns
      (control_voltage fixed (device voltmeter) 5 2 blank [])
      (λ group' w'. Published fixed (device voltmeter) 5 2 blank [] group' w')
control_voltage-Returns_example =
    control_voltage-Returns fixed (device voltmeter) (device-IsBounded voltmeter)
      (device-IsOpen voltmeter) 2 5 (device-Settles voltmeter) (omega arith) 2 blank []
      (omega arith) (omega arith)

answering_first_cell_example :
    Returns
      (control_voltage fixed (device voltmeter) 5 2 blank [])
      (λ _ w'. IsBalanced fixed fixed-IsOrdered (device voltmeter) 5 2 [] w')
unfolding send_serial_text_command drain send_to_serial_and_recv recv_loop text_loop accepted
    decode_data frame gen_checksum xor_from
answering_first_cell_example =
    answering_first_cell fixed fixed-IsOrdered (device voltmeter) (device-IsBounded voltmeter)
      (device-IsOpen voltmeter) 2 5 (device-Settles voltmeter) (omega arith) 2 blank [] _ _
      (omega arith) (omega arith) refl refl
