-- ===== src/Tests/Serial.antt =====
-- The serial commands on the test devices.
use batterysystem.Common.{
  ℕ, ◌≤◌, ◌≡◌, ◌≢◌, refl, List, [], ◌∷◌, length, if◌then◌else◌, ◌==◌, get_or, some, true, arith,
}
use batterysystem.Common.Int.{ℤ, pos, negsuc}
use batterysystem.Common.Runs.{done, spin, Returns}
use batterysystem.Common.Extreme.{IsExtreme}
use batterysystem.Float.{millis}
use batterysystem.Float.Fixed.{fixed, fixed-IsOrdered}
use batterysystem.Serial.Port.{Port, test_voltage, text_res, charge_discharge_open}
use batterysystem.Serial.Checksum.{gen_checksum, checksum_detects}
use batterysystem.Serial.Decode.{decode_data}
use batterysystem.Serial.Decode.Order.{word_millis, decode_data_lem}
use batterysystem.Serial.Exchange.{recv_loop, send_to_serial_and_recv, empty_reply, drain}
use batterysystem.Serial.Exchange.Bytes.{gather, replied, send_to_serial_and_recv-eq-gather}
use batterysystem.Serial.Command.{
  frame, accepted, acknowledged, no_answer, text_loop, control_loop, send_serial_text_command,
  send_serial_control_command, send_serial_text_current,
}
use batterysystem.Serial.Command.Retry.{reading}
use batterysystem.Serial.Command.Polling.{
  Answers, AnswersAfter, text_loop-AnswersAfter, text_loop_spins,
}
use batterysystem.Serial.Command.Outcome.{
  GuardedOutcome, commands_closed, send_serial_text_command-Outcome,
  send_serial_control_command-Outcome,
}
use batterysystem.Serial.Select.{above, select_mini, select_max, select-IsExtreme}
use batterysystem.Tests.Device.{
  device, device-IsBounded, device-IsOpen, device-Settles, babbler, closed, closed-IsClosed,
}

-- A sensor that reports 0x3a00 (2250 thousandths) to every request for a voltage.
abbrev voltmeter : List ℕ → List ℕ
voltmeter request = 1 ∷ 0x40 ∷ 0x80 ∷ 0xc1 ∷ []

checksum_detects_example : gen_checksum (1 ∷ 2 ∷ 3 ∷ []) 3 ≢ gen_checksum (1 ∷ 7 ∷ 3 ∷ []) 3
checksum_detects_example =
    checksum_detects (1 ∷ []) (3 ∷ []) 2 7 (omega arith) (omega arith) (omega arith) (omega arith)
      (omega arith)

decode_test : decode_data fixed 0x40 0x80 ≡ pos 2125
unfolding decode_data
decode_test = refl

decode_data_lem_example : decode_data fixed 0x40 0x80 ≡ millis fixed (word_millis 0x4080)
decode_data_lem_example = decode_data_lem fixed 0x40 0x80 (omega arith) (omega arith)

voltmeter_answers :
    send_serial_text_command fixed (device voltmeter) 5 test_voltage 1 (9 ∷ []) ≡ done (pos 2125) []
unfolding send_serial_text_command drain text_loop recv_loop send_to_serial_and_recv frame accepted
    decode_data gen_checksum
voltmeter_answers = refl

send_to_serial_and_recv-eq-gather_example :
    let g = gather (device voltmeter) 25 0 [] (1 ∷ 0x40 ∷ 0x80 ∷ 0xc1 ∷ []) in
    (send_to_serial_and_recv (device voltmeter) (1 ∷ 0x60 ∷ 0x61 ∷ []) empty_reply []
      ≡ replied (device voltmeter) g)
    × (length g.0 ≤ 4)
send_to_serial_and_recv-eq-gather_example =
    send_to_serial_and_recv-eq-gather (device voltmeter) (device-IsBounded voltmeter)
      (device-IsOpen voltmeter) (1 ∷ 0x60 ∷ 0x61 ∷ []) []

send_serial_text_command-Outcome_example :
    Returns (send_serial_text_command fixed (device voltmeter) 3 test_voltage 1 (9 ∷ [])) (
      GuardedOutcome
        (device voltmeter)
        true
        (frame 1 0x60)
        accepted
        (reading fixed (device voltmeter))
        (no_answer fixed))
send_serial_text_command-Outcome_example =
    send_serial_text_command-Outcome (device voltmeter) (device-IsBounded voltmeter)
      (device-IsOpen voltmeter) fixed 2 3 test_voltage 1 (9 ∷ []) (device-Settles voltmeter _)
      (omega arith) (omega arith) refl

-- A discharging device that acknowledges the command to open.
abbrev discharger : List ℕ → List ℕ
discharger request = 1 ∷ 1 ∷ 0 ∷ 0 ∷ []

discharger_answers :
    send_serial_control_command (device discharger) 5 charge_discharge_open 1 [] ≡ done (pos 0) []
unfolding send_serial_control_command control_loop drain recv_loop send_to_serial_and_recv frame
    accepted acknowledged gen_checksum
discharger_answers = refl

send_serial_control_command-Outcome_example :
    Returns (send_serial_control_command (device discharger) 3 charge_discharge_open 1 []) (
      GuardedOutcome
        (device discharger)
        true
        (frame 1 0x01)
        (acknowledged charge_discharge_open)
        (λ _. pos 0)
        (negsuc 0))
send_serial_control_command-Outcome_example =
    send_serial_control_command-Outcome (device discharger) (device-IsBounded discharger)
      (device-IsOpen discharger) 2 3 charge_discharge_open 1 [] (device-Settles discharger _)
      (omega arith)

commands_closed_example :
    (send_serial_text_command fixed closed 9 text_res 1 tt ≡ spin)
    × (send_serial_control_command closed 9 text_res 1 tt ≡ spin)
    × (send_serial_text_current fixed closed 9 tt ≡ spin)
commands_closed_example = commands_closed closed fixed closed-IsClosed 9 text_res 1 tt

-- An internal resistance meter that is not ready at the request, and is at the query for the result.
abbrev ohmmeter : List ℕ → List ℕ
ohmmeter request =
    if get_or request 1 0 == 0x22 then 1 ∷ 0x40 ∷ 0x80 ∷ 0xc1 ∷ [] else 1 ∷ 0x80 ∷ 0 ∷ 0x81 ∷ []

ohmmeter_polled : AnswersAfter fixed (device ohmmeter) 1 1 (frame 1 0x62) [] (pos 2125) []
unfolding AnswersAfter recv_loop send_to_serial_and_recv frame accepted decode_data gen_checksum
ohmmeter_polled = (
  (pos 4, 1 ∷ 0x80 ∷ 0 ∷ 0x81 ∷ []),
  [],
  (refl, refl, refl),
  ((pos 4, 1 ∷ 0x40 ∷ 0x80 ∷ 0xc1 ∷ []), (refl, refl, refl), refl),
)

text_loop-AnswersAfter_example :
    text_loop fixed (device ohmmeter) 3 text_res 1 (frame 1 0x62) 0 (pos 0) [] ≡ done (pos 2125) []
text_loop-AnswersAfter_example =
    text_loop-AnswersAfter fixed (device ohmmeter) 1 3 1 (frame 1 0x62) 0 (pos 0) [] (pos 2125) []
      (omega arith) (omega arith) ohmmeter_polled

-- One that is never ready.
abbrev never_ready : Port
never_ready = babbler (1 ∷ 0x80 ∷ 0 ∷ 0x81 ∷ [])

never_ready-Answers :
    (request : List ℕ) (w : Unit {0})
    → (reply : ℤ × List ℕ) × (next : Unit {0}) × Answers fixed never_ready true request w reply next
unfolding recv_loop send_to_serial_and_recv accepted decode_data gen_checksum
never_ready-Answers request w = ((pos 4, 1 ∷ 0x80 ∷ 0 ∷ 0x81 ∷ []), tt, (refl, refl, refl))

text_loop_spins_example :
    text_loop fixed never_ready 100 text_res 1 (frame 1 0x62) 0 (pos 0) tt ≡ spin
text_loop_spins_example =
    text_loop_spins fixed never_ready never_ready-Answers 100 1 (frame 1 0x62) 0 (pos 0) tt
      (omega arith)

select-IsExtreme_example :
    ((m : ℤ) × (select_mini fixed (pos 3 ∷ negsuc 1 ∷ pos 2 ∷ []) ≡ some m)
      × IsExtreme fixed.lt (pos 3 ∷ negsuc 1 ∷ pos 2 ∷ []) m)
    × ((m : ℤ) × (select_max fixed (pos 3 ∷ negsuc 1 ∷ pos 2 ∷ []) ≡ some m)
        × IsExtreme (above fixed) (pos 3 ∷ negsuc 1 ∷ pos 2 ∷ []) m)
select-IsExtreme_example = select-IsExtreme fixed fixed-IsOrdered (pos 3) (negsuc 1 ∷ pos 2 ∷ [])
