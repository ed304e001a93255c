-- ===== src/Tests/Threads.antt =====
-- thread_dis01 on the test devices, and commands on a silent port.
use batterysystem.Common.{ℕ, ◌≡◌, refl, List, [], ◌∷◌, replicate, arith}
use batterysystem.Common.Int.{pos, negsuc}
use batterysystem.Common.Runs.{Returns}
use batterysystem.Float.Fixed.{fixed}
use batterysystem.Serial.Port.{Port, test_voltage}
use batterysystem.Serial.Command.{
  no_answer, send_serial_text_command, send_serial_control_command, send_serial_text_current,
}
use batterysystem.Serial.Command.Silent.{commands_silent}
use batterysystem.Pack.{SingleBattery, BatteryPack}
use batterysystem.Current.{amperes, sample}
use batterysystem.Current.Samples.{Sampled, sample-Returns}
use batterysystem.Serial.Exchange.Closed.{Settles, Settles-flushed}
use batterysystem.Database.{Client}
use batterysystem.Tests.Server.{
  Log, with_log, with_log-IsBounded, with_log-IsOpen, server, log_of, server-IsLog,
  server-IsConnected,
}
use batterysystem.Tests.Device.{device, device-IsBounded, device-IsOpen, silent, silent-IsSilent}

abbrev blank_cell : SingleBattery fixed
blank_cell = record { voltage = pos 0; temperature = pos 0; resistance = pos 0; capacity = pos 0 }

abbrev blank : BatteryPack fixed
blank = record {
  date_time = 0;
  total_voltage = pos 0;
  group_current = pos 7;
  single_bat = replicate 60 blank_cell;
}

commands_silent_example :
    Returns (send_serial_text_command fixed silent 3 test_voltage 1 tt) (λ r _. r ≡ no_answer fixed)
    × Returns (send_serial_control_command silent 3 test_voltage 1 tt) (λ r _. r ≡ negsuc 0)
    × Returns (send_serial_text_current fixed silent 3 tt) (λ r _. r ≡ no_answer fixed)
commands_silent_example =
    commands_silent silent silent-IsSilent fixed 3 test_voltage 1 tt (omega arith)

-- The current that is published without an answer: -140 A.
silent_current : amperes fixed (no_answer fixed) ≡ negsuc 139999
unfolding amperes
silent_current = refl

abbrev ammeter : List ℕ → List ℕ
ammeter request = 0xaa ∷ 8 ∷ 0 ∷ 0xcc ∷ []

abbrev port : Port
port = with_log (device ammeter)

abbrev still : List ℕ → ℕ × List ℕ
still w = (0, w)

abbrev client : Client fixed (List ℕ × Log)
client = server (List ℕ) still

port-Settles : (w : List ℕ × Log) → Settles port 2 w
port-Settles w = Settles-flushed port w refl

sample-Returns_example :
    Returns
      (sample fixed port client 5 blank ([], []))
      (λ group' w'. Sampled fixed port client (log_of (List ℕ) still) 5 blank ([], []) group' w')
sample-Returns_example =
    sample-Returns fixed port client (server-IsConnected (List ℕ) still) (log_of (List ℕ) still)
      (server-IsLog (List ℕ) still) (with_log-IsBounded (device ammeter) (device-IsBounded ammeter))
      (with_log-IsOpen (device ammeter) (device-IsOpen ammeter)) 2 5 blank ([], [])
      (port-Settles ([], [])) (omega arith)
