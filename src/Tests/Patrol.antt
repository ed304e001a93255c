-- ===== src/Tests/Patrol.antt =====
-- RES_FILE and thread_bs01 with cells that all answer 2.125.
use batterysystem.Common.{
  ℕ, ◌+◌, ◌/◌, ◌≤◌, ◌<◌, ◌≡◌, refl, List, [], ◌∷◌, ◌++◌, none, some, Bool, inr, true, false, take,
  length, ltb, ltb→lt, if◌then◌else◌, replicate, arith, length-take,
}
use batterysystem.Common.Int.{pos}
use batterysystem.Common.Text.{codes}
use batterysystem.Common.Runs.{Returns}
use batterysystem.Float.Fixed.{fixed, fixed-IsOrdered}
use batterysystem.Serial.Port.{Port, IsBounded, IsOpen, got, text_res}
use batterysystem.Serial.Exchange.Closed.{Settles-flushed}
use batterysystem.Serial.Checksum.{gen_checksum, xor_from}
use batterysystem.Serial.Decode.{decode_data}
use batterysystem.Serial.Exchange.{drain, send_to_serial_and_recv, recv_loop}
use batterysystem.Serial.Command.{text_loop, accepted, frame, send_serial_text_command}
use batterysystem.Pack.{SingleBattery, BatteryPack}
use batterysystem.Savefile.{
  atoi, signed_value, digits_value, load, header_line, resistance_field, digits,
}
use batterysystem.Savefile.Fields.{resistance_fields, with_resistances}
use batterysystem.Savefile.Fields.RoundTrip.{load-eq-written}
use batterysystem.Patrol.{Site, Thread, patrol}
use batterysystem.Patrol.Cells.{IsSound}
use batterysystem.Patrol.Whole.{Start}
use batterysystem.Patrol.Whole.Running.{IsConfigured}
use batterysystem.Patrol.Cycle.{Patrolled, patrol-Returns}
use batterysystem.Patrol.Start.{begin}
use batterysystem.Patrol.Spared.{resistances}
use batterysystem.Patrol.Continue.{read_back, patrol-Continued}
use batterysystem.Patrol.Restart.{left}
use batterysystem.Tests.Server.{
  Log, with_log, with_log-IsBounded, with_log-IsOpen, server, log_of, server-IsLog,
  server-IsConnected,
}
use batterysystem.Tests.Text.{fixed_text, fixed_text-IsText}

abbrev pub heard : Bool → ℕ → List ℕ
heard answering n = if answering then take n (1 ∷ 0x40 ∷ 0x80 ∷ 0xc1 ∷ []) else []

-- The world is the time and whether an answer is on its way.
abbrev pub meter : Port
meter = record {
  World = ℕ × Bool;
  read = λ (t, answering) n. (got (heard answering n), (t, false));
  write = λ bytes (t, answering). (t, true);
  flush = λ (t, answering). (t, false);
  sleep = λ n (t, answering). (t + n / 1000000, answering);
}

abbrev pub meter_clock : ℕ × Bool → ℕ × (ℕ × Bool)
meter_clock (t, answering) = (t, (t, answering))

abbrev pub port : Port
port = with_log meter

abbrev pub site : Site fixed
site = record {
  port = port;
  client = server (ℕ × Bool) meter_clock;
  create_file = λ w. (true, w);
  write_file = λ text w. (length text, w);
  group_current = λ _. pos 7;
}

size-meter : (answering : Bool) (n : ℕ) → length (heard answering n) ≤ n
size-meter true n = length-take n _
size-meter false n = omega arith

pub resistance_ends_meter :
    (battery : ℕ) (w : (ℕ × Bool) × Log)
    → Returns (send_serial_text_command fixed port 5 text_res battery w) (λ _ _. Unit {0})
unfolding send_serial_text_command drain send_to_serial_and_recv recv_loop text_loop accepted
    decode_data frame gen_checksum xor_from
resistance_ends_meter battery ((t, true), log) = tt
resistance_ends_meter battery ((t, false), log) = tt

pub meter-IsBounded : IsBounded meter
meter-IsBounded = record { size-read = λ w n. size-meter (w.1) n }

pub meter-IsOpen : IsOpen meter
meter-IsOpen = record { read-ne-failed = λ w n e. cc }

pub meter_fuel : 2 + 3 ≤ 5
meter_fuel = omega arith

abbrev pub site-IsSound : IsSound site 2 5
site-IsSound = record {
  bounded = with_log-IsBounded meter meter-IsBounded;
  opened = with_log-IsOpen meter meter-IsOpen;
  settles = λ w. Settles-flushed port w refl;
  enough = meter_fuel;
  resistance_ends = resistance_ends_meter;
  connected = server-IsConnected (ℕ × Bool) meter_clock;
  log = log_of (ℕ × Bool) meter_clock;
  logged = server-IsLog (ℕ × Bool) meter_clock;
}

-- At time 100, with no statements sent.
abbrev pub at_start : (ℕ × Bool) × Log
at_start = ((100, false), [])

abbrev cell_of : ℕ → SingleBattery fixed
cell_of n = record { voltage = pos 0; temperature = pos 0; resistance = pos n; capacity = pos 0 }

abbrev blank : BatteryPack fixed
blank = record {
  date_time = 0;
  total_voltage = pos 0;
  group_current = pos 0;
  single_bat = replicate 60 (cell_of 0);
}

-- A thread whose patrol is due, and that knows the resistance of one cell.
abbrev pub thread : Thread fixed
thread = record {
  single_bat = replicate 60 (cell_of 30);
  old_count = 1;
  t_voltage = 100;
  t_resistance = 900;
  t_control = 100;
  t_now = 100;
  file = none;
  group_battery = blank;
}

abbrev two_cells : List (SingleBattery fixed)
two_cells = cell_of 40 ∷ cell_of 50 ∷ []

header_test :
    header_line 2 1234 99 ++ resistance_fields fixed_text two_cells
    ≡ codes "2\t1234\t99\n0.04\t0.05\t"
unfolding header_line resistance_fields resistance_field digits
header_test = refl

short-left :
    (vol res : ℕ)
    → ltb (length (left fixed_text 2 vol res two_cells thread.single_bat)) 1024 ≡ true
    → length (left fixed_text 2 vol res two_cells thread.single_bat) < 1024
short-left vol res h =
    ltb→lt (length (left fixed_text 2 vol res two_cells thread.single_bat)) 1024 h

load-eq-written_example :
    load fixed_text
      (some (header_line 2 1234 99 ++ resistance_fields fixed_text two_cells))
      (replicate 60 (cell_of 0))
    ≡ some (record {
      old_batterytotal = pos 2;
      t_old_vol = pos 1234;
      t_old_res = pos 99;
      old_count = 2;
      single_bat = with_resistances fixed_text two_cells (replicate 60 (cell_of 0));
    })
unfolding header_line resistance_fields resistance_field digits
load-eq-written_example =
    load-eq-written fixed_text fixed_text-IsText 2 1234 99 two_cells (replicate 60 (cell_of 0))
      (short-left 1234 99 refl) (omega arith)

patrol-Returns_example :
    Returns
      (patrol fixed_text site 5 2 thread at_start)
      (λ d' w'. Patrolled fixed_text site site-IsSound.log 5 2 at_start thread d' w')
patrol-Returns_example =
    patrol-Returns fixed-IsOrdered fixed_text site 2 5 site-IsSound 2 (omega arith) thread at_start
      (refl, refl)

-- A patrol of two cells that was broken off after the first.
patrol-Continued_example :
    (d : Thread fixed) × (begin fixed_text 2
        (some (left fixed_text 2 1234 900 (cell_of 40 ∷ []) thread.single_bat))
        thread.single_bat
        blank
        100
      ≡ some d)
    × (d.t_voltage ≤ d.t_now)
    × Returns (patrol fixed_text site 5 2 d at_start) (λ d' _.
      take 1 (resistances d'.group_battery.single_bat) ≡ read_back fixed_text (cell_of 40 ∷ []))
unfolding header_line resistance_fields resistance_field digits
patrol-Continued_example =
    patrol-Continued fixed_text fixed-IsOrdered site 2 5 site-IsSound fixed_text-IsText 2 1234 900
      100 (cell_of 40 ∷ []) thread.single_bat blank at_start (omega arith) (omega arith)
      (omega arith) refl refl (omega arith)

abbrev pub started_up : Start site
started_up = record {
  lines = record { open_device = λ path w. (pos 3, w); set_attributes = λ fd t w. w };
  read_file = λ path w. none;
  cells = replicate 60 (cell_of 0);
  group_battery = blank;
}

pub started_up-IsConfigured : IsConfigured fixed_text site started_up
unfolding load atoi signed_value digits_value
started_up-IsConfigured = record {
  usable = λ w. refl;
  rows-few = λ w. inr (codes "2", [], [], refl, 2, refl, omega arith, omega arith);
  loads = λ w. (
    record {
      old_batterytotal = pos 0;
      t_old_vol = pos 0;
      t_old_res = pos 0;
      old_count = 0;
      single_bat = replicate 60 (cell_of 0);
    },
    refl,
  );
  sized_cells = refl;
  sized_group = refl;
}
