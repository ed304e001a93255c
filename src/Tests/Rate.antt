-- ===== src/Tests/Rate.antt =====
-- The loops of thread_bs01 and of thread_dis01 beside a clock that each pause moves on.
use batterysystem.Common.{
  List, true, false, [], ◌∷◌, ◌/◌, take, length, length-take, if◌then◌else◌, ℕ, Bool, ◌∙◌, ◌+◌, ◌*◌,
  ◌-◌, ◌≤◌, ◌≡◌, refl, arith,
}
use batterysystem.Common.Runs.{Returns}
use batterysystem.Float.Fixed.{fixed, fixed-IsOrdered}
use batterysystem.Serial.Steady.{IsSteady}
use batterysystem.Database.Rows.{group_rows, current_rows}
use batterysystem.Database.Steady.{Quiet, Later, IsSteadyClient}
use batterysystem.Patrol.{patrol, turns}
use batterysystem.Patrol.Rate.Pace.{patrol_pace}
use batterysystem.Patrol.Rate.{IsTimed}
use batterysystem.Patrol.Rate.Turns.{turns_rate}
use batterysystem.Serial.Port.{Port, IsBounded, IsOpen, got}
use batterysystem.Serial.Exchange.Closed.{Settles-flushed}
use batterysystem.Database.{Client}
use batterysystem.Current.{samples}
use batterysystem.Current.Rate.{IsPaced, samples_rate}
use batterysystem.Tests.Server.{
  Log, log_of, with_log, with_log-IsBounded, with_log-IsOpen, server, server-IsConnected,
  server-IsLog,
}
use batterysystem.Tests.Patrol.{meter_clock, site, site-IsSound, at_start, thread}
use batterysystem.Tests.Text.{fixed_text}

abbrev log : (ℕ × Bool) × Log → Log
log = log_of (ℕ × Bool) meter_clock

abbrev clock : (ℕ × Bool) × Log → ℕ
clock w = w.0.0

line-IsSteady : IsSteady site.port (Quiet log clock)
line-IsSteady = record {
  same = λ w. (omega arith, refl);
  trans = λ a b c (h, e) (k, f). (omega arith, f ∙ e);
  read = λ w n. (omega arith, refl);
  write = λ bytes w. (omega arith, refl);
  flush = λ w. (omega arith, refl);
  sleep = λ n w. (omega arith, refl);
}

database-IsSteadyClient : IsSteadyClient site.client (Later clock)
database-IsSteadyClient = record {
  same = λ w. omega arith;
  trans = λ a b c h k. omega arith;
  connect = λ w. omega arith;
  select_db = λ w. omega arith;
  query = λ s w. omega arith;
  store_result = λ w. omega arith;
  close = λ w. omega arith;
  time = λ w. omega arith;
  report = λ w. omega arith;
}

site-IsTimed : IsTimed site log
site-IsTimed = record {
  clock = clock;
  line = line-IsSteady;
  database = database-IsSteadyClient;
  create = λ w. (omega arith, refl);
  write = λ text w. (omega arith, refl);
  time_between = λ w. (omega arith, omega arith);
}

turns_rate_example : Returns (turns fixed_text site 5 2 4 thread at_start) (λ d' w'.
    86400 * group_rows (log w')
    ≤ 86400 * group_rows (log at_start) + (144 + 1) * (clock w' - 100) + 2 * 86400)
unfolding site-IsTimed
turns_rate_example =
    turns_rate fixed-IsOrdered fixed_text site 2 5 site-IsSound site-IsTimed 2 (omega arith)
      (omega arith) 4 100 thread at_start (refl, refl) (omega arith, omega arith, omega arith)
      (omega arith) (omega arith)

-- `old_count` is 1, of two cells.
patrol_pace_example :
    Returns
      (patrol fixed_text site 5 2 thread at_start)
      (λ d' w'. (100 + 6 * (2 - 1) ≤ clock w') × (d'.old_count ≡ 1))
unfolding site-IsTimed
patrol_pace_example =
    patrol_pace fixed-IsOrdered fixed_text site 2 5 site-IsSound site-IsTimed 2 (omega arith)
      (λ n w. omega arith) thread at_start (refl, refl)

-- An ammeter whose world is the time and whether an answer is on its way.
abbrev shown : Bool → ℕ → List ℕ
shown answering n = if answering then take n (0xaa ∷ 8 ∷ 0 ∷ 0xcc ∷ []) else []

abbrev ammeter : Port
ammeter = record {
  World = ℕ × Bool;
  read = λ (t, answering) n. (got (shown answering n), (t, false));
  write = λ bytes (t, answering). (t, true);
  flush = λ (t, answering). (t, false);
  sleep = λ n (t, answering). (t + n / 1000000, answering);
}

size-shown : (answering : Bool) (n : ℕ) → length (shown answering n) ≤ n
size-shown true n = length-take n _
size-shown false n = omega arith

ammeter-IsBounded : IsBounded ammeter
ammeter-IsBounded = record { size-read = λ w n. size-shown (w.1) n }

ammeter-IsOpen : IsOpen ammeter
ammeter-IsOpen = record { read-ne-failed = λ w n e. cc }

abbrev port : Port
port = with_log ammeter

abbrev client : Client fixed ((ℕ × Bool) × Log)
client = server (ℕ × Bool) meter_clock

ammeter-IsSteady : IsSteady port (Quiet log clock)
ammeter-IsSteady = record {
  same = λ w. (omega arith, refl);
  trans = λ a b c (h, e) (k, f). (omega arith, f ∙ e);
  read = λ w n. (omega arith, refl);
  write = λ bytes w. (omega arith, refl);
  flush = λ w. (omega arith, refl);
  sleep = λ n w. (omega arith, refl);
}

port-IsPaced : IsPaced port client log
port-IsPaced = record {
  clock = clock;
  line = ammeter-IsSteady;
  database = database-IsSteadyClient;
  pause = λ n w. omega arith;
}

samples_rate_example :
    Returns
      (samples fixed port client (λ w group. group) 3 5 thread.group_battery at_start)
      (λ _ w'. (100 + 3 ≤ clock w') × (current_rows (log w') ≤ current_rows (log at_start) + 3))
unfolding port-IsPaced
samples_rate_example =
    samples_rate fixed port client (server-IsConnected (ℕ × Bool) meter_clock) log
      (server-IsLog (ℕ × Bool) meter_clock) port-IsPaced
      (with_log-IsBounded ammeter ammeter-IsBounded) (with_log-IsOpen ammeter ammeter-IsOpen) 2 5
      (λ w. Settles-flushed port w refl) (omega arith) (λ w group. group) 3 thread.group_battery
      at_start
