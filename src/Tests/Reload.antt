-- ===== src/Tests/Reload.antt =====
-- RES_FILE read back where it holds too much, and where a full file system has cut it short.
use batterysystem.Common.{ℕ, ◌≡◌, refl, List, [], ◌∷◌, ◌++◌, Bool, true, some, ltb, All, arith}
use batterysystem.Common.Int.{pos}
use batterysystem.Common.Runs.{Returns}
use batterysystem.Float.Fixed.{fixed, fixed-IsOrdered}
use batterysystem.Serial.Exchange.Closed.{Settles-flushed}
use batterysystem.Pack.{SingleBattery}
use batterysystem.Savefile.{newline, fields, load}
use batterysystem.Savefile.Fields.{IsInLine}
use batterysystem.Savefile.Fields.Stored.{stored, is_none, load-eq-none}
use batterysystem.Patrol.{Site, patrol}
use batterysystem.Patrol.Cells.{IsSound}
use batterysystem.Patrol.Reload.{Reloaded, patrol-Reloaded}
use batterysystem.Tests.Patrol.{
  meter, meter_clock, meter-IsBounded, meter-IsOpen, meter_fuel, port, resistance_ends_meter, site,
  at_start, thread,
}
use batterysystem.Tests.Server.{
  with_log-IsBounded, with_log-IsOpen, log_of, server-IsLog, server-IsConnected,
}
use batterysystem.Tests.Text.{fixed_text, fixed_text-IsText}

abbrev one_cell : List (SingleBattery fixed)
one_cell =
    record { voltage = pos 0; temperature = pos 0; resistance = pos 0; capacity = pos 0 } ∷ []

two_fields-IsInLine : All IsInLine (49 ∷ 9 ∷ 50 ∷ [])
two_fields-IsInLine = (
  (ground arith, ground arith),
  ((ground arith, ground arith), ((ground arith, ground arith), tt)),
)

-- An empty line and a line with two resistances, for an array of one cell.
load-eq-none_example :
    is_none (load fixed_text (some ([] ++ newline ∷ 49 ∷ 9 ∷ 50 ∷ [])) one_cell)
    ≡ ltb 1 (stored (fields (49 ∷ 9 ∷ 50 ∷ [])))
load-eq-none_example =
    load-eq-none fixed_text [] (49 ∷ 9 ∷ 50 ∷ []) one_cell tt two_fields-IsInLine (omega arith)

too_many : ltb 1 (stored (fields (49 ∷ 9 ∷ 50 ∷ []))) ≡ true
unfolding stored fields
too_many = refl

-- Three characters of every text are written.
abbrev full_site : Site fixed
full_site = record {
  port = port;
  client = site.client;
  create_file = λ w. (true, w);
  write_file = λ text w. (3, w);
  group_current = λ _. pos 7;
}

full_site-IsSound : IsSound full_site 2 5
full_site-IsSound = record {
  bounded = with_log-IsBounded meter meter-IsBounded;
  opened = with_log-IsOpen meter meter-IsOpen;
  settles = λ w. Settles-flushed port w refl;
  enough = meter_fuel;
  resistance_ends = resistance_ends_meter;
  connected = server-IsConnected (ℕ × Bool) meter_clock;
  log = log_of (ℕ × Bool) meter_clock;
  logged = server-IsLog (ℕ × Bool) meter_clock;
}

patrol-Reloaded_example : Returns (patrol fixed_text full_site 5 2 thread at_start) (λ d' _.
    Reloaded fixed_text full_site fixed_text-IsText 2 thread.single_bat thread.group_battery 300 d')
patrol-Reloaded_example =
    patrol-Reloaded fixed_text full_site fixed_text-IsText fixed-IsOrdered 2 5 2 full_site-IsSound
      (omega arith) thread at_start thread.single_bat thread.group_battery 300 (refl, refl) refl
      refl refl
