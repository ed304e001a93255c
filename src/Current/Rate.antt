-- ===== src/Current/Rate.antt =====
-- How often thread_dis01 samples and stores, by a clock that does not go back.
use batterysystem.Common.{ℕ, zero, suc, ◌+◌, ◌/◌, ◌≤◌, ap, List, arith}
use batterysystem.Common.Runs.{Returns, Returns-bind, Returns-map, done}
use batterysystem.Common.Runs.Yields.{Returns-yields}
use batterysystem.Float.{Float}
use batterysystem.Serial.Port.{Port, IsBounded, IsOpen}
use batterysystem.Serial.Exchange.Closed.{Settles}
use batterysystem.Serial.Command.{send_serial_text_current}
use batterysystem.Serial.Command.Outcome.{send_serial_text_current-Outcome}
use batterysystem.Serial.Steady.{IsSteady, send_serial_text_current-Moves}
use batterysystem.Pack.{BatteryPack}
use batterysystem.Database.{Client, Statement, add_current_data}
use batterysystem.Database.Written.{IsLog}
use batterysystem.Database.Recorded.{IsConnected, add_current_data-Recorded}
use batterysystem.Database.Rows.{current_rows, RecordedCurrent-rows}
use batterysystem.Database.Steady.{Later, Quiet, IsSteadyClient, add_current_data-Moves}
use batterysystem.Current.{amperes, set_current, sample, samples}

-- A clock in seconds that does not go back and that a pause moves on, and a serial line that is apart from
-- the database's log.
pub record IsPaced {F : Float} (P : Port) (C : Client F P.World)
    (log : P.World → List (Statement F)) : Type 0 where
  pub clock : P.World → ℕ
  pub line : IsSteady P (Quiet log clock)
  pub database : IsSteadyClient C (Later clock)
  pub pause : (n : ℕ) (w : P.World) → clock w + n / 1000000 ≤ clock (P.sleep n w)

module _ (F : Float) (P : Port) (C : Client F P.World) (up : IsConnected C)
    (log : P.World → List (Statement F)) (l : IsLog C log) (paced : IsPaced P C log) where
  open P use {World}
  open paced use {clock}

  -- What some turns have taken and stored.
  abbrev pub Paced : ℕ → World → World → Type 0
  Paced turns w w' =
      (clock w + turns ≤ clock w') × (current_rows (log w') ≤ current_rows (log w) + turns)

  sample-Paced :
      IsBounded P
      → IsOpen P
      → (n fuel : ℕ) (group : BatteryPack F) (w : World) → Settles P n w
      → n ≤ fuel
      → Returns (sample F P C fuel group w) (λ _ w'. Paced 1 w w')
  unfolding sample
  sample-Paced b o n fuel group w s f =
      Returns-bind (send_serial_text_current F P fuel w) _ _ (λ _ w'. Paced 1 w w')
        (Returns-yields (send_serial_text_current F P fuel w) _ _
          (send_serial_text_current-Outcome P b o F n fuel w s f)
          (send_serial_text_current-Moves P (Quiet log clock) paced.line F fuel w))
        λ v w1 (_, quiet).
          Returns-bind (add_current_data C (amperes F v) w1)
            (λ _ w2. done (set_current F (amperes F v) group) (P.sleep 1000000 w2)) _
            (λ _ w'. Paced 1 w w')
            (Returns-yields (add_current_data C (amperes F v) w1) _ _
              (add_current_data-Recorded C log l up (amperes F v) w1)
              (add_current_data-Moves C (Later clock) paced.database (amperes F v) w1))
            λ _ w2 (recorded, on).
              let one = RecordedCurrent-rows C log (amperes F v) w1 w2 recorded in
              let kept = ap current_rows (quiet.1) in
              let paused = paced.pause 1000000 w2 in
              let silent = ap current_rows (paced.line.sleep 1000000 w2).1 in
              (omega (arith, quiet.0), omega arith)

  -- On an open port whose buffer always settles, with a server that can be reached and a clock that does
  -- not go back and that the pauses move on, and a serial line that sends the database no statements:
  -- each turn of thread_dis01 ends without a fault, takes a second at least, and inserts at most one row
  -- into the table of the currents.
  pub samples_rate :
      IsBounded P
      → IsOpen P
      → (n fuel : ℕ) → ((w : World) → Settles P n w)
      → n ≤ fuel
      → (others : World → BatteryPack F → BatteryPack F) (turns : ℕ) (group : BatteryPack F)
        (w : World)
      → Returns (samples F P C others turns fuel group w) (λ _ w'. Paced turns w w')
  unfolding samples
  samples_rate b o n fuel settles f others zero group w = (omega arith, omega arith)
  samples_rate b o n fuel settles f others (suc turns) group w =
      let before = others w group in
      Returns-bind (sample F P C fuel before w) (samples F P C others turns fuel)
        (λ _ w1. Paced 1 w w1) _ (sample-Paced b o n fuel before w (settles w) f)
        λ after w1 paced1.
          Returns-map (samples F P C others turns fuel after w1) _ _
            (samples_rate b o n fuel settles f others turns after w1)
            λ _ w2 paced2. (omega arith, omega arith)
