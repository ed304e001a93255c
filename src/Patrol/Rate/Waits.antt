-- ===== src/Patrol/Rate/Waits.antt =====
-- A test of a resistance waits for six seconds.
use batterysystem.Common.{ℕ, zero, suc, ◌+◌, ◌/◌, ◌≤◌, List, arith}
use batterysystem.Common.Int.{pos}
use batterysystem.Common.Runs.Yields.{Yields, Yields-bind, Yields-map}
use batterysystem.Float.{Float}
use batterysystem.Serial.Port.{Port, code, text_res}
use batterysystem.Serial.Exchange.{empty_reply, recv_loop, send_to_serial_and_recv, drain}
use batterysystem.Serial.Command.{frame, text_round, text_loop, send_serial_text_command}
use batterysystem.Serial.Steady.{
  IsSteady, drain-Moves, recv_loop-Moves, text_round-Moves, text_loop-Moves,
}
use batterysystem.Database.{Statement}
use batterysystem.Database.Steady.{Quiet}

module _ (F : Float) (P : Port) (log : P.World → List (Statement F)) (clock : P.World → ℕ)
    (line : IsSteady P (Quiet log clock))
    (pause : (n : ℕ) (w : P.World) → clock w + n / 1000000 ≤ clock (P.sleep n w)) where
  open P use {World}

  request_waits :
      (battery : ℕ) (w : World)
      → Yields
          (send_to_serial_and_recv P (frame battery (code text_res)) empty_reply w)
          (λ _ w'. clock w + 6 ≤ clock w')
  unfolding send_to_serial_and_recv frame
  request_waits battery w =
      let w1 = P.write (frame battery (code text_res)) w in
      let w2 = P.sleep 6000000 w1 in
      Yields-map (recv_loop P 25 0 (pos 0) empty_reply w2) _ _
        (recv_loop-Moves P (Quiet log clock) line 25 0 (pos 0) empty_reply w2)
        λ _ w3 (on, _).
          omega (arith, (line.write (frame battery (code text_res)) w).0, pause 6000000 w1)

  test_waits :
      (fuel battery : ℕ) (w : World)
      → Yields
          (text_loop F P fuel text_res battery
            (frame battery (code text_res))
            0
            (F.of_int (pos 0))
            w)
          (λ _ w'. clock w + 6 ≤ clock w')
  unfolding text_loop
  test_waits zero battery w = tt
  test_waits (suc fuel) battery w =
      let cmdstr = frame battery (code text_res) in
      Yields-bind (send_to_serial_and_recv P cmdstr empty_reply w)
        (λ reply.
          text_round F P text_res battery cmdstr 0 reply (text_loop F P fuel text_res battery))
        _ _ (request_waits battery w)
        λ reply w1 waited.
          Yields-map
            (text_round F P text_res battery cmdstr 0 reply (text_loop F P fuel text_res battery)
              w1)
            _ _
            (text_round-Moves P (Quiet log clock) line F text_res battery cmdstr 0 reply
              (text_loop F P fuel text_res battery)
              (text_loop-Moves P (Quiet log clock) line F fuel text_res battery) w1)
            λ _ w2 (on, _). omega arith

  pub resistance_waits :
      (fuel battery : ℕ) (w : World)
      → Yields
          (send_serial_text_command F P fuel text_res battery w)
          (λ _ w'. clock w + 6 ≤ clock w')
  unfolding send_serial_text_command
  resistance_waits fuel battery w =
      Yields-bind (drain P fuel w) _ _ _ (drain-Moves P (Quiet log clock) line fuel w)
        λ _ w1 (on, _).
          Yields-map
            (text_loop F P fuel text_res battery (frame battery (code text_res)) 0
              (F.of_int (pos 0)) w1)
            _ _ (test_waits fuel battery w1) λ _ w2 waited. omega arith
