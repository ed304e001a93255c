-- ===== src/Serial/Exchange/Silent.antt =====
-- `SendToSerialAndRecv` on a port that is open but never answers, as when a sensor is disconnected.
use batterysystem.Common.{ℕ, zero, suc, ◌+◌, ◌≡◌, refl, List, ◌==◌, if◌then◌else◌}
use batterysystem.Common.Int.{pos}
use batterysystem.Common.Runs.{done, Returns}
use batterysystem.Serial.Port.{Port, IsSilent}
use batterysystem.Serial.Exchange.{recv_loop, send_to_serial_and_recv, drain}

module _ (P : Port) (c : IsSilent P) where
  open P use {World, read, write, flush, sleep}

  -- The loop that empties the receive buffer ends with the first read.
  pub drain_silent : (fuel : ℕ) (w : World) → drain P (suc fuel) w ≡ done tt (read w 3).1
  unfolding drain
  drain_silent fuel w = rw (c.read-eq-nil w 3, drain)

  recv_loop_silent :
      (rounds i : ℕ) (buf : List ℕ) (w : World)
      → Returns (recv_loop P rounds i (pos 0) buf w) (λ r w'. r ≡ (pos 0, buf))
  unfolding recv_loop
  recv_loop_silent zero i buf w = refl
  recv_loop_silent (suc rounds) i buf w =
      let w1 = if i == 0 then w else sleep 40000 w in
      rw (c.read-eq-nil w1 4) (recv_loop_silent rounds (i + 1) buf (read w1 4).1)

  -- `SendToSerialAndRecv` then returns 0, with nothing received.
  pub send_to_serial_and_recv_silent :
      (psend precv : List ℕ) (w : World)
      → Returns (send_to_serial_and_recv P psend precv w) (λ r w'. r ≡ (pos 0, precv))
  unfolding send_to_serial_and_recv
  send_to_serial_and_recv_silent psend precv w = recv_loop_silent 25 0 precv _
