-- ===== src/Serial/Exchange/Closed.antt =====
-- The loops on a port whose reads fail, and when the loop that empties the buffer ends.
use batterysystem.Common.{
  ℕ, zero, suc, ◌+◌, ◌≤◌, ◌≡◌, ◌⊎◌, inl, inr, refl, List, [], arith, if◌then◌else◌, ◌==◌,
  Bool-cases,
}
use batterysystem.Common.Int.{ℤ, pos, negsuc, eqb_ℤ}
use batterysystem.Common.Runs.{Run, spin, Returns}
use batterysystem.Serial.Port.{got, failed, Port, IsClosed}
use batterysystem.Serial.Exchange.{
  readonce, room, recv_round, recv_loop, send_to_serial_and_recv, drain,
}

module _ (P : Port) where
  open P use {World, read, write, flush, sleep}

  -- One of the next `n` reads of the draining loop finds nothing.
  pub Settles : ℕ → World → Type 0
  Settles zero w = ⊥
  Settles (suc n) w = ((read w 3).0 ≡ got []) ⊎ Settles n (flush (read w 3).1)

  -- If nothing is left after a flush, the second read at the latest finds nothing.
  pub Settles-flushed : (w : World) → (read (flush (read w 3).1) 3).0 ≡ got [] → Settles 2 w
  unfolding Settles
  Settles-flushed w e = inr (inl e)

  -- With fuel for the reads that it takes, the draining loop ends without a fault.
  pub drain_settles :
      (n fuel : ℕ) (w : World)
      → Settles n w
      → n ≤ fuel
      → Returns (drain P fuel w) (λ _ w'. Unit {0})
  unfolding drain Settles
  drain_settles zero fuel w s h = elim s [ ]
  drain_settles (suc n) zero w s h = absurd (omega arith)
  drain_settles (suc n) (suc fuel) w s h =
      elim (Bool-cases (eqb_ℤ (readonce (read w 3).0) (pos 0))) [
        | inl e ↦ rw (e, drain) tt
        | inr e ↦
            rw (e, drain)
              (elim s [
                | inl quiet ↦ ground (arith, quiet, e)
                | inr later ↦ drain_settles n fuel (flush (read w 3).1) later (omega arith)
              ])
      ]

  module _ (c : IsClosed P) where
    -- On a port whose reads all fail, the loop that empties the receive buffer never ends.
    pub drain_closed : (fuel : ℕ) (w : World) → drain P fuel w ≡ spin
    unfolding drain
    drain_closed zero w = refl
    drain_closed (suc fuel) w = rw (c.read-eq-failed w 3, drain) (drain_closed fuel _)

    recv_round_failed :
        (k : ℕ) (buf : List ℕ) (next : ℤ → List ℕ → World → Run World (ℤ × List ℕ)) (w : World)
        → recv_round P failed (negsuc k) buf next w ≡ next (negsuc (suc k)) buf w
    recv_round_failed k buf next w = ground arith

    recv_loop_closed :
        (rounds i k m : ℕ) (buf : List ℕ) (w : World)
        → m ≡ k + rounds
        → Returns (recv_loop P rounds i (negsuc k) buf w) (λ r w'. r ≡ (negsuc m, buf))
    unfolding recv_loop
    recv_loop_closed zero i k m buf w e = let e' : m ≡ k = omega arith in rw e'
    recv_loop_closed (suc rounds) i k m buf w e =
        let w1 = if i == 0 then w else sleep 40000 w in
        let (res, w2) = read w1 (room (negsuc k)) in
        rw (c.read-eq-failed w1 (room (negsuc k)), recv_round_failed)
          (recv_loop_closed rounds (i + 1) (suc k) m buf w2 (omega arith))

    recv_loop_closed_start :
        (rounds : ℕ) (buf : List ℕ) (w : World)
        → Returns (recv_loop P (suc rounds) 0 (pos 0) buf w) (λ r w'. r ≡ (negsuc rounds, buf))
    unfolding recv_loop
    recv_loop_closed_start rounds buf w =
        rw (c.read-eq-failed w 4)
          (recv_loop_closed rounds 1 0 rounds buf (read w 4).1 (omega arith))

    -- `SendToSerialAndRecv` then returns -25, with nothing received.
    pub send_to_serial_and_recv_closed :
        (psend precv : List ℕ) (w : World)
        → Returns (send_to_serial_and_recv P psend precv w) (λ r w'. r ≡ (negsuc 24, precv))
    unfolding send_to_serial_and_recv
    send_to_serial_and_recv_closed psend precv w = recv_loop_closed_start 24 precv _
