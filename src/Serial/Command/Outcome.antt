-- ===== src/Serial/Command/Outcome.antt =====
-- What each command returns on an open port, and that none returns on a closed one.
use batterysystem.Common.{
  ℕ, ◌≤◌, ◌≡◌, ◌⊎◌, inl, inr, refl, List, Bool, true, false, if◌then◌else◌, Bool-cases,
}
use batterysystem.Common.Int.{ℤ, pos, negsuc}
use batterysystem.Common.Runs.{
  Run, done, spin, bind, pure, Returns, Returns-bind, ◌>>◌, Returns-map,
}
use batterysystem.Float.{Float}
use batterysystem.Serial.Port.{Port, Command, code, IsBounded, IsOpen, IsClosed}
use batterysystem.Serial.Exchange.{empty_reply, send_to_serial_and_recv, drain}
use batterysystem.Serial.Exchange.Bytes.{send_to_serial_and_recv-eq-gather}
use batterysystem.Serial.Exchange.Closed.{Settles, drain_settles, drain_closed}
use batterysystem.Serial.Command.{
  frame, accepted, acknowledged, is_text_res, is_named, is_control, no_answer, current_request,
  is_current, current_of, current_round, send_serial_text_command, control_loop,
  send_serial_control_command, current_loop, send_serial_text_current,
}
use batterysystem.Serial.Command.Retry.{
  last_attempt, at_most_twice, reading, send_serial_text_command_lem,
}

Returns-self :
    {W A : Type 0} (m : Run W A) (a : A) (w : W) → m ≡ done a w → Returns m (λ b v. m ≡ done b v)
Returns-self m a w e = rw e refl

module _ (P : Port) where
  open P use {World}

  -- The world `w'` is the one after an exchange with a reply that passes the test.
  abbrev pub Heard : List ℕ → (ℤ × List ℕ → Bool) → ℤ × List ℕ → World → Type 0
  Heard request test reply w' =
      (w : World) × (send_to_serial_and_recv P request empty_reply w ≡ done reply w')
      × (test reply ≡ true)

  -- The value is that of a reply which passed the test in the last exchange, or the failure code.
  abbrev pub Outcome :
      {A : Type 0} → List ℕ → (ℤ × List ℕ → Bool) → (ℤ × List ℕ → A) → A → A → World → Type 0
  Outcome request test result failure v w' =
      (v ≡ failure) ⊎ ((reply : ℤ × List ℕ) × Heard request test reply w' × (v ≡ result reply))

  abbrev pub GuardedOutcome :
      {A : Type 0} → Bool → List ℕ → (ℤ × List ℕ → Bool) → (ℤ × List ℕ → A) → A → A → World → Type 0
  GuardedOutcome go request test result failure v w' =
      (v ≡ failure)
      ⊎ ((go ≡ true) × ((reply : ℤ × List ℕ) × Heard request test reply w' × (v ≡ result reply)))

  -- On a port whose reads fail no command returns: the loop that empties the buffer goes on for ever.
  pub commands_closed :
      (F : Float)
      → IsClosed P
      → (fuel : ℕ) (cmd : Command) (battery : ℕ) (w : World)
      → (send_serial_text_command F P fuel cmd battery w ≡ spin)
        × (send_serial_control_command P fuel cmd battery w ≡ spin)
        × (send_serial_text_current F P fuel w ≡ spin)
  unfolding send_serial_text_command send_serial_control_command send_serial_text_current
  commands_closed F c fuel cmd battery w = let e = drain_closed P c fuel w in (rw e, rw e, rw e)

  module _ (b : IsBounded P) (o : IsOpen P) where
    exchange_returns :
        (request : List ℕ) (w : World)
        → let m = send_to_serial_and_recv P request empty_reply w in
          Returns m (λ r w'. m ≡ done r w')
    exchange_returns request w =
        Returns-self _ _ _ (send_to_serial_and_recv-eq-gather P b o request w).0

    exchange-bind :
        {B : Type 0} (request : List ℕ) (f : ℤ × List ℕ → World → Run World B)
        (R : B → World → Type 0) (w : World)
        → ((reply : ℤ × List ℕ) (w' : World)
            → send_to_serial_and_recv P request empty_reply w ≡ done reply w'
            → Returns (f reply w') R)
        → Returns (bind (send_to_serial_and_recv P request empty_reply w) f) R
    exchange-bind request f R w k =
        Returns-bind (send_to_serial_and_recv P request empty_reply w) f _ R
          (exchange_returns request w) k

    module _ {A : Type 0} (request : List ℕ) (test : ℤ × List ℕ → Bool) (result : ℤ × List ℕ → A)
        (failure : A) where
      last_attempt-Outcome :
          (w : World)
          → Returns
              (last_attempt P request test result failure w)
              (Outcome request test result failure)
      last_attempt-Outcome w =
          exchange-bind request (λ reply. if test reply then pure (result reply) else pure failure)
            (Outcome request test result failure) w
            λ reply w' e. elim (Bool-cases (test reply)) [
              | inl ok ↦ rw ok (inr (reply, (w, e, ok), refl))
              | inr bad ↦ rw bad (inl refl)
            ]

      at_most_twice-Outcome :
          (w : World)
          → Returns
              (at_most_twice P request test result failure w)
              (Outcome request test result failure)
      at_most_twice-Outcome w =
          exchange-bind request
            (λ reply.
              if test reply
              then pure (result reply)
              else last_attempt P request test result failure)
            (Outcome request test result failure) w
            λ reply w' e. elim (Bool-cases (test reply)) [
              | inl ok ↦ rw ok (inr (reply, (w, e, ok), refl))
              | inr bad ↦ rw bad (last_attempt-Outcome w')
            ]

      guarded-Outcome :
          (go : Bool) (n fuel : ℕ) (w : World)
          → Settles P n w
          → n ≤ fuel
          → Returns
              ((drain P fuel
                  >> (if go then at_most_twice P request test result failure else pure failure))
                w)
              (GuardedOutcome go request test result failure)
      guarded-Outcome true n fuel w s f =
          Returns-bind (drain P fuel w) (λ _. at_most_twice P request test result failure) _ _
            (drain_settles P n fuel w s f)
            λ _ w' _.
              Returns-map (at_most_twice P request test result failure w')
                (Outcome request test result failure) _ (at_most_twice-Outcome w')
                λ v w'' out. elim out [ inl e ↦ inl e | inr heard ↦ inr (refl, heard) ]
      guarded-Outcome false n fuel w s f =
          Returns-bind (drain P fuel w) (λ _. pure failure) _ _ (drain_settles P n fuel w s f)
            λ _ w' _. inl refl

    -- On an open port whose buffer settles, a text command other than the resistance test returns -1,
    -- or the reading of an accepted reply to its frame, which was the last one received; the latter
    -- only if the command has a name.
    pub send_serial_text_command-Outcome :
        (F : Float) (n fuel : ℕ) (cmd : Command) (battery : ℕ) (w : World)
        → Settles P n w
        → n ≤ fuel
        → 3 ≤ fuel
        → is_text_res cmd ≡ false
        → Returns (send_serial_text_command F P fuel cmd battery w) (
            GuardedOutcome
              (is_named cmd)
              (frame battery (code cmd))
              accepted
              (reading F P)
              (no_answer F))
    send_serial_text_command-Outcome F n fuel cmd battery w s f g h =
        rw (send_serial_text_command_lem F P fuel cmd battery w g h) (
          guarded-Outcome (frame battery (code cmd)) accepted (reading F P) (no_answer F)
            (is_named cmd) n fuel w s f)

    -- On an open port whose buffer settles, a control command returns -1, or 0 after a reply to its frame
    -- that acknowledges it, which was the last one received; the latter only for the two commands of
    -- the discharging device.
    pub send_serial_control_command-Outcome :
        (n fuel : ℕ) (cmd : Command) (battery : ℕ) (w : World)
        → Settles P n w
        → n ≤ fuel
        → Returns (send_serial_control_command P fuel cmd battery w) (
            GuardedOutcome
              (is_control cmd)
              (frame battery (code cmd))
              (acknowledged cmd)
              (λ _. pos 0)
              (negsuc 0))
    unfolding send_serial_control_command control_loop
    send_serial_control_command-Outcome n fuel cmd battery w s f =
        guarded-Outcome (frame battery (code cmd)) (acknowledged cmd) (λ _. pos 0) (negsuc 0)
          (is_control cmd) n fuel w s f

    module _ (F : Float) where
      abbrev IsReading : F.T → World → Type 0
      IsReading = Outcome current_request is_current (current_of F P) (no_answer F)

      current_round-IsReading :
          (reply : ℤ × List ℕ) (next : F.T → World → Run World F.T) (w w' : World)
          → send_to_serial_and_recv P current_request empty_reply w ≡ done reply w'
          → (is_current reply ≡ true → Returns (next (current_of F P reply) w') IsReading)
          → Returns (next (no_answer F) w') IsReading
          → Returns (current_round F P reply next w') IsReading
      current_round-IsReading reply next w w' e again missing =
          elim (Bool-cases (is_current reply)) [
            | inl ok ↦ rw ok (elim (Bool-cases (F.lt (F.of_int (pos 0)) (current_of F P reply))) [
              | inl high ↦ rw high (inr (reply, (w, e, ok), refl))
              | inr low ↦ rw low (again ok)
            ])
            | inr bad ↦ rw bad missing
          ]

      last_round-IsReading : (v : F.T) (w : World) → Returns (current_loop F P 1 v w) IsReading
      unfolding current_loop
      last_round-IsReading v w =
          exchange-bind current_request (λ reply. current_round F P reply (current_loop F P 0))
            IsReading w
            λ reply w' e.
              current_round-IsReading reply (current_loop F P 0) w w' e
                (λ ok. inr (reply, (w, e, ok), refl)) (inl refl)

      -- On an open port whose buffer settles, a request for the current returns -1, or the scaled value
      -- of a well-formed reply to it, which was the last one received.
      pub send_serial_text_current-Outcome :
          (n fuel : ℕ) (w : World)
          → Settles P n w
          → n ≤ fuel
          → Returns
              (send_serial_text_current F P fuel w)
              (Outcome current_request is_current (current_of F P) (no_answer F))
      unfolding send_serial_text_current current_loop
      send_serial_text_current-Outcome n fuel w s f =
          Returns-bind (drain P fuel w) (λ _. current_loop F P 2 (F.of_int (pos 0))) _ IsReading
            (drain_settles P n fuel w s f)
            λ _ w1 _.
              exchange-bind current_request (λ reply. current_round F P reply (current_loop F P 1))
                IsReading w1
                λ reply w2 e.
                  current_round-IsReading reply (current_loop F P 1) w1 w2 e
                    (λ _. last_round-IsReading (current_of F P reply) w2)
                    (last_round-IsReading (no_answer F) w2)
