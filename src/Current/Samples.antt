-- ===== src/Current/Samples.antt =====
-- What `thread_dis01` publishes.
use mathlib.Core.Path.{subst}
use batterysystem.Serial.Open.{baud_9600, Lines, open_line, no_parity}
use batterysystem.Common.{ℕ, zero, suc, true, ◌≤◌, ◌≡◌, ◌⊎◌, refl, sym, ap, inl, inr, List}
use batterysystem.Common.Int.{ℤ}
use batterysystem.Common.Runs.{Returns, Returns-bind, Returns-result, pure, done}
use batterysystem.Float.{Float}
use batterysystem.Serial.Port.{Port, IsBounded, IsOpen, IsSilent}
use batterysystem.Serial.Exchange.Closed.{Settles}
use batterysystem.Serial.Command.{
  current_request, no_answer, current_of, is_current, send_serial_text_current,
}
use batterysystem.Serial.Command.Outcome.{Outcome, send_serial_text_current-Outcome}
use batterysystem.Serial.Command.Silent.{commands_silent}
use batterysystem.Serial.Port.{read_current}
use batterysystem.Pack.{BatteryPack}
use batterysystem.Database.{Client, Statement, add_current_data}
use batterysystem.Database.Written.{IsLog}
use batterysystem.Database.Recorded.{IsConnected, RecordedCurrent, add_current_data-Recorded}
use batterysystem.Current.{amperes, set_current, sample, samples, thread_dis01, dis01_serial_file}

module _ (F : Float) (P : Port) (C : Client F P.World) (log : P.World → List (Statement F)) where
  open P use {World}

  -- The amperes of a well-formed reply, or those of the error code -1.
  abbrev pub IsHeard : F.T → Type 0
  IsHeard current =
      (current ≡ amperes F (no_answer F))
      ⊎ ((reply : ℤ × List ℕ) × (is_current reply ≡ true)
          × (current ≡ amperes F (current_of F P reply)))

  -- What a turn does: the sensor is asked, and the current of what it gives is set in the shared record
  -- and stored.
  abbrev pub Sampled : ℕ → BatteryPack F → World → BatteryPack F → World → Type 0
  Sampled fuel group w group' w' =
      (value : F.T) × (ws : World) × (w1 : World) × (send_serial_text_current F P fuel w
        ≡ done value ws)
      × Outcome P current_request is_current (current_of F P) (no_answer F) value ws
      × (group' ≡ set_current F (amperes F value) group)
      × RecordedCurrent C log (amperes F value) ws w1
      × (w' ≡ P.sleep 1000000 w1)

module _ (F : Float) (P : Port) (C : Client F P.World) (up : IsConnected C)
    (log : P.World → List (Statement F)) (l : IsLog C log) where
  open P use {World}

  -- On an open port whose buffer settles, with a server that can be reached, a turn ends and changes just
  -- the current of the shared record: to the amperes of what sendSerialTextCurrent gives at its start,
  -- the value of a well-formed reply to the request, which was the last one received, or the error code
  -- -1, which nothing tells apart. If the database can be used, at once or after an attempt to create it,
  -- it sends the statements that store that current.
  pub sample-Returns :
      IsBounded P
      → IsOpen P
      → (n fuel : ℕ) (group : BatteryPack F) (w : World) → Settles P n w
      → n ≤ fuel
      → Returns (sample F P C fuel group w) (λ group' w'. Sampled F P C log fuel group w group' w')
  unfolding sample
  sample-Returns b o n fuel group w s f =
      Returns-bind (send_serial_text_current F P fuel w) _ _
        (λ group' w'. Sampled F P C log fuel group w group' w')
        (Returns-result (send_serial_text_current F P fuel w) _
          (send_serial_text_current-Outcome P b o F n fuel w s f))
        λ v ws (sent, outcome).
          Returns-bind (add_current_data C (amperes F v) ws) _ _
            (λ group' w'. Sampled F P C log fuel group w group' w')
            (add_current_data-Recorded C log l up (amperes F v) ws)
            λ _ w1 recorded. (v, ws, w1, sent, outcome, refl, recorded, refl)

  Sampled-IsHeard :
      (fuel : ℕ) (before after : BatteryPack F) (w w' : World)
      → Sampled F P C log fuel before w after w'
      → IsHeard F P C log after.group_current
  unfolding set_current
  Sampled-IsHeard fuel before after w w' (value, ws, w1, sent, outcome, e, _, _) =
      let heard : IsHeard F P C log (amperes F value) = elim outcome [
        | inl e ↦ inl (ap (amperes F) e)
        | inr (reply, heard, e) ↦ inr (reply, heard.2, ap (amperes F) e)
      ] in
      subst (IsHeard F P C log) (sym (ap (λ (g : BatteryPack F). g.group_current) e)) heard

  samples-Returns :
      IsBounded P
      → IsOpen P
      → (n fuel : ℕ) → ((w : World) → Settles P n w)
      → n ≤ fuel
      → (others : World → BatteryPack F → BatteryPack F) (turns : ℕ) (group : BatteryPack F)
        (w : World)
      → Returns
          (samples F P C others (suc turns) fuel group w)
          (λ group' _. IsHeard F P C log group'.group_current)
  unfolding samples
  samples-Returns b o n fuel settles f others zero group w =
      let before = others w group in
      Returns-bind (sample F P C fuel before w) pure
        (λ after w'. Sampled F P C log fuel before w after w') _
        (sample-Returns b o n fuel before w (settles w) f)
        λ after w' sampled. Sampled-IsHeard fuel before after w w' sampled
  samples-Returns b o n fuel settles f others (suc turns) group w =
      let before = others w group in
      Returns-bind (sample F P C fuel before w) (samples F P C others (suc turns) fuel)
        (λ after w'. Sampled F P C log fuel before w after w') _
        (sample-Returns b o n fuel before w (settles w) f)
        λ after w' _. samples-Returns b o n fuel settles f others turns after w'

  -- On an open port whose buffer always settles, with a server that can be reached, thread_dis01 goes on
  -- for any number of turns. After at least one of them the current of the shared record is the amperes of
  -- a well-formed reply or of the error code -1, whatever the other threads do between the turns.
  pub thread_dis01-Returns :
      IsBounded P
      → IsOpen P
      → (n fuel : ℕ) → ((w : World) → Settles P n w)
      → n ≤ fuel
      → (L : Lines World) (others : World → BatteryPack F → BatteryPack F) (turns : ℕ)
        (group : BatteryPack F) (w : World)
      → Returns
          (thread_dis01 F P C L others (suc turns) fuel group w)
          (λ group' _. IsHeard F P C log group'.group_current)
  unfolding thread_dis01
  thread_dis01-Returns b o n fuel settles f L others turns group w =
      samples-Returns b o n fuel settles f others turns group
        (open_line L dis01_serial_file baud_9600 no_parity 8 1 w).1

  -- If the sensor never answers, the current that every turn publishes is that of the error code -1.
  pub sample_silent :
      IsSilent P
      → (fuel : ℕ) (group : BatteryPack F) (w : World) → 3 ≤ fuel
      → Returns
          (sample F P C fuel group w)
          (λ group' _. group' ≡ set_current F (amperes F (no_answer F)) group)
  unfolding sample
  sample_silent c fuel group w h =
      Returns-bind (send_serial_text_current F P fuel w) _ _ _
        (commands_silent P c F fuel read_current 0 w h).2
        λ v ws e.
          Returns-bind (add_current_data C (amperes F v) ws) _ _ _
            (add_current_data-Recorded C log l up (amperes F v) ws)
            λ _ w1 _. ap (λ x. set_current F (amperes F x) group) e
