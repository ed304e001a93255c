-- ===== src/Serial/Command/Polling.antt =====
-- The internal resistance: the request is changed into a query for the result, which is repeated for
-- as long as the sensor answers -2.
use batterysystem.Common.{
  ℕ, zero, suc, ◌+◌, ◌≤◌, ◌<◌, ◌≡◌, refl, List, Bool, true, false, lt→ltb, arith,
}
use batterysystem.Common.Int.{ℤ}
use batterysystem.Common.Runs.{done, spin}
use batterysystem.Float.{Float}
use batterysystem.Serial.Port.{Port, text_res}
use batterysystem.Serial.Decode.{invalid}
use batterysystem.Serial.Exchange.{empty_reply, send_to_serial_and_recv}
use batterysystem.Serial.Command.{frame, accepted, text_loop}
use batterysystem.Serial.Command.Retry.{reading}

module _ (F : Float) (P : Port) where
  open P use {World}

  -- The exchange ends with an accepted reply; `late` says whether it reads -2.
  abbrev pub Answers : Bool → List ℕ → World → ℤ × List ℕ → World → Type 0
  Answers late request w reply w' =
      (send_to_serial_and_recv P request empty_reply w ≡ done reply w')
      × (accepted reply ≡ true)
      × (F.eq (reading F P reply) (invalid F) ≡ late)

  -- After `n` replies of -2, to the request and then to the query 0x22, comes another value.
  unfoldable pub AnswersAfter : ℕ → ℕ → List ℕ → World → F.T → World → Type 0
  AnswersAfter zero battery request w v w' =
      (reply : ℤ × List ℕ) × Answers false request w reply w' × (v ≡ reading F P reply)
  AnswersAfter (suc n) battery request w v w' =
      (reply : ℤ × List ℕ) × (next : World) × Answers true request w reply next
      × AnswersAfter n battery (frame battery 0x22) next v w'

  -- If the sensor answers -2 `n` times and then another value, the loop returns that value, with fuel
  -- for the `n + 2` rounds, in the first round and in the second.
  pub text_loop-AnswersAfter :
      (n fuel battery : ℕ) (request : List ℕ) (i : ℕ) (res_value : F.T) (w : World) (v : F.T)
      (w' : World)
      → n + 2 ≤ fuel
      → i < 2
      → AnswersAfter n battery request w v w'
      → text_loop F P fuel text_res battery request i res_value w ≡ done v w'
  unfolding text_loop AnswersAfter
  text_loop-AnswersAfter n zero battery request i res_value w v w' f h a = absurd (omega arith)
  text_loop-AnswersAfter n (suc zero) battery request i res_value w v w' f h a =
      absurd (omega arith)
  text_loop-AnswersAfter zero (suc (suc fuel)) battery request i res_value w v w' f h
        (reply, (e, ok, other), same) =
      rw (lt→ltb i 2 h, e, ok, other) (cc)
  text_loop-AnswersAfter (suc n) (suc (suc fuel)) battery request i res_value w v w' f h
        (reply, next, (e, ok, late), more) =
      rw (lt→ltb i 2 h, e, ok, late)
        (text_loop-AnswersAfter n (suc fuel) battery (frame battery 0x22) 1 (reading F P reply) next
          v w' (omega arith) (omega arith) more)

  -- A sensor that answers every request with -2 is queried for ever.
  pub text_loop_spins :
      ((request : List ℕ) (w : World)
        → (reply : ℤ × List ℕ) × (next : World) × Answers true request w reply next)
      → (fuel battery : ℕ) (request : List ℕ) (i : ℕ) (res_value : F.T) (w : World) → i < 2
      → text_loop F P fuel text_res battery request i res_value w ≡ spin
  unfolding text_loop
  text_loop_spins late zero battery request i res_value w h = refl
  text_loop_spins late (suc fuel) battery request i res_value w h =
      let (reply, next, a) = late request w in
      let (e, ok, l) = a in
      rw (lt→ltb i 2 h, e, ok, l)
        (text_loop_spins late fuel battery (frame battery 0x22) 1 (reading F P reply) next
          (omega arith))
