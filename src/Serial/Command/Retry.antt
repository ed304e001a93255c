-- ===== src/Serial/Command/Retry.antt =====
-- The three loops against what their comments promise: one more attempt if the first reply is bad.
use batterysystem.Common.{
  ℕ, zero, suc, ◌≤◌, ◌≡◌, refl, List, Bool, false, get_or, if◌then◌else◌, ap, arith, Bool-cases,
  inl, inr,
}
use mathlib.Core.Path.{fun_ext}
use batterysystem.Common.Int.{ℤ}
use batterysystem.Common.Runs.{Run, done, fault, spin, M, ◌>>=◌, ◌>>◌, pure, bind}
use batterysystem.Float.{Float}
use batterysystem.Serial.Port.{Port, Command, code}
use batterysystem.Serial.Decode.{decode_data}
use batterysystem.Serial.Exchange.{empty_reply, send_to_serial_and_recv, drain}
use batterysystem.Serial.Command.{
  frame, accepted, is_text_res, is_named, no_answer, text_round, text_loop,
  send_serial_text_command,
}

module _ (P : Port) where
  open P use {World}

  -- Send the request; give up if the reply fails the test.
  abbrev pub last_attempt :
      {A : Type 0} → List ℕ → (ℤ × List ℕ → Bool) → (ℤ × List ℕ → A) → A → M World A
  last_attempt request test result failure = do
    reply ← send_to_serial_and_recv P request empty_reply
    if test reply then pure (result reply) else pure failure

  -- Send the request; if the reply fails the test, send it once more.
  abbrev pub at_most_twice :
      {A : Type 0} → List ℕ → (ℤ × List ℕ → Bool) → (ℤ × List ℕ → A) → A → M World A
  at_most_twice request test result failure = do
    reply ← send_to_serial_and_recv P request empty_reply
    if test reply then pure (result reply) else last_attempt request test result failure

module _ (F : Float) (P : Port) where
  open P use {World}

  -- What an accepted reply of a sensor says.
  abbrev pub reading : ℤ × List ℕ → F.T
  reading reply = decode_data F (get_or reply.1 1 0) (get_or reply.1 2 0)

  pub text_loop_done :
      (fuel : ℕ) (cmd : Command) (battery : ℕ) (cmdstr : List ℕ) (i : ℕ) (v : F.T) (w : World)
      → 2 ≤ i
      → text_loop F P (suc fuel) cmd battery cmdstr i v w ≡ done v w
  unfolding text_loop
  text_loop_done fuel cmd battery cmdstr i v w h = ground arith

  -- The second round, after any first exchange, and then the first.
  second_round :
      (m : Run World (ℤ × List ℕ)) (fuel : ℕ) (cmd : Command) (battery : ℕ) (cmdstr : List ℕ)
      → is_text_res cmd ≡ false
      → bind m (λ reply.
        text_round F P cmd battery cmdstr 1 reply (text_loop F P (suc fuel) cmd battery))
        ≡ bind m (λ reply. if accepted reply then pure (reading reply) else pure (no_answer F))
  second_round (done reply w) fuel cmd battery cmdstr h =
      let next = λ (i : ℕ) (v : F.T). text_loop_done fuel cmd battery cmdstr i v w in
      ground (arith, next 3 (reading reply) (omega arith), next 2 (no_answer F) (omega arith))
  second_round fault fuel cmd battery cmdstr h = refl
  second_round spin fuel cmd battery cmdstr h = refl

  text_loop_again :
      (fuel : ℕ) (cmd : Command) (battery : ℕ) (cmdstr : List ℕ) (v : F.T) (w : World)
      → is_text_res cmd ≡ false
      → text_loop F P (suc (suc fuel)) cmd battery cmdstr 1 v w
        ≡ bind
            (send_to_serial_and_recv P cmdstr empty_reply w)
            (λ reply. if accepted reply then pure (reading reply) else pure (no_answer F))
  unfolding text_loop
  text_loop_again fuel cmd battery cmdstr v w h =
      second_round (send_to_serial_and_recv P cmdstr empty_reply w) fuel cmd battery cmdstr h

  first_round :
      (m : Run World (ℤ × List ℕ)) (fuel : ℕ) (cmd : Command) (battery : ℕ) (cmdstr : List ℕ)
      → is_text_res cmd ≡ false
      → bind m (λ reply.
        text_round F P cmd battery cmdstr 0 reply (text_loop F P (suc (suc fuel)) cmd battery))
        ≡ bind m (λ reply.
          if accepted reply
          then pure (reading reply)
          else (send_to_serial_and_recv P cmdstr empty_reply >>= λ reply.
              if accepted reply then pure (reading reply) else pure (no_answer F)))
  first_round (done reply w) fuel cmd battery cmdstr h =
      let end = text_loop_done (suc fuel) cmd battery cmdstr 3 (reading reply) w (omega arith) in
      let again = text_loop_again fuel cmd battery cmdstr (no_answer F) w h in
      elim (Bool-cases (accepted reply)) [
        | inl e ↦ rw (e, h) (ground (arith, end))
        | inr e ↦ rw e again
      ]
  first_round fault fuel cmd battery cmdstr h = refl
  first_round spin fuel cmd battery cmdstr h = refl

  text_loop_twice :
      (fuel : ℕ) (cmd : Command) (battery : ℕ) (cmdstr : List ℕ) (v : F.T) (w : World)
      → 3 ≤ fuel
      → is_text_res cmd ≡ false
      → text_loop F P fuel cmd battery cmdstr 0 v w
        ≡ at_most_twice P cmdstr accepted reading (no_answer F) w
  unfolding text_loop
  text_loop_twice (suc (suc (suc fuel))) cmd battery cmdstr v w f h =
      first_round (send_to_serial_and_recv P cmdstr empty_reply w) fuel cmd battery cmdstr h
  text_loop_twice zero cmd battery cmdstr v w f h = absurd (omega arith)
  text_loop_twice (suc zero) cmd battery cmdstr v w f h = absurd (omega arith)
  text_loop_twice (suc (suc zero)) cmd battery cmdstr v w f h = absurd (omega arith)

  -- With fuel for three rounds or more, a command other than the resistance test is the draining of
  -- the buffer and then at most two attempts: the reading of the first accepted reply, or -1. For a
  -- number that names no command nothing is sent, and the result is -1.
  pub send_serial_text_command_lem :
      (fuel : ℕ) (cmd : Command) (battery : ℕ) (w : World)
      → 3 ≤ fuel
      → is_text_res cmd ≡ false
      → send_serial_text_command F P fuel cmd battery w
        ≡ (drain P fuel
              >> (if is_named cmd
                  then at_most_twice P (frame battery (code cmd)) accepted reading (no_answer F)
                  else pure (no_answer F)))
            w
  unfolding send_serial_text_command
  send_serial_text_command_lem fuel cmd battery w f h =
      ap
        (λ (k : M World F.T).
          bind (drain P fuel w) (λ _. if is_named cmd then k else pure (no_answer F)))
        (fun_ext (λ w'. text_loop_twice fuel cmd battery (frame battery (code cmd)) _ w' f h))
