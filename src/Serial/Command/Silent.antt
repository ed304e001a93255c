-- ===== src/Serial/Command/Silent.antt =====
-- The commands on a port that never answers.
use mathlib.Core.Path.{subst}
use batterysystem.Common.{
  ℕ, zero, suc, ◌≤◌, ◌≡◌, refl, sym, List, false, inl, inr, Bool-cases, arith,
}
use batterysystem.Common.Int.{ℤ, pos, negsuc}
use batterysystem.Common.Runs.{M, bind, Returns, Returns-bind}
use batterysystem.Float.{Float}
use batterysystem.Serial.Port.{Port, IsSilent, Command, code}
use batterysystem.Serial.Exchange.{send_to_serial_and_recv, empty_reply}
use batterysystem.Serial.Exchange.Silent.{drain_silent, send_to_serial_and_recv_silent}
use batterysystem.Serial.Command.{
  frame, accepted, acknowledged, is_named, is_control, no_answer, current_request, text_loop,
  control_loop, current_loop, send_serial_text_command, send_serial_control_command,
  send_serial_text_current,
}

module _ (P : Port) (c : IsSilent P) where
  open P use {World, read}

  -- What follows an exchange goes on with an empty reply.
  exchange_silent :
      {B : Type 0} (request : List ℕ) (f : ℤ × List ℕ → M World B) (R : B → World → Type 0)
      (w : World)
      → ((w' : World) → Returns (f (pos 0, empty_reply) w') R)
      → Returns (bind (send_to_serial_and_recv P request empty_reply w) f) R
  exchange_silent request f R w k =
      Returns-bind (send_to_serial_and_recv P request empty_reply w) f _ R
        (send_to_serial_and_recv_silent P c request empty_reply w)
        λ r w' e. subst (λ r'. Returns (f r' w') R) (sym e) (k w')

  acknowledged_silent : (cmd : Command) → acknowledged cmd (pos 0, empty_reply) ≡ false
  unfolding acknowledged accepted
  acknowledged_silent cmd = refl

  control_loop_silent :
      (rounds : ℕ) (cmd : Command) (request : List ℕ) (v : ℤ) (w : World)
      → Returns (control_loop P (suc rounds) cmd request v w) (λ r w'. r ≡ negsuc 0)
  unfolding control_loop
  control_loop_silent zero cmd request v w =
      exchange_silent request _ (λ r w'. r ≡ negsuc 0) w λ w1. rw (acknowledged_silent cmd)
  control_loop_silent (suc rounds) cmd request v w =
      exchange_silent request _ (λ r w'. r ≡ negsuc 0) w
        λ w1. rw (acknowledged_silent cmd) (control_loop_silent rounds cmd request (negsuc 0) w1)

  module _ (F : Float) where
    abbrev IsNoAnswer : F.T → World → Type 0
    IsNoAnswer r w = r ≡ no_answer F

    text_loop_silent :
        (fuel : ℕ) (cmd : Command) (battery : ℕ) (request : List ℕ) (v : F.T) (w : World)
        → Returns (text_loop F P (suc (suc (suc fuel))) cmd battery request 0 v w) IsNoAnswer
    unfolding text_loop accepted
    text_loop_silent fuel cmd battery request v w =
        exchange_silent request _ IsNoAnswer w
          λ w1. exchange_silent request _ IsNoAnswer w1 λ w2. refl

    current_loop_silent :
        (rounds : ℕ) (v : F.T) (w : World) → Returns (current_loop F P (suc rounds) v w) IsNoAnswer
    unfolding current_loop
    current_loop_silent zero v w = exchange_silent current_request _ IsNoAnswer w λ w1. refl
    current_loop_silent (suc rounds) v w =
        exchange_silent current_request _ IsNoAnswer w
          λ w1. current_loop_silent rounds (no_answer F) w1

    text_command_silent :
        (fuel : ℕ) (cmd : Command) (battery : ℕ) (w : World)
        → Returns (send_serial_text_command F P (suc (suc (suc fuel))) cmd battery w) IsNoAnswer
    unfolding send_serial_text_command
    text_command_silent fuel cmd battery w =
        rw (drain_silent P c (suc (suc fuel)) w) (elim (Bool-cases (is_named cmd)) [
          | inl e ↦ rw e (
              text_loop_silent fuel cmd battery (frame battery (code cmd)) (F.of_int (pos 0))
                (read w 3).1)
          | inr e ↦ rw e refl
        ])

    control_command_silent :
        (fuel : ℕ) (cmd : Command) (battery : ℕ) (w : World)
        → Returns (send_serial_control_command P (suc fuel) cmd battery w) (λ r w'. r ≡ negsuc 0)
    unfolding send_serial_control_command
    control_command_silent fuel cmd battery w =
        rw (drain_silent P c fuel w) (elim (Bool-cases (is_control cmd)) [
          | inl e ↦ rw e (control_loop_silent 1 cmd (frame battery (code cmd)) (pos 0) (read w 3).1)
          | inr e ↦ rw e refl
        ])

    current_silent :
        (fuel : ℕ) (w : World) → Returns (send_serial_text_current F P (suc fuel) w) IsNoAnswer
    unfolding send_serial_text_current
    current_silent fuel w =
        rw (drain_silent P c fuel w) (current_loop_silent 1 (F.of_int (pos 0)) (read w 3).1)

    -- On a port that never answers, every command ends and returns -1, after three rounds at most.
    pub commands_silent :
        (fuel : ℕ) (cmd : Command) (battery : ℕ) (w : World)
        → 3 ≤ fuel
        → Returns (send_serial_text_command F P fuel cmd battery w) (λ r w'. r ≡ no_answer F)
          × Returns (send_serial_control_command P fuel cmd battery w) (λ r w'. r ≡ negsuc 0)
          × Returns (send_serial_text_current F P fuel w) (λ r w'. r ≡ no_answer F)
    commands_silent (suc (suc (suc fuel))) cmd battery w h = (
      text_command_silent fuel cmd battery w,
      control_command_silent (suc (suc fuel)) cmd battery w,
      current_silent (suc (suc fuel)) w,
    )
    commands_silent (suc (suc zero)) cmd battery w h = absurd (omega arith)
    commands_silent (suc zero) cmd battery w h = absurd (omega arith)
    commands_silent zero cmd battery w h = absurd (omega arith)
