-- ===== src/Serial/Steady.antt =====
-- What the commands leave as it is: whatever the calls on the port keep.
use batterysystem.Common.{
  Option-cases, ℕ, zero, suc, ◌+◌, inl, inr, List, Bool, true, false, ◌&&◌, ltb, ◌==◌, get_or,
  Bool-cases, if◌then◌else◌,
}
use batterysystem.Common.Int.{ℤ, pos, negsuc, ◌+ℤ◌, eqb_ℤ, ltb_ℤ}
use batterysystem.Common.Runs.{M}
use batterysystem.Common.Runs.Yields.{Yields, Yields-trans, Yields-map}
use batterysystem.Float.{Float}
use batterysystem.Serial.Port.{Port, ReadResult, Command, code}
use batterysystem.Serial.Decode.{decode_data, invalid}
use batterysystem.Serial.Exchange.{
  readonce, room, receive, empty_reply, recv_round, recv_loop, send_to_serial_and_recv, drain,
}
use batterysystem.Serial.Command.{
  frame, accepted, acknowledged, is_text_res, is_named, is_control, no_answer, is_current,
  current_request, control_loop, send_serial_control_command, text_round, text_loop,
  send_serial_text_command, current_of, current_round, current_loop, send_serial_text_current,
}

-- A preorder of the worlds that every call on the port moves along.
pub record IsSteady (P : Port) (R : P.World → P.World → Type 0) : Type 0 where
  pub same : (w : P.World) → R w w
  pub trans : (a b c : P.World) → R a b → R b c → R a c
  pub read : (w : P.World) (n : ℕ) → R w (P.read w n).1
  pub write : (bytes : List ℕ) (w : P.World) → R w (P.write bytes w)
  pub flush : (w : P.World) → R w (P.flush w)
  pub sleep : (n : ℕ) (w : P.World) → R w (P.sleep n w)

module _ (P : Port) (R : P.World → P.World → Type 0) (s : IsSteady P R) where
  open P use {World}

  -- a pause that is made or not
  paused : (b : Bool) (n : ℕ) (w : World) → R w (if b then w else P.sleep n w)
  paused true n w = s.same w
  paused false n w = s.sleep n w

  abbrev pub Moves : {A : Type 0} → M World A → Type 0
  Moves m = (w : World) → Yields (m w) (λ _ w'. R w w')

  recv_round-Moves :
      (res : ReadResult) (readlen : ℤ) (precv : List ℕ) (next : ℤ → List ℕ → M World (ℤ × List ℕ))
      → ((n : ℤ) (buf : List ℕ) → Moves (next n buf))
      → Moves (recv_round P res readlen precv next)
  recv_round-Moves res readlen precv next go w =
      let readlen' = readlen +ℤ readonce res in
      let nonzero = if eqb_ℤ (readonce res) (pos 0) then false else true in
      elim (Option-cases (receive res readlen precv)) [
        | inl outside ↦ rw (outside, Yields) tt
        | inr (precv', e) ↦ elim (Bool-cases (nonzero && ltb_ℤ (pos 3) readlen')) [
          | inl full ↦ rw (e, full, Yields) (s.same w)
          | inr more ↦ rw (e, more, Yields) (go readlen' precv' w)
        ]
      ]

  pub recv_loop-Moves :
      (rounds i : ℕ) (readlen : ℤ) (precv : List ℕ) → Moves (recv_loop P rounds i readlen precv)
  unfolding recv_loop
  recv_loop-Moves zero i readlen precv w = s.same w
  recv_loop-Moves (suc rounds) i readlen precv w =
      let w1 = if i == 0 then w else P.sleep 40000 w in
      let (res, w2) = P.read w1 (room readlen) in
      Yields-map (recv_round P res readlen precv (recv_loop P rounds (i + 1)) w2) _ _
        (recv_round-Moves res readlen precv (recv_loop P rounds (i + 1))
          (recv_loop-Moves rounds (i + 1)) w2)
        λ _ w3 r.
          s.trans w w1 w3 (paused (i == 0) 40000 w) (s.trans w1 w2 w3 (s.read w1 (room readlen)) r)

  pub exchange-Moves : (psend precv : List ℕ) → Moves (send_to_serial_and_recv P psend precv)
  unfolding send_to_serial_and_recv
  exchange-Moves psend precv w =
      let w1 = P.write psend w in
      let w2 = if get_or psend 1 0 == 0x62 then P.sleep 6000000 w1 else P.sleep 40000 w1 in
      let waited : R w1 w2 = elim (Bool-cases (get_or psend 1 0 == 0x62)) [
        | inl e ↦ rw e (s.sleep 6000000 w1)
        | inr e ↦ rw e (s.sleep 40000 w1)
      ] in
      Yields-map (recv_loop P 25 0 (pos 0) precv w2) _ _ (recv_loop-Moves 25 0 (pos 0) precv w2)
        λ _ w3 r. s.trans w w1 w3 (s.write psend w) (s.trans w1 w2 w3 waited r)

  pub drain-Moves : (fuel : ℕ) → Moves (drain P fuel)
  unfolding drain
  drain-Moves zero w = tt
  drain-Moves (suc fuel) w =
      let w1 = (P.read w 3).1 in
      elim (Bool-cases (eqb_ℤ (readonce (P.read w 3).0) (pos 0))) [
        | inl e ↦ rw (e, drain) (s.read w 3)
        | inr e ↦
            rw (e, drain)
              (Yields-map (drain P fuel (P.flush w1)) _ _ (drain-Moves fuel (P.flush w1))
                λ _ w3 r. s.trans w w1 w3 (s.read w 3) (s.trans w1 (P.flush w1) w3 (s.flush w1) r))
      ]

  control_loop-Moves :
      (rounds : ℕ) (cmd : Command) (cmdstr : List ℕ) (value : ℤ)
      → Moves (control_loop P rounds cmd cmdstr value)
  unfolding control_loop
  control_loop-Moves zero cmd cmdstr value w = s.same w
  control_loop-Moves (suc rounds) cmd cmdstr value w =
      Yields-trans R (send_to_serial_and_recv P cmdstr empty_reply w) _ w s.trans
        (exchange-Moves cmdstr empty_reply w)
        λ reply w1. elim (Bool-cases (acknowledged cmd reply)) [
          | inl e ↦ rw e (s.same w1)
          | inr e ↦ rw e (control_loop-Moves rounds cmd cmdstr (negsuc 0) w1)
        ]

  pub send_serial_control_command-Moves :
      (fuel : ℕ) (cmd : Command) (battery : ℕ)
      → Moves (send_serial_control_command P fuel cmd battery)
  unfolding send_serial_control_command
  send_serial_control_command-Moves fuel cmd battery w =
      Yields-trans R (drain P fuel w) _ w s.trans (drain-Moves fuel w) λ _ w1.
        elim (Bool-cases (is_control cmd)) [
          | inl e ↦ rw e (control_loop-Moves 2 cmd (frame battery (code cmd)) (pos 0) w1)
          | inr e ↦ rw e (s.same w1)
        ]

  module _ (F : Float) where
    pub text_round-Moves :
        (cmd : Command) (battery : ℕ) (cmdstr : List ℕ) (i : ℕ) (reply : ℤ × List ℕ)
        (next : List ℕ → ℕ → F.T → M World F.T)
        → ((str : List ℕ) (j : ℕ) (v : F.T) → Moves (next str j v))
        → Moves (text_round F P cmd battery cmdstr i reply next)
    text_round-Moves cmd battery cmdstr i reply next go w =
        let value = decode_data F (get_or reply.1 1 0) (get_or reply.1 2 0) in
        elim (Bool-cases (accepted reply)) [
          | inr e ↦ rw e (go cmdstr (i + 1) (no_answer F) w)
          | inl e ↦ elim (Bool-cases (F.eq value (invalid F) && is_text_res cmd)) [
            | inl again ↦ rw (e, again) (go (frame battery 0x22) 1 value w)
            | inr last ↦ rw (e, last) (go cmdstr 3 value w)
          ]
        ]

    pub text_loop-Moves :
        (fuel : ℕ) (cmd : Command) (battery : ℕ) (cmdstr : List ℕ) (i : ℕ) (value : F.T)
        → Moves (text_loop F P fuel cmd battery cmdstr i value)
    unfolding text_loop
    text_loop-Moves zero cmd battery cmdstr i value w = tt
    text_loop-Moves (suc fuel) cmd battery cmdstr i value w = elim (Bool-cases (ltb i 2)) [
      | inr e ↦ rw e (s.same w)
      | inl e ↦ rw e (
          Yields-trans R (send_to_serial_and_recv P cmdstr empty_reply w)
            (λ reply. text_round F P cmd battery cmdstr i reply (text_loop F P fuel cmd battery)) w
            s.trans (exchange-Moves cmdstr empty_reply w)
            λ reply w1.
              text_round-Moves cmd battery cmdstr i reply (text_loop F P fuel cmd battery)
                (text_loop-Moves fuel cmd battery) w1)
    ]

    pub send_serial_text_command-Moves :
        (fuel : ℕ) (cmd : Command) (battery : ℕ)
        → Moves (send_serial_text_command F P fuel cmd battery)
    unfolding send_serial_text_command
    send_serial_text_command-Moves fuel cmd battery w =
        Yields-trans R (drain P fuel w) _ w s.trans (drain-Moves fuel w) λ _ w1.
          elim (Bool-cases (is_named cmd)) [
            | inl e ↦ rw e (
                text_loop-Moves fuel cmd battery (frame battery (code cmd)) 0 (F.of_int (pos 0)) w1)
            | inr e ↦ rw e (s.same w1)
          ]

    current_round-Moves :
        (reply : ℤ × List ℕ) (next : F.T → M World F.T)
        → ((v : F.T) → Moves (next v))
        → Moves (current_round F P reply next)
    current_round-Moves reply next go w = elim (Bool-cases (is_current reply)) [
      | inr e ↦ rw e (go (no_answer F) w)
      | inl e ↦ elim (Bool-cases (F.lt (F.of_int (pos 0)) (current_of F P reply))) [
        | inl e' ↦ rw (e, e') (s.same w)
        | inr e' ↦ rw (e, e') (go (current_of F P reply) w)
      ]
    ]

    current_loop-Moves : (rounds : ℕ) (value : F.T) → Moves (current_loop F P rounds value)
    unfolding current_loop
    current_loop-Moves zero value w = s.same w
    current_loop-Moves (suc rounds) value w =
        Yields-trans R (send_to_serial_and_recv P current_request empty_reply w)
          (λ reply. current_round F P reply (current_loop F P rounds)) w s.trans
          (exchange-Moves current_request empty_reply w)
          λ reply w1.
            current_round-Moves reply (current_loop F P rounds) (current_loop-Moves rounds) w1

    pub send_serial_text_current-Moves : (fuel : ℕ) → Moves (send_serial_text_current F P fuel)
    unfolding send_serial_text_current
    send_serial_text_current-Moves fuel w =
        Yields-trans R (drain P fuel w) _ w s.trans (drain-Moves fuel w)
          λ _ w1. current_loop-Moves 2 (F.of_int (pos 0)) w1
