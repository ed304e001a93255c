-- ===== src/Serial/Command.antt =====
-- `sendSerialTextCommand`, `sendSerialControlCommand` and `sendSerialTextCurrent` of
-- batterySystem/s800serialDAO.c: a request, the check of the reply, and when it is sent again.
pub mod Retry
pub mod Polling
pub mod Outcome
pub mod Silent
use batterysystem.Common.{
  ℕ, zero, suc, ◌+◌, ◌*◌, ◌%◌, List, [], ◌∷◌, Bool, true, false, ltb, ◌==◌, ◌&&◌, get_or,
  if◌then◌else◌,
}
use batterysystem.Common.Int.{ℤ, pos, negsuc, eqb_ℤ}
use batterysystem.Common.Runs.{done, spin, M, ◌>>=◌, ◌>>◌, pure}
use batterysystem.Float.{Float}
use batterysystem.Serial.Port.{
  Port, Command, charge_discharge_off, charge_discharge_open, text_res, other, code,
}
use batterysystem.Serial.Checksum.{gen_checksum}
use batterysystem.Serial.Decode.{decode_data, invalid}
use batterysystem.Serial.Exchange.{empty_reply, send_to_serial_and_recv, drain}

-- `cmdstr[0] = battery; cmdstr[1] = cmd; cmdstr[2] = genChecksum(cmdstr, 2)`, as unsigned chars
unfoldable pub frame : ℕ → ℕ → List ℕ
frame battery cmd =
    let b = battery % 256 in let c = cmd % 256 in b ∷ c ∷ gen_checksum (b ∷ c ∷ []) 2 ∷ []

-- `readlen == 4 && genChecksum(readstr, readlen - 1) == readstr[readlen - 1]`
unfoldable pub accepted : ℤ × List ℕ → Bool
accepted (readlen, readstr) = eqb_ℤ readlen (pos 4) && gen_checksum readstr 3 == get_or readstr 3 0

-- the further test of a control command's reply
unfoldable pub acknowledged : Command → ℤ × List ℕ → Bool
acknowledged cmd (readlen, readstr) =
    accepted (readlen, readstr) && get_or readstr 1 0 == code cmd && get_or readstr 2 0 == 0

abbrev pub is_text_res : Command → Bool
is_text_res text_res = true
is_text_res _ = false

-- the first `switch`: every named command is sent
abbrev pub is_named : Command → Bool
is_named (other n) = false
is_named _ = true

-- the `switch` of a control command
abbrev pub is_control : Command → Bool
is_control charge_discharge_open = true
is_control charge_discharge_off = true
is_control _ = false

-- `return -1` as a float
abbrev pub no_answer : (F : Float) → F.T
no_answer F = F.of_int (negsuc 0)

-- `resValue = data; resValue *= 0.00126953125`
abbrev pub scale_current : (F : Float) → ℕ → F.T
scale_current F n =
    F.narrow (F.double_mul (F.widen (F.of_int (pos n))) (F.double_literal 126953125 100000000000))

abbrev pub current_request : List ℕ
current_request = 0xaa ∷ 0xbb ∷ 0xcc ∷ []

-- `readlen == 4 && readstr[0] == 0xaa && readstr[3] == 0xcc`
abbrev pub is_current : ℤ × List ℕ → Bool
is_current (readlen, readstr) =
    eqb_ℤ readlen (pos 4) && get_or readstr 0 0 == 0xaa && get_or readstr 3 0 == 0xcc

module _ (P : Port) where
  open P use {World}

  -- `for (i = 0; i < 2; i++)` with its `break`, by the rounds left
  unfoldable pub control_loop : ℕ → Command → List ℕ → ℤ → M World ℤ
  control_loop zero cmd cmdstr res_value = pure res_value
  control_loop (suc rounds) cmd cmdstr res_value = do
    reply ← send_to_serial_and_recv P cmdstr empty_reply
    if acknowledged cmd reply then pure (pos 0) else control_loop rounds cmd cmdstr (negsuc 0)

  unfoldable pub send_serial_control_command : ℕ → Command → ℕ → M World ℤ
  send_serial_control_command fuel cmd battery = do
    drain P fuel
    if is_control cmd
        then control_loop 2 cmd (frame battery (code cmd)) (pos 0)
        else pure (negsuc 0)

module _ (F : Float) (P : Port) where
  open P use {World}

  -- What the reply of a round leads to: `next` is the loop with a request, `i` after `i++`, and
  -- `resValue`.
  abbrev pub text_round :
      Command → ℕ → List ℕ → ℕ → ℤ × List ℕ → (List ℕ → ℕ → F.T → M World F.T) → M World F.T
  text_round cmd battery cmdstr i reply next =
      let value = decode_data F (get_or reply.1 1 0) (get_or reply.1 2 0) in
      if accepted reply
      then (if F.eq value (invalid F) && is_text_res cmd
          then next (frame battery 0x22) (0 + 1) value
          else next cmdstr (2 + 1) value)
      else next cmdstr (i + 1) (no_answer F)

  -- `for (i = 0; i < 2; i++)`, on fuel, since the body sets `i` back
  unfoldable pub text_loop : ℕ → Command → ℕ → List ℕ → ℕ → F.T → M World F.T
  text_loop zero cmd battery cmdstr i res_value w = spin
  text_loop (suc fuel) cmd battery cmdstr i res_value w =
      let round =
        (send_to_serial_and_recv P cmdstr empty_reply >>= λ reply.
        text_round cmd battery cmdstr i reply (text_loop fuel cmd battery))
          w in
      if ltb i 2 then round else done res_value w

  -- The first value of `resValue`, which C leaves open, is never read.
  unfoldable pub send_serial_text_command : ℕ → Command → ℕ → M World F.T
  send_serial_text_command fuel cmd battery = do
    drain P fuel
    if is_named cmd
        then text_loop fuel cmd battery (frame battery (code cmd)) 0 (F.of_int (pos 0))
        else pure (no_answer F)

  -- `hdata * 256 + ldata`, scaled
  abbrev pub current_of : ℤ × List ℕ → F.T
  current_of (readlen, readstr) = scale_current F (get_or readstr 1 0 * 256 + get_or readstr 2 0)

  -- What the reply of a round leads to; `i = 2` ends the loop.
  abbrev pub current_round : ℤ × List ℕ → (F.T → M World F.T) → M World F.T
  current_round reply next =
      if is_current reply
      then (if F.lt (F.of_int (pos 0)) (current_of reply)
          then pure (current_of reply)
          else next (current_of reply))
      else next (no_answer F)

  -- the same kind of loop, by the rounds left
  unfoldable pub current_loop : ℕ → F.T → M World F.T
  current_loop zero res_value = pure res_value
  current_loop (suc rounds) res_value = do
    reply ← send_to_serial_and_recv P current_request empty_reply
    current_round reply (current_loop rounds)

  unfoldable pub send_serial_text_current : ℕ → M World F.T
  send_serial_text_current fuel = do drain P fuel; current_loop 2 (F.of_int (pos 0))
