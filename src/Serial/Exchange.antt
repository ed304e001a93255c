-- ===== src/Serial/Exchange.antt =====
-- `SendToSerialAndRecv` of batterySystem/s800serialDAO.c, and the loop before each command that empties
-- the receive buffer.
pub mod Bytes
pub mod Closed
pub mod Silent
use batterysystem.Common.{
  ℕ, zero, suc, ◌+◌, ◌-◌, ◌≤◌, ◌≡◌, Option, none, some, List, [], ◌∷◌, ◌++◌, ltb, leb, ◌==◌, ◌&&◌,
  length, take, drop, get_or, replicate, if◌then◌else◌, true, false, Bool,
}
use batterysystem.Common.Int.{ℤ, pos, negsuc, ◌+ℤ◌, ltb_ℤ, eqb_ℤ}
use batterysystem.Common.Runs.{Run, done, fault, spin, M}
use batterysystem.Serial.Port.{ReadResult, got, failed, Port}

-- What read returns.
abbrev pub readonce : ReadResult → ℤ
readonce (got bytes) = pos (length bytes)
readonce failed = negsuc 0

-- `precv[4]`, with the bytes stored from index `at` on; `none` is a write outside the array.
abbrev pub store : List ℕ → ℕ → List ℕ → Option (List ℕ)
store buf at bytes =
    if leb (at + length bytes) (length buf)
    then some (take at buf ++ bytes ++ drop (at + length bytes) buf)
    else none

-- read(fd, &precv[readlen], _): with nothing to store the pointer is not used.
abbrev pub receive : ReadResult → ℤ → List ℕ → Option (List ℕ)
receive failed readlen buf = some buf
receive (got []) readlen buf = some buf
receive (got (b ∷ bs)) (pos n) buf = store buf n (b ∷ bs)
receive (got (b ∷ bs)) (negsuc n) buf = none

-- `4 - readlen`, for a `readlen` that is at most 4
abbrev pub room : ℤ → ℕ
room (pos n) = 4 - n
room (negsuc n) = 5 + n

-- The four bytes of `readstr`, all 0.
abbrev pub empty_reply : List ℕ
empty_reply = replicate 4 0

module _ (P : Port) where
  open P use {World, read, write, flush, sleep}

  -- The body of the loop after the read: `next` goes on with the next round.
  abbrev pub recv_round :
      ReadResult → ℤ → List ℕ → (ℤ → List ℕ → M World (ℤ × List ℕ)) → M World (ℤ × List ℕ)
  recv_round res readlen precv next w =
      let readlen' = readlen +ℤ readonce res in
      let nonzero = if eqb_ℤ (readonce res) (pos 0) then false else true in
      elim (receive res readlen precv) [
        | none ↦ fault
        | some precv' ↦
            if nonzero && ltb_ℤ (pos 3) readlen'
            then done (readlen', precv') w
            else next readlen' precv' w
      ]

  -- `for (i = 0; i < 25; i++)`, with the rounds left: the bytes read so far and the buffer.
  unfoldable pub recv_loop : ℕ → ℕ → ℤ → List ℕ → M World (ℤ × List ℕ)
  recv_loop zero i readlen precv w = done (readlen, precv) w
  recv_loop (suc rounds) i readlen precv w =
      let w1 = if i == 0 then w else sleep 40000 w in
      let (res, w2) = read w1 (room readlen) in
      recv_round res readlen precv (recv_loop rounds (i + 1)) w2

  unfoldable pub send_to_serial_and_recv : List ℕ → List ℕ → M World (ℤ × List ℕ)
  send_to_serial_and_recv psend precv w =
      let w1 = write psend w in
      let w2 = if get_or psend 1 0 == 0x62 then sleep 6000000 w1 else sleep 40000 w1 in
      recv_loop 25 0 (pos 0) precv w2

  -- `while (read(fd, cmdstr, 3)) tcflush(fd, TCIOFLUSH)`, on fuel
  unfoldable pub drain : ℕ → M World (Unit {0})
  drain zero w = spin
  drain (suc fuel) w =
      let (res, w1) = read w 3 in
      elim (eqb_ℤ (readonce res) (pos 0)) [ true ↦ done tt w1 | false ↦ drain fuel (flush w1) ]
