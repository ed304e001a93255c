-- ===== src/Serial/Exchange/Bytes.antt =====
-- On an open port the exchange gathers the bytes that arrive, in order and at most four of them.
use mathlib.Core.List.{append-nil, append_assoc}
use batterysystem.Common.{
  ℕ, zero, suc, ◌+◌, ◌-◌, ◌≤◌, ◌<◌, ◌≡◌, ◌≢◌, refl, ap, ◌∙◌, some, List, [], ◌∷◌, ◌++◌, leb, ◌==◌,
  length, take, drop, get_or, replicate, if◌then◌else◌, arith, length-append, length-replicate,
  Bool-cases, inl, inr,
}
use batterysystem.Common.Int.{ℤ, pos}
use batterysystem.Common.Runs.{Run, done}
use batterysystem.Serial.Port.{ReadResult, got, failed, size, Port, IsBounded, IsOpen}
use batterysystem.Serial.Exchange.{
  store, receive, empty_reply, recv_round, recv_loop, send_to_serial_and_recv,
}

abbrev zeros : ℕ → List ℕ
zeros n = replicate n 0

-- The bytes received so far, at the start of the four bytes of the buffer.
abbrev pub padded : List ℕ → List ℕ
padded acc = acc ++ zeros (4 - length acc)

take-append : (xs ys : List ℕ) → take (length xs) (xs ++ ys) ≡ xs
take-append [] ys = refl
take-append (x ∷ xs) ys = ap (◌∷◌ x) (take-append xs ys)

drop-append : (xs ys : List ℕ) (n k : ℕ) → n ≡ length xs + k → drop n (xs ++ ys) ≡ drop k ys
drop-append [] ys n k e = let e' : n ≡ k = omega arith in rw e'
drop-append (x ∷ xs) ys zero k e = absurd (omega arith)
drop-append (x ∷ xs) ys (suc n) k e = drop-append xs ys n k (omega arith)

drop-zeros : (k n : ℕ) → drop k (zeros n) ≡ zeros (n - k)
drop-zeros zero n = let e : n ≡ n - 0 = omega arith in ap zeros e
drop-zeros (suc k) zero = let e : 0 ≡ 0 - suc k = omega arith in ap zeros e
drop-zeros (suc k) (suc n) =
    let e : n - k ≡ suc n - suc k = omega arith in drop-zeros k n ∙ ap zeros e

length-zeros : (n : ℕ) → length (zeros n) ≡ n
length-zeros n = length-replicate n _

length-padded : (acc : List ℕ) → length acc ≤ 4 → length (padded acc) ≡ 4
length-padded acc h =
    omega (arith, length-append acc (zeros (4 - length acc)), length-zeros (4 - length acc))

store-padded :
    (acc bytes : List ℕ)
    → length acc + length bytes ≤ 4
    → store (padded acc) (length acc) bytes ≡ some (padded (acc ++ bytes))
store-padded acc bytes h =
    let rest = zeros (4 - length acc) in
    let tail : drop (length acc + length bytes) (acc ++ rest) ≡ zeros (4 - length (acc ++ bytes)) =
      drop-append acc rest _ (length bytes) refl
      ∙ drop-zeros (length bytes) (4 - length acc)
      ∙ ap zeros (omega (arith, length-append acc bytes)) in
    ground (
      arith,
      length-padded acc (omega arith),
      take-append acc rest,
      tail,
      append_assoc acc bytes (zeros (4 - length (acc ++ bytes))),
    )

receive-padded :
    (acc bytes : List ℕ)
    → length acc + length bytes ≤ 4
    → receive (got bytes) (pos (length acc)) (padded acc) ≡ some (padded (acc ++ bytes))
receive-padded acc [] h = rw append-nil
receive-padded acc (b ∷ bs) h = store-padded acc (b ∷ bs) h

-- The bytes that a read result holds.
abbrev pub bytes_of : ReadResult → List ℕ
bytes_of (got bytes) = bytes
bytes_of failed = []

module _ (P : Port) where
  open P use {World, read, write, sleep}

  abbrev pub gather_round :
      ReadResult → List ℕ → (List ℕ → World → List ℕ × World) → World → List ℕ × World
  gather_round res acc next w =
      let acc' = acc ++ bytes_of res in if leb 4 (length acc') then (acc', w) else next acc' w

  -- What the exchange is for: at most so many reads, with a pause of 40 ms before each but the first,
  -- until four bytes are there; the bytes in the order in which they came.
  pub gather : ℕ → ℕ → List ℕ → World → List ℕ × World
  gather zero i acc w = (acc, w)
  gather (suc rounds) i acc w =
      let w1 = if i == 0 then w else sleep 40000 w in
      let (res, w2) = read w1 (4 - length acc) in gather_round res acc (gather rounds (i + 1)) w2

  -- The number of bytes gathered, at the start of the buffer.
  abbrev pub replied : List ℕ × World → Run World (ℤ × List ℕ)
  replied (out, w) = done (pos (length out), padded out) w

  abbrev Gathers : Run World (ℤ × List ℕ) → List ℕ × World → Type 0
  Gathers run g = (run ≡ replied g) × (length g.0 ≤ 4)

  recv_round-Gathers :
      (res : ReadResult) (acc : List ℕ) (w : World)
      → res ≢ failed
      → length acc < 4
      → size res ≤ 4 - length acc
      → (next : ℤ → List ℕ → World → Run World (ℤ × List ℕ))
      → (next' : List ℕ → World → List ℕ × World)
      → ((acc' : List ℕ)
          → length acc' < 4
          → Gathers (next (pos (length acc')) (padded acc') w) (next' acc' w))
      → Gathers
          (recv_round P res (pos (length acc)) (padded acc) next w)
          (gather_round res acc next' w)
  recv_round-Gathers failed acc w ne h s next next' ih = absurd (ne refl)
  recv_round-Gathers (got bytes) acc w ne h s next next' ih =
      let acc' = acc ++ bytes in
      ground (arith, receive-padded acc bytes, length-append acc bytes, ih acc')

  module _ (b : IsBounded P) (o : IsOpen P) where
    recv_loop-Gathers :
        (rounds i : ℕ) (acc : List ℕ) (w : World)
        → length acc < 4
        → Gathers (recv_loop P rounds i (pos (length acc)) (padded acc) w) (gather rounds i acc w)
    unfolding recv_loop gather
    recv_loop-Gathers zero i acc w h = (refl, omega arith)
    recv_loop-Gathers (suc rounds) i acc w h =
        let w1 = if i == 0 then w else sleep 40000 w in
        let (res, w2) = read w1 (4 - length acc) in
        recv_round-Gathers res acc w2 (o.read-ne-failed w1 _) h (b.size-read w1 _)
          (recv_loop P rounds (i + 1)) (gather rounds (i + 1))
          (λ acc' h'. recv_loop-Gathers rounds (i + 1) acc' w2 h')

    -- On an open port `SendToSerialAndRecv` neither faults nor runs on: it writes the request, waits
    -- (6 s for an internal resistance, else 40 ms), and returns the number of bytes gathered in at
    -- most 25 reads, at most 4, which stand in order at the start of the buffer, before zeros.
    pub send_to_serial_and_recv-eq-gather :
        (psend : List ℕ) (w : World)
        → let pause : ℕ = if get_or psend 1 0 == 0x62 then 6000000 else 40000 in
          let g = gather 25 0 [] (sleep pause (write psend w)) in
          (send_to_serial_and_recv P psend empty_reply w ≡ replied g) × (length g.0 ≤ 4)
    unfolding send_to_serial_and_recv
    send_to_serial_and_recv-eq-gather psend w =
        let w1 = write psend w in
        elim (Bool-cases (get_or psend 1 0 == 0x62)) [
          | inl e ↦ rw e (recv_loop-Gathers 25 0 [] (sleep 6000000 w1) (omega arith))
          | inr e ↦ rw e (recv_loop-Gathers 25 0 [] (sleep 40000 w1) (omega arith))
        ]
