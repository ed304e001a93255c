-- ===== src/Serial/Open/Line.antt =====
-- The line that `openSerial` sets up, read off its settings.
use batterysystem.Common.{
  ℕ, ◌+◌, ◌≤◌, ◌≡◌, ◌≢◌, ◌⊎◌, refl, inl, inr, ◌==◌, if◌then◌else◌, arith, Bool-cases, ◌∙◌,
}
use batterysystem.Serial.Open.{
  ParityMark, no_parity, odd, even, space, Speed, b0, b300, b600, b1200, b2400, b4800, b9600,
  b19200, b38400, b57600, b115200, Termios, newtio, set_bits, set_parity, set_speed, speed_of,
  set_stop, configure,
}

-- The character frame of a line, as termios(3) describes the flags.
abbrev pub data_bits : Termios → ℕ
data_bits t = 5 + (if t.csize_low then 1 else 0) + (if t.csize_high then 2 else 0)

abbrev pub stop_bits : Termios → ℕ
stop_bits t = if t.cstopb then 2 else 1

abbrev pub parity : Termios → ParityMark
parity t = if t.parenb then (if t.parodd then odd else even) else no_parity

-- Space parity is not a mode of termios; a line without parity is asked for in its place.
abbrev pub asked_parity : ParityMark → ParityMark
asked_parity no_parity = no_parity
asked_parity odd = odd
asked_parity even = even
asked_parity space = no_parity

-- bits per second
abbrev pub bauds : Speed → ℕ
bauds b0 = 0
bauds b300 = 300
bauds b600 = 600
bauds b1200 = 1200
bauds b2400 = 2400
bauds b4800 = 4800
bauds b9600 = 9600
bauds b19200 = 19200
bauds b38400 = 38400
bauds b57600 = 57600
bauds b115200 = 115200

speed_of-bauds : (s : Speed) → s ≢ b0 → speed_of (bauds s) ≡ s
unfolding speed_of
speed_of-bauds b0 h = absurd (h refl)
speed_of-bauds b300 h = refl
speed_of-bauds b600 h = refl
speed_of-bauds b1200 h = refl
speed_of-bauds b2400 h = refl
speed_of-bauds b4800 h = refl
speed_of-bauds b9600 h = refl
speed_of-bauds b19200 h = refl
speed_of-bauds b38400 h = refl
speed_of-bauds b57600 h = refl
speed_of-bauds b115200 h = refl

speed_of-other : (rate : ℕ) → ((s : Speed) → rate ≢ bauds s) → speed_of rate ≡ b9600
unfolding speed_of
speed_of-other rate h = ground (
  arith,
  h b300,
  h b600,
  h b1200,
  h b2400,
  h b4800,
  h b9600,
  h b19200,
  h b38400,
  h b57600,
  h b115200,
)

-- What each part of `openSerial` keeps of the parts before it.
set_stop-keeps :
    (stop : ℕ) (t : Termios)
    → (data_bits (set_stop stop t) ≡ data_bits t)
      × (parity (set_stop stop t) ≡ parity t)
      × ((set_stop stop t).ispeed ≡ t.ispeed)
      × ((set_stop stop t).ospeed ≡ t.ospeed)
unfolding set_stop
set_stop-keeps stop t = elim (Bool-cases (stop == 1)) [
  | inl e ↦ rw e (refl, refl, refl, refl)
  | inr e ↦ elim (Bool-cases (stop == 2)) [
    | inl e2 ↦ rw (e, e2) (refl, refl, refl, refl)
    | inr e2 ↦ rw (e, e2) (refl, refl, refl, refl)
  ]
]

set_parity-keeps : (py : ParityMark) (t : Termios) → data_bits (set_parity py t) ≡ data_bits t
unfolding set_parity
set_parity-keeps no_parity t = refl
set_parity-keeps odd t = refl
set_parity-keeps even t = refl
set_parity-keeps space t = refl

parity-set_parity : (py : ParityMark) (t : Termios) → parity (set_parity py t) ≡ asked_parity py
unfolding set_parity
parity-set_parity no_parity t = refl
parity-set_parity odd t = refl
parity-set_parity even t = refl
parity-set_parity space t = refl

five_to_eight : (n : ℕ) → 5 ≤ n → n ≤ 8 → (n ≡ 5) ⊎ ((n ≡ 6) ⊎ ((n ≡ 7) ⊎ (n ≡ 8)))
five_to_eight n h k = ground arith

data_bits-set_bits : (bits : ℕ) → 5 ≤ bits → bits ≤ 8 → data_bits (set_bits bits newtio) ≡ bits
unfolding set_bits
data_bits-set_bits bits h k = elim (five_to_eight bits h k) [
  | inl e ↦ rw e
  | inr (inl e) ↦ rw e
  | inr (inr (inl e)) ↦ rw e
  | inr (inr (inr e)) ↦ rw e
]

stop_bits-set_stop :
    (stop : ℕ) (t : Termios) → (stop ≡ 1) ⊎ (stop ≡ 2) → stop_bits (set_stop stop t) ≡ stop
unfolding set_stop
stop_bits-set_stop stop t h = elim h [ inl e ↦ rw e | inr e ↦ rw e ]

-- For five to eight data bits and one or two stop bits, the settings of `openSerial` are those of a line
-- with that many data and stop bits and the parity asked for, where space parity is none.
pub configure-line :
    (rate bits stop : ℕ) (py : ParityMark)
    → 5 ≤ bits
    → bits ≤ 8
    → (stop ≡ 1) ⊎ (stop ≡ 2)
    → let t = configure rate py bits stop in
      (data_bits t ≡ bits) × (stop_bits t ≡ stop) × (parity t ≡ asked_parity py)
unfolding configure
configure-line rate bits stop py h k s =
    let framed = set_bits bits newtio in
    let timed = set_speed (speed_of rate) (set_parity py framed) in
    let (bits_kept, parity_kept, _, _) = set_stop-keeps stop timed in
    (
      bits_kept ∙ set_parity-keeps py framed ∙ data_bits-set_bits bits h k,
      stop_bits-set_stop stop timed s,
      parity_kept ∙ parity-set_parity py framed,
    )

-- `openSerial` sets both speeds to the one that is asked for if that is one of the ten it knows.
pub configure-speed :
    (s : Speed) (bits stop : ℕ) (py : ParityMark)
    → s ≢ b0
    → let t = configure (bauds s) py bits stop in (t.ispeed ≡ s) × (t.ospeed ≡ s)
unfolding configure
configure-speed s bits stop py h =
    let e = speed_of-bauds s h in
    let timed = set_speed (speed_of (bauds s)) (set_parity py (set_bits bits newtio)) in
    let (_, _, i, o) = set_stop-keeps stop timed in (i ∙ e, o ∙ e)

-- For a rate that is none of these, such as the constant B9600 that the threads pass, `openSerial` sets
-- 9600 baud.
pub configure-speed_other :
    (rate bits stop : ℕ) (py : ParityMark)
    → ((s : Speed) → rate ≢ bauds s)
    → let t = configure rate py bits stop in (t.ispeed ≡ b9600) × (t.ospeed ≡ b9600)
unfolding configure
configure-speed_other rate bits stop py h =
    let e = speed_of-other rate h in
    let timed = set_speed (speed_of rate) (set_parity py (set_bits bits newtio)) in
    let (_, _, i, o) = set_stop-keeps stop timed in (i ∙ e, o ∙ e)
