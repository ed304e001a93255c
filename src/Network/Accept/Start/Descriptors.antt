-- ===== src/Network/Accept/Start/Descriptors.antt =====
-- The descriptors that `thread_network_tcp` opens and closes.
use batterysystem.Common.{
  ℕ, ◌<◌, ◌≤◌, ◌≡◌, ◌≢◌, ◌⊎◌, refl, sym, ◌∙◌, inl, inr, List, Bool, true, false, Bool-cases,
  lt_or_ge,
}
use batterysystem.Common.Int.{ℤ, pos, negsuc, ltb_ℤ}
use batterysystem.Serial.Open.{Termios, ParityMark, open_serial, set_line, open_line}
use batterysystem.Network.Accept.{Sockets}
use batterysystem.Network.Accept.Start.{Listener}

-- POSIX descriptors: a new one is the lowest that is free, and just close closes one.
pub record IsDescribed (S : Sockets) (L : Listener S) (is_open : ℕ → S.World → Bool) : Type 0 where
  pub socket-open :
      (w : S.World) (fd : ℕ) → (L.socket w).0 ≡ pos fd → is_open fd (L.socket w).1 ≡ true
  pub socket-lowest :
      (w : S.World) (fd m : ℕ) → (L.socket w).0 ≡ pos fd → m < fd → is_open m (L.socket w).1 ≡ true
  pub device-free :
      (path : List ℕ) (w : S.World) (fd : ℕ)
      → (L.lines.open_device path w).0 ≡ pos fd
      → is_open fd w ≡ false
  pub device-keeps :
      (path : List ℕ) (w : S.World) (m : ℕ)
      → is_open m w ≡ true
      → is_open m (L.lines.open_device path w).1 ≡ true
  pub attributes-keep :
      (fd : ℤ) (t : Termios) (w : S.World) (m : ℕ)
      → is_open m w ≡ true
      → is_open m (L.lines.set_attributes fd t w) ≡ true
  pub nonblocking-keeps :
      (fd : ℕ) (w : S.World) (m : ℕ)
      → is_open m w ≡ true
      → is_open m (L.set_nonblocking fd w) ≡ true
  pub bind-keeps :
      (fd port : ℕ) (w : S.World) (m : ℕ)
      → is_open m w ≡ true
      → is_open m (L.bind_port fd port w).1 ≡ true
  pub listen-keeps :
      (fd backlog : ℕ) (w : S.World) (m : ℕ)
      → is_open m w ≡ true
      → is_open m (L.listen fd backlog w).1 ≡ true
  pub close-closes : (fd : ℕ) (w : S.World) → is_open fd (L.close fd w) ≡ false

negsuc-ne-pos : {m n : ℕ} → negsuc m ≢ pos n
negsuc-ne-pos e = cc

true-ne-false : true ≢ false
true-ne-false e = cc

pub ℤ-cases : (i : ℤ) → ((n : ℕ) × (i ≡ pos n)) ⊎ ((n : ℕ) × (i ≡ negsuc n))
ℤ-cases (pos n) = inl (n, refl)
ℤ-cases (negsuc n) = inr (n, refl)

module _ (S : Sockets) (L : Listener S) (is_open : ℕ → S.World → Bool) (l : IsDescribed S L is_open)
    (path : List ℕ) (baudrate : ℕ) (py : ParityMark) (bits stop : ℕ) where
  pub open_line-keeps :
      (w : S.World) (m : ℕ)
      → is_open m w ≡ true
      → is_open m (open_line L.lines path baudrate py bits stop w).1 ≡ true
  unfolding open_line open_serial set_line
  open_line-keeps w m h = elim (Bool-cases (ltb_ℤ (pos 0) (L.lines.open_device path w).0)) [
    | inl e ↦ rw e (l.attributes-keep _ _ _ m (l.device-keeps path w m h))
    | inr e ↦ rw e (l.device-keeps path w m h)
  ]

  open_line-opened :
      (w : S.World)
      → ltb_ℤ (pos 0) (L.lines.open_device path w).0 ≡ true
      → (open_line L.lines path baudrate py bits stop w).0 ≡ (L.lines.open_device path w).0
  unfolding open_line open_serial set_line
  open_line-opened w e = rw e refl

  open_line-failed :
      (w : S.World)
      → ltb_ℤ (pos 0) (L.lines.open_device path w).0 ≡ false
      → (open_line L.lines path baudrate py bits stop w).0 ≡ negsuc 0
  unfolding open_line open_serial set_line
  open_line-failed w e = rw e refl

  open_line-free :
      (w : S.World) (fd : ℕ)
      → (open_line L.lines path baudrate py bits stop w).0 ≡ pos fd
      → is_open fd w ≡ false
  open_line-free w fd h = elim (Bool-cases (ltb_ℤ (pos 0) (L.lines.open_device path w).0)) [
    | inl e ↦ l.device-free path w fd (sym (open_line-opened w e) ∙ h)
    | inr e ↦ elim (negsuc-ne-pos (sym (open_line-failed w e) ∙ h)) [ ]
  ]

  -- Where the descriptors up to `sockfd` are open, a line gets a higher one.
  pub open_line-above :
      (w : S.World) (sockfd fd : ℕ)
      → ((m : ℕ) → m ≤ sockfd → is_open m w ≡ true)
      → (open_line L.lines path baudrate py bits stop w).0 ≡ pos fd
      → sockfd < fd
  open_line-above w sockfd fd packed h = elim (lt_or_ge sockfd fd) [
    | inl above ↦ above
    | inr below ↦ elim (true-ne-false (sym (packed fd below) ∙ open_line-free w fd h)) [ ]
  ]
