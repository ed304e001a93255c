-- ===== src/Network/Accept/Start/Released.antt =====
-- What `thread_network_tcp` leaves open when it ends before its loop, and what its loop is.
use batterysystem.Common.{
  ℕ, ◌≤◌, ◌≡◌, ◌⊎◌, refl, ◌∙◌, inl, inr, [], Bool, true, false, ◌&&◌, Bool-cases, lt_or_ge, arith,
  ap,
}
use batterysystem.Common.Int.{ℤ, pos, negsuc}
use batterysystem.Serial.Open.{baud_9600, open_line, no_parity}
use batterysystem.Network.Accept.{Sockets}
use batterysystem.Network.Accept.Lines.{IsSelect, serve_socket, serve-eq-serve_socket}
use batterysystem.Network.Accept.Start.{
  Listener, Ended, in_loop, thread_exited, first_time_out, tcp_serv_port, max_connect,
  to_pc_232_serial_file, to_pc_485_serial_file, opened_485, opened_232, listening, bound,
  with_socket, thread_network_tcp,
}
use batterysystem.Network.Accept.Start.Descriptors.{
  IsDescribed, open_line-keeps, open_line-above, ℤ-cases,
}

module _ (S : Sockets) (L : Listener S) where
  open S use {World}

  -- The steps after the socket, each on the world that the one before it leaves.
  abbrev pub binding : ℕ → World → Bool × World
  binding sockfd w = L.bind_port sockfd tcp_serv_port (L.set_nonblocking sockfd w)

  abbrev pub listen_step : ℕ → World → Bool × World
  listen_step sockfd w = L.listen sockfd max_connect (binding sockfd w).1

  abbrev pub line_232 : ℕ → World → ℤ × World
  line_232 sockfd w =
      open_line L.lines to_pc_232_serial_file baud_9600 no_parity 8 1 (listen_step sockfd w).1

  abbrev pub line_485 : ℕ → World → ℤ × World
  line_485 sockfd w =
      open_line L.lines to_pc_485_serial_file baud_9600 no_parity 8 1 (line_232 sockfd w).1

  module _ (is_open : ℕ → World → Bool) where
    -- The ways in which the thread can stand once it listens: a serial line did not open and the socket
    -- is left open, or the loop runs for the socket alone.
    abbrev pub LineStanding : ℕ → ℕ → World → Ended World → Type 0
    LineStanding turns sockfd w e =
        (((n : ℕ) × (((line_232 sockfd w).0 ≡ negsuc n)
              ⊎ (((to_232 : ℕ) × ((line_232 sockfd w).0 ≡ pos to_232))
                  × ((line_485 sockfd w).0 ≡ negsuc n))))
          × (e.finish ≡ thread_exited)
          × (e.served.started ≡ [])
          × (is_open sockfd e.served.world ≡ true))
        ⊎ (((to_232 : ℕ) × ((line_232 sockfd w).0 ≡ pos to_232))
            × ((to_485 : ℕ) × ((line_485 sockfd w).0 ≡ pos to_485))
            × (e ≡ in_loop (serve_socket S turns first_time_out sockfd (line_485 sockfd w).1)))

    -- The ways in which the thread can stand, for the socket and the world after it.
    abbrev pub Standing : ℕ → ℕ → World → Ended World → Type 0
    Standing turns sockfd w e =
        ((((binding sockfd w).0 && (listen_step sockfd w).0) ≡ false)
          × (e.finish ≡ thread_exited)
          × (e.served.started ≡ [])
          × (is_open sockfd e.served.world ≡ false))
        ⊎ (((binding sockfd w).0 ≡ true)
            × ((listen_step sockfd w).0 ≡ true)
            × LineStanding turns sockfd w e)

module _ (S : Sockets) (L : Listener S) (is_open : ℕ → S.World → Bool) (l : IsDescribed S L is_open)
    (sockfd : ℕ) where
  open S use {World}

  listen_step-keeps :
      (w : World) (m : ℕ) → is_open m w ≡ true → is_open m (listen_step S L sockfd w).1 ≡ true
  listen_step-keeps w m h = l.listen-keeps sockfd max_connect (binding S L sockfd w).1 m (
      l.bind-keeps sockfd tcp_serv_port (L.set_nonblocking sockfd w) m
        (l.nonblocking-keeps sockfd w m h))

  line_232-keeps :
      (w : World) (m : ℕ) → is_open m w ≡ true → is_open m (line_232 S L sockfd w).1 ≡ true
  line_232-keeps w m h =
      open_line-keeps S L is_open l to_pc_232_serial_file baud_9600 no_parity 8 1
        (listen_step S L sockfd w).1 m (listen_step-keeps w m h)

  line_485-keeps :
      (w : World) (m : ℕ) → is_open m w ≡ true → is_open m (line_485 S L sockfd w).1 ≡ true
  line_485-keeps w m h =
      open_line-keeps S L is_open l to_pc_485_serial_file baud_9600 no_parity 8 1
        (line_232 S L sockfd w).1 m (line_232-keeps w m h)

  opened_232-LineStanding :
      IsSelect S
      → (turns : ℕ) (w : World) → ((m : ℕ) → m ≤ sockfd → is_open m w ≡ true)
      → LineStanding S L is_open turns sockfd w
          (opened_232 S L turns sockfd (line_232 S L sockfd w).0 (line_232 S L sockfd w).1)
  unfolding opened_232 opened_485
  opened_232-LineStanding select turns w packed =
      let kept = line_232-keeps w sockfd (packed sockfd (omega arith)) in
      elim (ℤ-cases (line_232 S L sockfd w).0) [
        | inr (n, e) ↦ rw e (inl ((n, inl refl), refl, refl, kept))
        | inl (to_232, e) ↦ elim (ℤ-cases (line_485 S L sockfd w).0) [
          | inr (n, e') ↦
              rw (e, e')
                (inl (
                  (n, inr ((to_232, refl), refl)),
                  refl,
                  refl,
                  line_485-keeps w sockfd (packed sockfd (omega arith)),
                ))
          | inl (to_485, e') ↦
              let above_232 =
                open_line-above S L is_open l to_pc_232_serial_file baud_9600 no_parity 8 1
                  (listen_step S L sockfd w).1 sockfd to_232
                  (λ m h. listen_step-keeps w m (packed m h)) e in
              let above_485 =
                open_line-above S L is_open l to_pc_485_serial_file baud_9600 no_parity 8 1
                  (line_232 S L sockfd w).1 sockfd to_485 (λ m h. line_232-keeps w m (packed m h))
                  e' in
              rw (e, e')
                (inr (
                  (to_232, refl),
                  (to_485, refl),
                  ap in_loop (
                      serve-eq-serve_socket S select turns first_time_out sockfd to_485 to_232
                        (line_485 S L sockfd w).1 above_485 above_232),
                ))
        ]
      ]

  with_socket-Standing :
      IsSelect S
      → (turns : ℕ) (w : World) → ((m : ℕ) → m ≤ sockfd → is_open m w ≡ true)
      → Standing S L is_open turns sockfd w (with_socket S L turns (pos sockfd) w)
  unfolding with_socket bound listening
  with_socket-Standing select turns w packed = elim (Bool-cases (binding S L sockfd w).0) [
    | inr e ↦ rw e (inl (refl, refl, refl, l.close-closes sockfd (binding S L sockfd w).1))
    | inl e ↦ elim (Bool-cases (listen_step S L sockfd w).0) [
      | inr e' ↦
          rw (e, e') (inl (refl, refl, refl, l.close-closes sockfd (listen_step S L sockfd w).1))
      | inl e' ↦
          let rest = opened_232-LineStanding select turns w packed in
          rw (e, e') (inr (refl, refl, rest))
    ]
  ]

module _ (S : Sockets) (L : Listener S) (is_open : ℕ → S.World → Bool)
    (l : IsDescribed S L is_open) where
  -- Where socket gives a descriptor, a new descriptor is the lowest free one and select looks just at
  -- those that it is asked about: if bind or listen fails, thread_network_tcp closes the socket and
  -- ends, with no thread started; if they succeed and a serial line does not open, it ends and leaves
  -- the socket open; else it runs the loop that serves the clients of the socket and never the serial
  -- lines, for any number of turns.
  pub thread_network_tcp-Standing :
      IsSelect S
      → (turns sockfd : ℕ) (w : S.World) → (L.socket w).0 ≡ pos sockfd
      → Standing S L is_open turns sockfd (L.socket w).1 (thread_network_tcp S L turns w)
  unfolding thread_network_tcp
  thread_network_tcp-Standing select turns sockfd w e = rw e (
      with_socket-Standing S L is_open l sockfd select turns (L.socket w).1 λ m h.
        elim (lt_or_ge m sockfd) [
          | inl below ↦ l.socket-lowest w sockfd m e below
          | inr above ↦
              let same : m ≡ sockfd = omega arith in
              ap (λ k. is_open k (L.socket w).1) same ∙ l.socket-open w sockfd e
        ])
