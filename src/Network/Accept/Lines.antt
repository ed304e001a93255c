-- ===== src/Network/Accept/Lines.antt =====
-- The serial lines in the loop of `thread_network_tcp`.
use batterysystem.Common.{
  ℕ, zero, suc, ◌+◌, ◌≤◌, ◌<◌, ◌≡◌, refl, List, [], ◌∷◌, ◌++◌, true, false, ◌==◌, if◌then◌else◌,
  All, arith,
}
use batterysystem.Network.Accept.{
  Selected, select_failed, timed_out, readable, Sockets, is_set, Served, serve_client, serve_line,
  serve_round, serve,
}

-- select(2): just descriptors below `nfds` are looked at.
pub record IsSelect (S : Sockets) : Type 0 where
  pub below-select :
      (nfds time_out : ℕ) (w : S.World) (fds : List ℕ)
      → (S.select nfds time_out w).0 ≡ readable fds
      → All (λ fd. fd < nfds) fds

is_set-above :
    (fd nfds : ℕ) (fds : List ℕ) → All (λ x. x < nfds) fds → nfds ≤ fd → is_set fd fds ≡ false
is_set-above fd nfds [] h k = refl
is_set-above fd nfds (x ∷ fds) (p, h) k =
    let other : (fd == x) ≡ false = ground arith in rw (other, is_set-above fd nfds fds h k)

module _ (S : Sockets) where
  open S use {World}

  -- The loop for the clients of the socket alone.
  unfoldable pub socket_round : Selected → ℕ → World → (World → Served World) → Served World
  socket_round select_failed sockfd w next = record { started = []; exited = true; world = w }
  socket_round timed_out sockfd w next = next w
  socket_round (readable fds) sockfd w next =
      let client = serve_client S fds sockfd w in
      let rest = next client.world in
      if client.exited then client else record {
        started = client.started ++ rest.started;
        exited = rest.exited;
        world = rest.world;
      }

  unfoldable pub serve_socket : ℕ → ℕ → ℕ → World → Served World
  unfolding socket_round
  serve_socket zero time_out sockfd w = record { started = []; exited = false; world = w }
  serve_socket (suc turns) time_out sockfd w =
      let (selected, left, w1) = S.select (sockfd + 1) time_out w in
      socket_round selected sockfd w1 (serve_socket turns left sockfd)

  serve_line-above :
      (fd nfds : ℕ) (fds : List ℕ) (w : World)
      → All (λ x. x < nfds) fds
      → nfds ≤ fd
      → serve_line S fds fd w ≡ record { started = []; exited = false; world = w }
  unfolding serve_line
  serve_line-above fd nfds fds w h k = rw (is_set-above fd nfds fds h k)

  abbrev IsBelow : ℕ → Selected → Type 0
  IsBelow nfds selected = (fds : List ℕ) → selected ≡ readable fds → All (λ fd. fd < nfds) fds

  serve_round-above :
      (selected : Selected) (sockfd to_485 to_232 : ℕ) (w : World)
      (next next' : World → Served World)
      → IsBelow (sockfd + 1) selected
      → sockfd < to_485
      → sockfd < to_232
      → ((w1 : World) → next w1 ≡ next' w1)
      → serve_round S selected sockfd to_485 to_232 w next ≡ socket_round selected sockfd w next'
  unfolding serve_round socket_round
  serve_round-above select_failed sockfd to_485 to_232 w next next' low h k same = refl
  serve_round-above timed_out sockfd to_485 to_232 w next next' low h k same = same w
  serve_round-above (readable fds) sockfd to_485 to_232 w next next' low h k same =
      let client = serve_client S fds sockfd w in
      rw (
        serve_line-above to_485 (sockfd + 1) fds client.world (low fds refl) (omega arith),
        serve_line-above to_232 (sockfd + 1) fds client.world (low fds refl) (omega arith),
        same client.world,
      )

  -- Where the serial lines have higher descriptors than the socket, which is opened before them, select is
  -- not asked about them: the loop is the one for the clients of the socket alone, and no thread is
  -- ever started for a serial line.
  pub serve-eq-serve_socket :
      IsSelect S
      → (turns time_out sockfd to_485 to_232 : ℕ) (w : World) → sockfd < to_485
      → sockfd < to_232
      → serve S turns time_out sockfd to_485 to_232 w ≡ serve_socket turns time_out sockfd w
  unfolding serve serve_socket
  serve-eq-serve_socket l zero time_out sockfd to_485 to_232 w h k = refl
  serve-eq-serve_socket l (suc turns) time_out sockfd to_485 to_232 w h k =
      let (selected, left, w1) = S.select (sockfd + 1) time_out w in
      serve_round-above selected sockfd to_485 to_232 w1 (serve S turns left sockfd to_485 to_232)
        (serve_socket turns left sockfd) (l.below-select (sockfd + 1) time_out w) h k
        (λ w2. serve-eq-serve_socket l turns left sockfd to_485 to_232 w2 h k)
