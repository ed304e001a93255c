-- ===== src/Network/Accept.antt =====
-- The loop of `thread_network_tcp` of batterySystem/networkCommunication.c, which starts a thread of
-- `cmd_network` for each client. The calls of the operating system are a parameter.
pub mod Lines
pub mod Start
pub mod Waits
use batterysystem.Common.{
  ℕ, zero, suc, ◌+◌, List, [], ◌∷◌, ◌++◌, Bool, true, false, ◌==◌, ◌||◌, if◌then◌else◌,
}
use batterysystem.Common.Int.{ℤ, pos}

-- What select returns: -1, 0, or a number of descriptors, of which those that can be read matter.
pub data Selected : Type 0 where
  select_failed timed_out : Selected
  readable : List ℕ → Selected

pub record Sockets : Type 1 where
  pub World : Type 0
  -- select(nfds, _), with the socket and the two serial lines in the set of reads, and with what stands
  -- in its time-out, in microseconds, before and after
  pub select : ℕ → ℕ → World → Selected × ℕ × World
  -- accept(sockfd, _)
  pub accept : World → ℤ × World
  -- pthread_create(_, cmd_network, fd) == 0
  pub create : ℤ → World → Bool × World

-- FD_ISSET
abbrev pub is_set : ℕ → List ℕ → Bool
is_set fd [] = false
is_set fd (x ∷ fds) = fd == x || is_set fd fds

-- The descriptors of the threads started, the program's end with `exit`, and the world.
pub record Served (W : Type 0) : Type 0 where
  pub started : List ℤ
  pub exited : Bool
  pub world : W

module _ (S : Sockets) where
  open S use {World}

  -- a new client; the program exits if its thread does not start
  unfoldable pub serve_client : List ℕ → ℕ → World → Served World
  serve_client fds sockfd w =
      let (clientfd, w1) = S.accept w in
      let (ok, w2) = S.create clientfd w1 in
      if is_set sockfd fds
      then (if ok
          then record { started = clientfd ∷ []; exited = false; world = w2 }
          else record { started = []; exited = true; world = w2 })
      else record { started = []; exited = false; world = w }

  -- a serial line
  unfoldable pub serve_line : List ℕ → ℕ → World → Served World
  serve_line fds fd w =
      let (ok, w1) = S.create (pos fd) w in
      if is_set fd fds
      then record { started = (if ok then pos fd ∷ [] else []); exited = false; world = w1 }
      else record { started = []; exited = false; world = w }

  -- what follows select, where `next` is the next turn
  unfoldable pub serve_round : Selected → ℕ → ℕ → ℕ → World → (World → Served World) → Served World
  unfolding serve_client serve_line
  serve_round select_failed sockfd to_485 to_232 w next = record {
    started = [];
    exited = true;
    world = w;
  }
  serve_round timed_out sockfd to_485 to_232 w next = next w
  serve_round (readable fds) sockfd to_485 to_232 w next =
      let client = serve_client fds sockfd w in
      let line_485 = serve_line fds to_485 client.world in
      let line_232 = serve_line fds to_232 line_485.world in
      let rest = next line_232.world in
      if client.exited then client else record {
        started = client.started ++ (line_485.started ++ (line_232.started ++ rest.started));
        exited = rest.exited;
        world = rest.world;
      }

  -- `while (running)`, by the turns. `time_out` is not set again in the loop.
  unfoldable pub serve : ℕ → ℕ → ℕ → ℕ → ℕ → World → Served World
  unfolding serve_round
  serve zero time_out sockfd to_485 to_232 w = record { started = []; exited = false; world = w }
  serve (suc turns) time_out sockfd to_485 to_232 w =
      let (selected, left, w1) = S.select (sockfd + 1) time_out w in
      serve_round selected sockfd to_485 to_232 w1 (serve turns left sockfd to_485 to_232)
