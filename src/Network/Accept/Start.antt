-- ===== src/Network/Accept/Start.antt =====
-- `thread_network_tcp` of batterySystem/networkCommunication.c as a whole: the socket and the serial
-- lines, then the loop. Messages are left out.
pub mod Descriptors
pub mod Released
use batterysystem.Common.{ℕ, List, [], Bool, true, false, if◌then◌else◌}
use batterysystem.Common.Int.{ℤ, pos, negsuc}
use batterysystem.Common.Text.{codes}
use batterysystem.Serial.Open.{baud_9600, Lines, open_line, no_parity}
use batterysystem.Network.Accept.{Sockets, Served, serve}

-- TCP_SERV_PORT
abbrev pub tcp_serv_port : ℕ
tcp_serv_port = 56011

-- MAX_CONNECT
abbrev pub max_connect : ℕ
max_connect = 10

-- TO_PC_232SERIAL_FILE
abbrev pub to_pc_232_serial_file : List ℕ
to_pc_232_serial_file = codes "/dev/ttyS1"

-- TO_pc_485SERIAL_FILE
abbrev pub to_pc_485_serial_file : List ℕ
to_pc_485_serial_file = codes "/dev/ttyS4"

-- `time_out`: five seconds
abbrev pub first_time_out : ℕ
first_time_out = 5000000

pub record Listener (S : Sockets) : Type 0 where
  -- socket(AF_INET, SOCK_STREAM, 0): -1 or a descriptor
  pub socket : S.World → ℤ × S.World
  -- fcntl(_, F_SETFL, O_NONBLOCK)
  pub set_nonblocking : ℕ → S.World → S.World
  -- bind to a port of INADDR_ANY, and listen: whether they succeed
  pub bind_port : ℕ → ℕ → S.World → Bool × S.World
  pub listen : ℕ → ℕ → S.World → Bool × S.World
  pub lines : Lines S.World
  pub close : ℕ → S.World → S.World

-- How the thread stands: in its loop, ended by pthread_exit, or the whole program ended by exit.
pub data Finish : Type 0 where
  running thread_exited program_exited : Finish

pub record Ended (W : Type 0) : Type 0 where
  pub finish : Finish
  pub served : Served W

module _ {W : Type 0} where
  -- an end before the loop
  abbrev pub ended : Finish → W → Ended W
  ended finish w = record {
    finish = finish;
    served = record { started = []; exited = false; world = w };
  }

  abbrev pub in_loop : Served W → Ended W
  in_loop s = record { finish = (if s.exited then program_exited else running); served = s }

module _ (S : Sockets) (L : Listener S) where
  open S use {World}

  -- The rest of the thread after each of the steps, which returned the argument before the world: here
  -- the second serial line. (The loop never ends by itself, so the three `close` after it are not
  -- reached.)
  unfoldable pub opened_485 : ℕ → ℕ → ℕ → ℤ → World → Ended World
  opened_485 turns sockfd to_232 (pos to_485) w =
      in_loop (serve S turns first_time_out sockfd to_485 to_232 w)
  opened_485 turns sockfd to_232 (negsuc n) w = ended thread_exited w

  unfoldable pub opened_232 : ℕ → ℕ → ℤ → World → Ended World
  unfolding opened_485
  opened_232 turns sockfd (negsuc n) w = ended thread_exited w
  opened_232 turns sockfd (pos to_232) w =
      let (to_485, w1) = open_line L.lines to_pc_485_serial_file baud_9600 no_parity 8 1 w in
      opened_485 turns sockfd to_232 to_485 w1

  unfoldable pub listening : ℕ → ℕ → Bool → World → Ended World
  unfolding opened_232
  listening turns sockfd false w = ended thread_exited (L.close sockfd w)
  listening turns sockfd true w =
      let (to_232, w1) = open_line L.lines to_pc_232_serial_file baud_9600 no_parity 8 1 w in
      opened_232 turns sockfd to_232 w1

  unfoldable pub bound : ℕ → ℕ → Bool → World → Ended World
  unfolding listening
  bound turns sockfd false w = ended thread_exited (L.close sockfd w)
  bound turns sockfd true w =
      let (ok, w1) = L.listen sockfd max_connect w in listening turns sockfd ok w1

  unfoldable pub with_socket : ℕ → ℤ → World → Ended World
  unfolding bound
  with_socket turns (negsuc n) w = ended program_exited w
  with_socket turns (pos sockfd) w =
      let (ok, w1) = L.bind_port sockfd tcp_serv_port (L.set_nonblocking sockfd w) in
      bound turns sockfd ok w1

  -- The thread for a number of turns of its loop.
  unfoldable pub thread_network_tcp : ℕ → World → Ended World
  unfolding with_socket
  thread_network_tcp turns w = let (sockfd, w1) = L.socket w in with_socket turns sockfd w1
