-- ===== src/Tests/Network.antt =====
-- `cmd_network` on requests of a client.
use mathlib.Core.Path.{subst}
use batterysystem.Network.Accept.{
  Sockets, timed_out, readable, serve, serve_round, serve_client, serve_line,
}
use batterysystem.Network.Accept.Waits.{IsLinuxSelect, serve_each, serve_polls}
use batterysystem.Network.Accept.Lines.{IsSelect}
use batterysystem.Network.Accept.Start.{
  Listener, thread_network_tcp, with_socket, bound, listening, opened_232, opened_485,
}
use batterysystem.Network.Accept.Start.Descriptors.{IsDescribed}
use batterysystem.Network.Accept.Start.Released.{Standing, thread_network_tcp-Standing}
use batterysystem.Serial.Open.{open_line, open_serial, set_line, configure}
use batterysystem.Common.{
  ◌==◌, if◌then◌else◌, Bool, ltb, ap, All, suc, zero, ◌+◌, true, ℕ, ◌≡◌, refl, List, [], ◌∷◌, ◌++◌,
  none, some, map, arith, length, get_or, ◌<◌, ◌≤◌, ◌↔◌, false,
}
use batterysystem.Common.Int.{pos, pos_part}
use batterysystem.Common.Text.{codes}
use batterysystem.Float.Fixed.{fixed}
use batterysystem.Pack.{SingleBattery}
use batterysystem.Network.{
  Shared, Reply, answer, cmd_network, closed, magic, is_refused, current, cell, message,
  format_error, answer_cell, dispatch, waiting, Status,
}
use batterysystem.Network.Format.{answer_two_bytes, answer-eq-none}
use batterysystem.Network.Session.{session}

abbrev cell_of : ℕ → SingleBattery fixed
cell_of n = record { voltage = pos n; temperature = pos 0; resistance = pos 0; capacity = pos 0 }

-- Two cells, and a `battery_total` of its own.
abbrev globals : ℕ → Shared fixed
globals total = record {
  battery_total = total;
  group_battery = record {
    date_time = 0;
    total_voltage = pos 0;
    group_current = pos 7;
    single_bat = cell_of 11 ∷ cell_of 12 ∷ [];
  };
}

abbrev cell_request : ℕ → List ℕ
cell_request n = magic ++ 2 ∷ n ∷ []

replies :
    cmd_network
      ((globals 2, cell_request 2) ∷ (globals 2, codes "hello") ∷ (globals 2, magic ++ 3 ∷ []) ∷ [])
    ≡ (cell (cell_of 12) ∷ message format_error ∷ current (pos 7) ∷ [], waiting)
unfolding cmd_network answer is_refused dispatch answer_cell
replies = refl

-- A request for the first cell, and one for the second that arrives with it.
answer_two_bytes_example :
    answer (globals 2) (magic ++ ((2 ∷ 1 ∷ []) ++ cell_request 2))
    ≡ answer (globals 2) (codes "nobody" ++ 2 ∷ 1 ∷ [])
answer_two_bytes_example =
    answer_two_bytes (globals 2) (codes "nobody" ++ 2 ∷ 1 ∷ []) (cell_request 2) refl

answer-eq-none_example : (answer (globals 3) (cell_request 3) ≡ none) ↔ (
    (is_refused (cell_request 3) ≡ false)
    × (get_or (cell_request 3) 6 0 ≡ 2)
    × (length (globals 3).group_battery.single_bat < get_or (cell_request 3) 7 0)
    × (get_or (cell_request 3) 7 0 ≤ 3))
answer-eq-none_example = answer-eq-none (globals 3) (cell_request 3)

session_example :
    (replies' : List (Reply fixed)) × (cmd_network
        (((globals 2, cell_request 2) ∷ (globals 2, codes "hello") ∷ []) ++ (globals 2, []) ∷ [])
      ≡ (replies', closed))
    × (map some replies'
        ≡ map
            (λ (s, request). answer s request)
            ((globals 2, cell_request 2) ∷ (globals 2, codes "hello") ∷ []))
unfolding batterysystem.Network.Session.IsServed
session_example =
    session ((globals 2, cell_request 2) ∷ (globals 2, codes "hello") ∷ []) [] (globals 2)
      ((omega arith, omega arith), ((omega arith, omega arith), tt))

-- Select reports the highest descriptor that it looks at.
abbrev highest : ℕ → List ℕ
highest zero = []
highest (suc n) = n ∷ []

abbrev sockets : Sockets
sockets = record {
  World = ℕ;
  select = λ nfds time_out w. (readable (highest nfds), time_out, w);
  accept = λ w. (pos w, w + 1);
  create = λ fd w. (true, w);
}

highest-below : (nfds : ℕ) → All (λ fd. fd < nfds) (highest nfds)
highest-below zero = tt
highest-below (suc n) = (omega arith, tt)

highest-readable :
    (nfds : ℕ) (fds : List ℕ) → readable (highest nfds) ≡ readable fds → All (λ fd. fd < nfds) fds
highest-readable nfds fds e =
    let same : highest nfds ≡ fds = cc in subst (All (λ fd. fd < nfds)) same (highest-below nfds)

sockets-IsSelect : IsSelect sockets
sockets-IsSelect = record { below-select = λ nfds time_out w fds e. highest-readable nfds fds e }

-- A client that comes after the first five seconds.
abbrev late : Sockets
late = record {
  World = ℕ;
  select = λ nfds time_out w. (if w == 0 then timed_out else readable (3 ∷ []), 0, w + 1);
  accept = λ w. (pos w, w);
  create = λ fd w. (true, w);
}

late-IsLinuxSelect : IsLinuxSelect late
late-IsLinuxSelect = record {
  left-le = λ nfds time_out w. omega arith;
  left-timed_out = λ nfds time_out w e. refl;
}

serve_polls_example : serve late 3 5000000 3 4 5 0 ≡ serve_each late 0 2 3 4 5 1
serve_polls_example = serve_polls late late-IsLinuxSelect 2 5000000 3 4 5 0 refl

two_clients : (serve sockets 2 5000000 3 4 5 10).started ≡ pos 10 ∷ pos 11 ∷ []
unfolding serve serve_round serve_client serve_line
two_clients = refl

-- The world is the number of descriptors, all of which are open.
abbrev listener : Listener sockets
listener = record {
  socket = λ w. (pos w, w + 1);
  set_nonblocking = λ fd w. w;
  bind_port = λ fd port w. (true, w);
  listen = λ fd backlog w. (true, w);
  lines = record { open_device = λ path w. (pos w, w + 1); set_attributes = λ fd t w. w };
  close = λ fd w. fd;
}

abbrev is_low : ℕ → ℕ → Bool
is_low m w = ltb m w

listener-IsDescribed : IsDescribed sockets listener is_low
listener-IsDescribed = record {
  socket-open = λ w fd e. let same : w ≡ fd = ap pos_part e in ground arith;
  socket-lowest = λ w fd m e h. let same : w ≡ fd = ap pos_part e in ground arith;
  device-free = λ path w fd e. let same : w ≡ fd = ap pos_part e in ground arith;
  device-keeps = λ path w m h. ground arith;
  attributes-keep = λ fd t w m h. h;
  nonblocking-keeps = λ fd w m h. h;
  bind-keeps = λ fd port w m h. h;
  listen-keeps = λ fd backlog w m h. h;
  close-closes = λ fd w. ground arith;
}

thread_network_tcp-Standing_example :
    Standing sockets listener is_low 2 3 4 (thread_network_tcp sockets listener 2 3)
thread_network_tcp-Standing_example =
    thread_network_tcp-Standing sockets listener is_low listener-IsDescribed sockets-IsSelect 2 3 3
      refl

-- After the socket and the two lines, the first client gets 6.
listens : (thread_network_tcp sockets listener 2 3).served.started ≡ pos 6 ∷ pos 7 ∷ []
unfolding thread_network_tcp with_socket bound listening opened_232 opened_485 serve serve_round
    serve_client serve_line open_line open_serial set_line configure
listens = refl
