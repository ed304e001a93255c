-- ===== src/Tests/Monitor.antt =====
-- The program's start with a server, and without one.
use batterysystem.Common.{◌≡◌, refl, inl, [], ◌∷◌, some, Bool, true, false}
use batterysystem.Common.Runs.{Returns}
use batterysystem.Float.Fixed.{fixed}
use batterysystem.Database.{Client}
use batterysystem.Database.Total.{IsSelecting}
use batterysystem.Database.Recorded.{IsConnected}
use batterysystem.Monitor.{
  log_file, error_log_file, Routine, bs01, dis01, network_tcp, routines, Program, exited,
  create_threads, created, main,
}
use batterysystem.Monitor.Started.{HasStarted, main-IsStarted}
use batterysystem.Common.Text.{codes}
use batterysystem.Output.{redirect_std_io}
use batterysystem.Tests.Output.{
  Descriptors, table_of, file_of, above, above-IsDescriptors, streams, streams-IsUsed,
}

-- A server without a configuration.
abbrev client_of : Bool → Client fixed Descriptors
client_of up = record {
  connect = λ w. (up, w);
  select_db = λ w. (true, w);
  query = λ s w. w;
  store_result = λ w. (some [], w);
  close = λ w. w;
  time = λ w. (1000, w);
  report = λ w. w;
}

-- The threads that can be created.
abbrev two_threads : Routine → Bool
two_threads network_tcp = false
two_threads _ = true

abbrev program : Bool → Program fixed
program up = record {
  system = table_of above;
  client = client_of up;
  init_mutex = λ w. w;
  create = λ routine w. (two_threads routine, w);
}

client-IsConnected : IsConnected (client_of true)
client-IsConnected = record { connect-true = λ w. refl }

client-IsSelecting : IsSelecting (client_of true)
client-IsSelecting = record { rows-select = λ w. inl refl }

stopped : (create_threads (program true) routines []).0 ≡ exited (bs01 ∷ dis01 ∷ [])
unfolding create_threads created
stopped = refl

main-IsStarted_example : Returns (main (program true) streams) (λ standing _.
    ((redirect_std_io
        (table_of above)
        (some (codes "/dev/null"))
        (some log_file)
        (some error_log_file)
        streams).0
      ≡ true)
    × HasStarted (program true) streams standing)
main-IsStarted_example =
    main-IsStarted (program true) file_of above-IsDescriptors client-IsConnected client-IsSelecting
      streams (streams-IsUsed.0) (streams-IsUsed.1) (streams-IsUsed.2)
