-- ===== src/Tests/Server.antt =====
-- A device beside a server that logs its statements.
use batterysystem.Common.{ℕ, refl, List, [], ◌∷◌, ◌++◌, some, true}
use batterysystem.Common.Text.{codes}
use batterysystem.Float.Fixed.{fixed}
use batterysystem.Serial.Port.{Port, IsBounded, IsOpen}
use batterysystem.Database.{Client, Statement}
use batterysystem.Database.Written.{IsLog}
use batterysystem.Database.Recorded.{IsConnected}

abbrev pub Log : Type 0
Log = List (Statement fixed)

module _ (P : Port) where
  abbrev pub with_log : Port
  with_log = record {
    World = P.World × Log;
    read = λ w n. let (r, v) = P.read w.0 n in (r, (v, w.1));
    write = λ bytes w. (P.write bytes w.0, w.1);
    flush = λ w. (P.flush w.0, w.1);
    sleep = λ n w. (P.sleep n w.0, w.1);
  }

  pub with_log-IsBounded : IsBounded P → IsBounded with_log
  with_log-IsBounded b = record { size-read = λ w n. b.size-read w.0 n }

  pub with_log-IsOpen : IsOpen P → IsOpen with_log
  with_log-IsOpen o = record { read-ne-failed = λ w n. o.read-ne-failed w.0 n }

-- The configuration has two cells.
module _ (W : Type 0) (clock : W → ℕ × W) where
  abbrev pub server : Client fixed (W × Log)
  server = record {
    connect = λ w. (true, w);
    select_db = λ w. (true, w);
    query = λ s w. (w.0, w.1 ++ s ∷ []);
    store_result = λ w. (some ((codes "2" ∷ []) ∷ []), w);
    close = λ w. w;
    time = λ w. let (t, v) = clock w.0 in (t, (v, w.1));
    report = λ w. w;
  }

  abbrev pub log_of : W × Log → Log
  log_of w = w.1

  pub server-IsLog : IsLog server log_of
  server-IsLog = record {
    log-query = λ s w. refl;
    log-store_result = λ w. refl;
    log-select_db = λ w. refl;
    log-connect = λ w. refl;
    log-close = λ w. refl;
    log-time = λ w. refl;
    log-report = λ w. refl;
  }

  pub server-IsConnected : IsConnected server
  server-IsConnected = record { connect-true = λ w. refl }
