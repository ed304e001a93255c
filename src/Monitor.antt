-- ===== src/Monitor.antt =====
-- batterySystem/monitor.c: `main`, which starts the program.
pub mod Started
use batterysystem.Common.{ℕ, List, [], ◌∷◌, some, Bool, true, false, if◌then◌else◌}
use batterysystem.Common.Text.{codes}
use batterysystem.Common.Runs.{M, ◌>>=◌, ◌>>◌, pure, done}
use batterysystem.Float.{Float}
use batterysystem.Database.{Client, create_network_config, create_battery_config}
use batterysystem.Output.{System, stdout, redirect_std_io, printftime}

-- LOG_FILE
abbrev pub log_file : List ℕ
log_file = codes "/var/log/s800bmsystem/message.log"

-- ERROR_LOG_FILE
abbrev pub error_log_file : List ℕ
error_log_file = codes "/var/log/s800bmsystem/error.log"

-- The functions that the threads run, without their `thread_`.
pub data Routine : Type 0 where
  bs01 dis01 network_tcp : Routine

-- The threads in the order in which main creates them.
abbrev pub routines : List Routine
routines = bs01 ∷ dis01 ∷ network_tcp ∷ []

pub record Program (F : Float) : Type 1 where
  pub system : System
  pub client : Client F system.World
  -- pthread_mutex_init
  pub init_mutex : system.World → system.World
  -- pthread_create(_, NULL, routine, 0) == 0
  pub create : Routine → system.World → Bool × system.World

-- How main stands: in its `while (1)`, which does nothing, or ended with EXIT_FAILURE; and the threads
-- created.
pub data Standing : Type 0 where
  looping exited : List Routine → Standing

-- one more thread before those of the rest
abbrev pub also : Routine → Standing → Standing
also routine (looping started) = looping (routine ∷ started)
also routine (exited started) = exited (routine ∷ started)

module _ {F : Float} (P : Program F) where
  open P.system use {World}

  -- What follows pthread_create, where `next` is the rest of main.
  unfoldable pub created : Bool → Routine → World → (World → Standing × World) → Standing × World
  created true routine w next = let (standing, w1) = next w in (also routine standing, w1)
  created false routine w next =
      (exited [], P.system.perror (codes "Thread creation failed") (printftime P.system 2 w))

  -- the blocks that create the threads, one after the other, and the loop
  unfoldable pub create_threads : List Routine → World → Standing × World
  unfolding created
  create_threads [] w = (looping [], w)
  create_threads (routine ∷ rest) w =
      let (ok, w1) = P.create routine w in created ok routine w1 (create_threads rest)

  -- after the redirection, which returned `ok`
  unfoldable pub start_up : Bool → M World Standing
  unfolding create_threads
  start_up false = pure (exited [])
  start_up true = do
    λ w.
        done tt
          (P.system.print stdout (codes "s800bmsystem is starting\n") (printftime P.system 1 w))
    create_network_config P.client
    create_battery_config P.client
    λ w. let (standing, w1) = create_threads routines (P.init_mutex w) in done standing w1

  unfoldable pub main : M World Standing
  unfolding start_up
  main w =
      let (ok, w1) =
        redirect_std_io P.system (some (codes "/dev/null")) (some log_file) (some error_log_file)
          w in
      start_up ok w1
