-- ===== src/Patrol/Rate.antt =====
-- How often thread_bs01 measures and stores, by a clock that does not go back.
pub mod Sweeps
pub mod Due
pub mod Turns
pub mod Waits
pub mod Pace
use batterysystem.Common.{ℕ, ◌+◌, ◌≤◌, ◌≡◌, List}
use batterysystem.Float.{Float}
use batterysystem.Serial.Steady.{IsSteady}
use batterysystem.Database.{Statement}
use batterysystem.Database.Steady.{IsSteadyClient, Later, Quiet}
use batterysystem.Patrol.{Site}

module _ {F : Float} (S : Site F) (log : S.port.World → List (Statement F)) where
  open S use {port}

  -- A clock that time(NULL) reads and that does not go back, and a serial line and a RES_FILE that are
  -- apart from the database's log.
  pub record IsTimed : Type 0 where
    pub clock : port.World → ℕ
    pub line : IsSteady port (Quiet log clock)
    pub database : IsSteadyClient S.client (Later clock)
    pub create : (w : port.World) → Quiet log clock w (S.create_file w).1
    pub write : (text : List ℕ) (w : port.World) → Quiet log clock w (S.write_file text w).1
    pub time_between :
        (w : port.World)
        → (clock w ≤ (S.client.time w).0) × ((S.client.time w).0 ≤ clock (S.client.time w).1)
