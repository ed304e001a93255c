-- ===== src/Patrol/Resume.antt =====
-- A patrol, and a start of thread_bs01 with the RES_FILE that it leaves.
use batterysystem.Common.{ℕ, ◌≤◌, ◌≡◌, ◌⊎◌, List, ◌++◌, some, length, drop}
use batterysystem.Float.{Float}
use batterysystem.Pack.{SingleBattery, BatteryPack}
use batterysystem.Savefile.{FloatText}
use batterysystem.Patrol.{Site, Thread}
use batterysystem.Patrol.Start.{begin}
use batterysystem.Patrol.Opening.{next_times}
use batterysystem.Patrol.Restart.{left, started}

module _ {F : Float} (X : FloatText F) (S : Site F) (total : ℕ) where
  open S use {port}

  -- The thread goes on where the patrol left off: with the resistances that were published, and the
  -- patrol's two times.
  abbrev pub Resumed :
      port.World → List (SingleBattery F) → BatteryPack F → ℕ → Thread F → Thread F → Type 0
  Resumed w cells group t d d' =
      (new : List (SingleBattery F)) × (length new ≡ total)
      × (d'.group_battery.single_bat ≡ new ++ drop total d.single_bat)
      × ((1024 ≤ length (left X total (next_times S total w).0 (next_times S total w).1 new cells))
          ⊎ (begin X total d'.file cells group t
              ≡ some (
                  started X total (next_times S total w).0 (next_times S total w).1 new cells group
                    t (next_times S total w))))
