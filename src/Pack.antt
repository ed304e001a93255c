-- ===== src/Pack.antt =====
-- The records of batterySystem/battery.h that the threads share, `single_battery` and `battery_pack`.
use batterysystem.Common.{ℕ, ◌≡◌, List, length}
use batterysystem.Float.{Float}

-- MAX_BATTERY_TOTAL
abbrev pub max_battery_total : ℕ
max_battery_total = 60

pub record SingleBattery (F : Float) : Type 0 where
  pub voltage : F.T
  pub temperature : F.T
  pub resistance : F.T
  pub capacity : F.T

-- `time_t` is a number of seconds.
pub record BatteryPack (F : Float) : Type 0 where
  pub date_time : ℕ
  pub total_voltage : F.T
  pub group_current : F.T
  pub single_bat : List (SingleBattery F)

-- The array has its declared length.
abbrev pub IsSized : (F : Float) → BatteryPack F → Type 0
IsSized F p = length p.single_bat ≡ max_battery_total
