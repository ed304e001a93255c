-- ===== src/Tests/SerialToPc.antt =====
-- `cmd_serail` where a read to the address 0 fails, and its answer to a request that it never gets.
use batterysystem.Common.{◌≡◌, refl, List, [], ◌∷◌, ◌++◌, some}
use batterysystem.Common.Int.{pos, negsuc}
use batterysystem.Float.Fixed.{fixed}
use batterysystem.Pack.{BatteryPack}
use batterysystem.Network.{Reply, Shared, current, magic, dispatch}
use batterysystem.SerialToPc.{PcLine, answer_line}
use batterysystem.SerialToPc.Silent.{IsProtected}

abbrev group : BatteryPack fixed
group = record { date_time = 0; total_voltage = pos 0; group_current = pos 7; single_bat = [] }

-- The world is what was sent.
abbrev line : PcLine fixed
line = record {
  World = List (Reply fixed);
  read_at = λ address count w. (negsuc 0, w);
  write = λ reply w. w ++ reply ∷ [];
  group_battery = λ w. group;
}

line-IsProtected : IsProtected line
line-IsProtected = record { read-null = λ count w. refl }

abbrev globals : Shared fixed
globals = record { battery_total = 55; group_battery = group }

answered : answer_line globals (magic ++ 3 ∷ 0 ∷ []) 8 ≡ some (current (pos 7))
unfolding answer_line dispatch
answered = refl
