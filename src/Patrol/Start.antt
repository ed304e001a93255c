-- ===== src/Patrol/Start.antt =====
-- The start of `thread_bs01` of batterySystem/bs01thread.c, up to its loop: the deadlines and the cells'
-- resistances that it takes from RES_FILE.
use batterysystem.Common.{ℕ, List, Option, none, some, ◌&&◌, ◌==◌, if◌then◌else◌}
use batterysystem.Common.Int.{pos, pos_part, ltb_ℤ, eqb_ℤ}
use batterysystem.Float.{Float}
use batterysystem.Pack.{SingleBattery, BatteryPack}
use batterysystem.Savefile.{FloatText, Saved, load}
use batterysystem.Patrol.{Thread}

module _ {F : Float} where
  -- the deadlines that the thread starts with: those of RES_FILE, if they are ahead
  unfoldable pub deadlines : ℕ → ℕ → Saved F → ℕ × ℕ
  deadlines battery_total t saved =
      let same = eqb_ℤ (pos battery_total) saved.old_batterytotal in
      (
        (if same && saved.old_count == battery_total && ltb_ℤ (pos t) saved.t_old_vol
            then pos_part saved.t_old_vol
            else t),
        (if same && ltb_ℤ (pos t) saved.t_old_res then pos_part saved.t_old_res else t),
      )

module _ {F : Float} (X : FloatText F) where
  -- Up to the loop, with what stands in RES_FILE, the array of cells, which nothing sets before, and the
  -- shared record; `none` is undefined behaviour. (Whole has the number of cells
  -- and the serial line, which come before.)
  unfoldable pub begin :
      ℕ → Option (List ℕ) → List (SingleBattery F) → BatteryPack F → ℕ → Option (Thread F)
  unfolding deadlines
  begin battery_total file cells group t = elim (load X file cells) [
    | none ↦ none
    | some saved ↦
        let (t_voltage, t_resistance) = deadlines battery_total t saved in
        some (record {
          single_bat = saved.single_bat;
          old_count = saved.old_count;
          t_voltage = t_voltage;
          t_resistance = t_resistance;
          t_control = t;
          t_now = t;
          file = file;
          group_battery = group;
        })
  ]
