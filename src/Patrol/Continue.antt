-- ===== src/Patrol/Continue.antt =====
-- A start of thread_bs01 with the RES_FILE of a patrol that was broken off.
use batterysystem.Common.{
  ℕ, suc, ◌≤◌, ◌<◌, ◌≡◌, refl, ap, ◌∙◌, List, [], ◌∷◌, some, length, take, map, arith,
}
use batterysystem.Common.Runs.{Returns, Returns-map}
use batterysystem.Common.Runs.Yields.{Returns-yields}
use batterysystem.Float.{Float, IsOrdered}
use batterysystem.Pack.{max_battery_total, SingleBattery, BatteryPack}
use batterysystem.Savefile.{FloatText}
use batterysystem.Savefile.Fields.{IsText, with_resistances}
use batterysystem.Patrol.{Site, Thread, patrol}
use batterysystem.Patrol.Start.{begin}
use batterysystem.Patrol.Cells.{IsSound}
use batterysystem.Patrol.Cycle.{patrol-Kept}
use batterysystem.Patrol.Restart.{left, started, begin_partial}
use batterysystem.Patrol.Spared.{resistances, patrol-Spared}

module _ {F : Float} (X : FloatText F) where
  -- The resistances as they are read back.
  abbrev pub read_back : List (SingleBattery F) → List F.T
  read_back = map (λ (c : SingleBattery F). X.atof (X.print c.resistance))

  take-with_resistances :
      (new cells : List (SingleBattery F))
      → length new ≤ length cells
      → take (length new) (resistances (with_resistances X new cells)) ≡ read_back new
  unfolding with_resistances
  take-with_resistances [] cells h = refl
  take-with_resistances (c ∷ new) [] h = elim h [ ]
  take-with_resistances (c ∷ new) (cell ∷ cells) h =
      ap (λ rs. X.atof (X.print c.resistance) ∷ rs) (take-with_resistances new cells (omega arith))

  length-with_resistances :
      (new cells : List (SingleBattery F)) → length (with_resistances X new cells) ≡ length cells
  unfolding with_resistances
  length-with_resistances [] cells = refl
  length-with_resistances (c ∷ new) [] = refl
  length-with_resistances (c ∷ new) (cell ∷ cells) = ap suc (length-with_resistances new cells)

  -- On an open port whose buffer settles and whose resistance tests end, with a server that can be
  -- reached, at most 60 cells and arrays of 60, and with a printf that prints something, without tabs,
  -- newlines and NULs: if a patrol was broken off after some of its cells, with less than 1024 bytes in
  -- RES_FILE, and the thread starts again before the time of the next resistance test in it, then its
  -- first patrol is due at once and ends, and publishes for those cells the resistances that are in the
  -- file.
  pub patrol-Continued :
      IsOrdered F
      → (S : Site F) (n fuel : ℕ) → IsSound S n fuel
      → IsText X
      → (total vol res t : ℕ) (new cells : List (SingleBattery F)) (group : BatteryPack F)
        (w : S.port.World)
      → total ≤ max_battery_total
      → length (left X total vol res new cells) < 1024
      → length new < total
      → length cells ≡ max_battery_total
      → length group.single_bat ≡ max_battery_total
      → t < res
      → (d : Thread F) × (begin X total (some (left X total vol res new cells)) cells group t
          ≡ some d)
        × (d.t_voltage ≤ d.t_now)
        × Returns
            (patrol X S fuel total d w)
            (λ d' _. take (length new) (resistances d'.group_battery.single_bat) ≡ read_back new)
  patrol-Continued ord S n fuel sound text total vol res t new cells group w few short part full
        whole early =
      let d = started X total vol res new cells group t (t, res) in
      let fits : length new ≤ length cells = omega (arith, full) in
      let sized = length-with_resistances new cells in
      (
        d,
        begin_partial X total vol res new cells text t group short part fits early,
        omega arith,
        Returns-map (patrol X S fuel total d w) _ _
            (Returns-yields (patrol X S fuel total d w) _ _
              (patrol-Kept ord X S n fuel sound total few d w (sized ∙ full, whole))
              (patrol-Spared X S fuel total t (length new) d w refl refl early))
            (λ d' _ (_, same). same ∙ take-with_resistances new cells fits),
      )
