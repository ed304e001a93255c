-- ===== src/Patrol/Cycle.antt =====
-- The loop of thread_bs01 on an open port: what a patrol publishes, and that the loop goes on without
-- a fault.
use batterysystem.Common.{
  ℕ, zero, suc, ◌+◌, ◌*◌, ◌≤◌, ◌<◌, ◌≡◌, refl, ap, ◌∙◌, inl, inr, List, [], ◌∷◌, ◌++◌, some, ◌||◌,
  leb, length, drop, length-append, All, Bool-cases, arith, map, if◌then◌else◌, length-drop,
  get_elem?, get_elem?_of_lt,
}
use batterysystem.Common.Runs.{Returns, Returns-bind, Returns-map, pure}
use batterysystem.Float.{Float, IsOrdered}
use batterysystem.Pack.{max_battery_total, SingleBattery, BatteryPack}
use batterysystem.Balance.{zero_value, control_voltage}
use batterysystem.Balance.Measured.{with_voltages, control_voltage-Returns}
use batterysystem.Balance.Decision.{clean}
use batterysystem.Savefile.{FloatText}
use batterysystem.Patrol.{Site, Thread, sweep, publish_pack, publish, patrol, control, cycle, turns}
use batterysystem.Database.{Statement, store_record}
use batterysystem.Database.Recorded.{Recorded, store_record-Recorded}
use batterysystem.Patrol.Opening.{begun, opened, created, first_line, next_times, AreParts}
use batterysystem.Patrol.Cells.{AreAsked, IsMeasured, sum_voltages, IsSound, sweep-Swept}

module _ (F : Float) where
  -- Both records have arrays of the declared length.
  abbrev pub IsSizedThread : Thread F → Type 0
  IsSizedThread d =
      (length d.single_bat ≡ max_battery_total)
      × (length d.group_battery.single_bat ≡ max_battery_total)

  length-with_voltages :
      (vs : List F.T) (cells : List (SingleBattery F))
      → length (with_voltages F vs cells) ≡ length cells
  unfolding with_voltages
  length-with_voltages [] cells = refl
  length-with_voltages (v ∷ vs) [] = refl
  length-with_voltages (v ∷ vs) (c ∷ cells) = ap suc (length-with_voltages vs cells)

module _ {F : Float} (X : FloatText F) (S : Site F) (log : S.port.World → List (Statement F))
    (fuel total : ℕ) where
  open S use {port}

  -- What is sent to the database between these worlds: the record, with the current as it is at that time.
  abbrev pub Sent : BatteryPack F → port.World → port.World → Type 0
  Sent group ws w' =
      (first : SingleBattery F) × (get_elem? group.single_bat 0 ≡ some first)
      × Recorded S.client log total
          (record group { group_current = S.group_current (S.client.connect ws).1 }) first ws w'

  -- The record published by a patrol, RES_FILE after it, and what is sent to the database.
  abbrev pub Patrolled : port.World → Thread F → Thread F → port.World → Type 0
  Patrolled w d d' w' =
      (new : List (SingleBattery F)) × (length new ≡ total)
      × All (IsMeasured F) new
      × (d'.group_battery.single_bat ≡ new ++ drop total d.single_bat)
      × (d'.group_battery.total_voltage ≡ sum_voltages F (zero_value F) new)
      × (d'.group_battery.date_time ≡ d.t_now)
      × (d'.single_bat ≡ d'.group_battery.single_bat)
      × (d'.old_count ≡ d.old_count)
      × (d'.t_voltage ≡ (next_times S total w).0)
      × (parts : List ℕ) × AreParts X S new parts
      × (d'.file ≡ (if created S total w then some (first_line S total w ++ parts) else d.file))
      × ((ws : port.World) × AreAsked S fuel total d.t_now d.old_count d.t_resistance 1 d.single_bat
            new (opened S total w) ws
          × Sent d'.group_battery ws w')

module _ {F : Float} where
  -- What every step of the loop keeps.
  abbrev pub Kept : Thread F → Thread F → Type 0
  Kept d d' = IsSizedThread F d' × (d'.old_count ≡ d.old_count)

module _ {F : Float} (ord : IsOrdered F) (X : FloatText F) (S : Site F) (n fuel : ℕ)
    (sound : IsSound S n fuel) (total : ℕ) (few : total ≤ max_battery_total) where
  open S use {port}

  pub length-swept :
      (new old cells : List (SingleBattery F))
      → length new ≡ total
      → length old ≡ max_battery_total
      → cells ≡ new ++ drop total old
      → length cells ≡ max_battery_total
  length-swept new old cells len sized e =
      omega (arith, ap length e, length-append new (drop total old), length-drop total old)

  -- On an open port whose buffer settles and whose resistance tests end, with a server that can be
  -- reached, at most 60 cells and arrays of 60, a patrol ends without a fault. It asks the cells in
  -- order, and publishes a record of what they answered: of each cell the voltage, the temperature and
  -- the capacity that it gave, or 0 for an error code, its resistance as a test gave it if the time of the
  -- tests has come or the cell is beyond `old_count`, and else as it was, and the sum of the positive
  -- voltages; the cells beyond `battery_total` are kept. It leaves, if RES_FILE can be created, a file to
  -- which the first line and the line of each resistance published have added as much as the system took
  -- of them, the first line with the time of the next patrol in ten minutes, and as the time of the next
  -- resistance test that of a day later, whether or not the resistances were tested; if not, the file as
  -- it was. If the database can be used after that, at once or after an attempt to create it, the
  -- statements for that record, with the current at that time, are sent, and in any case at the end the
  -- deletion of the old records.
  pub patrol-Returns :
      (d : Thread F) (w : port.World)
      → IsSizedThread F d
      → Returns (patrol X S fuel total d w) (λ d' w'. Patrolled X S sound.log fuel total w d d' w')
  unfolding patrol publish publish_pack
  patrol-Returns d w sized =
      let t = S.client.time w in
      let count : total ≤ length d.single_bat = omega (arith, sized.0) in
      let start = begun S total d w in
      let w0 = opened S total w in
      Returns-bind (sweep X S fuel total d.t_now d.old_count total 1 start w0)
        (λ s.
          publish S total (t.0 + 60 * 10) (if created S total w then some s.file else d.file) s d)
        _ (λ d' w'. Patrolled X S sound.log fuel total w d d' w')
        (sweep-Swept ord X S n fuel sound total d.t_now d.old_count total 1 [] d.single_bat start w0
          refl refl count)
        λ s ws (new, len, all, cells, sum, (parts, written, file), asked).
          let stored = length-swept new d.single_bat s.single_bat len sized.0 cells in
          let (first, found) = get_elem?_of_lt s.single_bat 0 (omega (arith, stored)) in
          let group = publish_pack F d.t_now s (S.group_current ws) in
          let current : port.World → BatteryPack F =
            λ w1. record group { group_current = S.group_current w1 } in
          Returns-bind (store_record S.client total current ws) _ _
            (λ d' w'. Patrolled X S sound.log fuel total w d d' w')
            (store_record-Recorded S.client sound.log sound.logged sound.connected total current
              first ws found (omega (arith, stored)))
            λ _ w' recorded. (
              new,
              len,
              all,
              cells,
              sum,
              refl,
              refl,
              refl,
              refl,
              parts,
              written,
              ap (λ z. if created S total w then some z else d.file) file,
              (ws, asked, (first, found, recorded)),
            )

  pub patrol-Kept :
      (d : Thread F) (w : port.World)
      → IsSizedThread F d
      → Returns (patrol X S fuel total d w) (λ d' _. Kept d d')
  patrol-Kept d w sized =
      Returns-map (patrol X S fuel total d w) _ _ (patrol-Returns d w sized) λ d' _ p.
        let (new, len, _, cells, _, _, both, same, _, _, _, _, _) = p in
        let stored = length-swept new d.single_bat d'.group_battery.single_bat len sized.0 cells in
        ((ap length both ∙ stored, stored), same)

  pub control-Kept :
      (d : Thread F) (w : port.World)
      → 0 < total
      → IsSizedThread F d
      → Returns (control S fuel total d w) (λ d' _. Kept d d')
  unfolding control
  control-Kept d w some_cells sized =
      let t = S.client.time w in
      let fits : total ≤ length d.group_battery.single_bat = omega (arith, sized.1) in
      let group = record d.group_battery { group_current = S.group_current t.1 } in
      elim (Bool-cases (leb d.t_control d.t_now)) [
        | inl e ↦ rw e (
            Returns-bind (control_voltage F port fuel total group t.1) _ _ _
              (control_voltage-Returns F port sound.bounded sound.opened n fuel sound.settles
                sound.enough total group t.1 some_cells fits)
              λ group' w' p.
                let (values, _, _, published) = p in
                let same = length-with_voltages F (map (clean F) values) group.single_bat in
                let stored : length group'.single_bat ≡ max_battery_total =
                  ap (λ (g : BatteryPack F). length g.single_bat) published ∙ same ∙ sized.1 in
                ((sized.0, stored), refl))
        | inr e ↦ rw e (sized, refl)
      ]

  pub cycle-Kept :
      (d : Thread F) (w : port.World)
      → 0 < total
      → IsSizedThread F d
      → Returns (cycle X S fuel total d w) (λ d' _. Kept d d')
  unfolding cycle
  cycle-Kept d w some_cells sized =
      let go = leb d.t_voltage d.t_now || leb d.t_resistance d.t_now in
      Returns-bind ((if go then patrol X S fuel total d else pure d) w) _ (λ d1 _. Kept d d1) _
        (elim (Bool-cases go) [ inl e ↦ rw e (patrol-Kept d w sized) | inr e ↦ rw e (sized, refl) ])
        λ d1 w1 (sized1, same1).
          Returns-bind (control S fuel total d1 w1) _ _ _ (control-Kept d1 w1 some_cells sized1)
            λ d2 w2 (sized2, same2). (sized2, same2 ∙ same1)

  -- On an open port whose buffer settles and whose resistance tests end, with a server that can be
  -- reached, at most 60 cells and arrays of 60, the loop of thread_bs01 goes on without a fault for any
  -- number of turns: each of them ends, both arrays keep their length, and `old_count`, below which the
  -- test of a cell's resistance waits for its time, keeps its value.
  pub turns-Returns :
      (rounds : ℕ) (d : Thread F) (w : port.World)
      → 0 < total
      → IsSizedThread F d
      → Returns (turns X S fuel total rounds d w) (λ d' _. Kept d d')
  unfolding turns
  turns-Returns zero d w some_cells sized = (sized, refl)
  turns-Returns (suc rounds) d w some_cells sized =
      Returns-bind (cycle X S fuel total d w) (λ d1. turns X S fuel total rounds d1) _ _
        (cycle-Kept d w some_cells sized)
        λ d1 w1 (sized1, same1).
          Returns-map (turns X S fuel total rounds d1 w1) _ _
            (turns-Returns rounds d1 w1 some_cells sized1)
            λ d2 _ (sized2, same2). (sized2, same2 ∙ same1)
