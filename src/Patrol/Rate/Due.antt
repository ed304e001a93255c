-- ===== src/Patrol/Rate/Due.antt =====
-- What a patrol does with the deadlines of thread_bs01.
use batterysystem.Common.{
  ℕ, ◌+◌, ◌*◌, ◌≤◌, ◌≡◌, ◌⊎◌, refl, ap, inl, inr, List, Option, [], some, length, arith,
  if◌then◌else◌, get_elem?_of_lt,
}
use batterysystem.Common.Runs.{Returns, Returns-bind, done}
use batterysystem.Common.Runs.Yields.{Returns-yields}
use batterysystem.Float.{Float, IsOrdered}
use batterysystem.Pack.{max_battery_total, BatteryPack}
use batterysystem.Savefile.{FloatText, header_line}
use batterysystem.Database.{Statement, store_record}
use batterysystem.Database.Recorded.{Recorded, store_record-Recorded}
use batterysystem.Database.Rows.{group_rows, Recorded-rows}
use batterysystem.Database.Steady.{Later, store_record-Moves}
use batterysystem.Patrol.{Site, Sweep, Thread, sweep, publish_pack, publish, patrol}
use batterysystem.Patrol.Opening.{begun, opened, created, next_times}
use batterysystem.Patrol.Cells.{IsSound, Swept, sweep-Swept}
use batterysystem.Patrol.Cycle.{IsSizedThread, length-swept}
use batterysystem.Patrol.Rate.{IsTimed}
use batterysystem.Patrol.Rate.Sweeps.{Rest, sweep-Rest, time-Calm, Set-before}

module _ {F : Float} (S : Site F) (log : S.port.World → List (Statement F))
    (timed : IsTimed S log) where
  open S use {port}
  open timed use {clock}

  abbrev pub rows : port.World → ℕ
  rows w = group_rows (log w)

  -- What a time has stored, and how far the deadlines are then.
  abbrev pub Stored : port.World → Thread F → port.World → Thread F → Type 0
  Stored w d w' d' =
      (clock w ≤ clock w')
      × (86400 * rows w' + 144 * d.t_voltage + d.t_resistance
          ≤ 86400 * rows w + 144 * d'.t_voltage + d'.t_resistance)

  -- The deadlines are no further than a patrol sets them.
  abbrev pub IsNear : port.World → Thread F → Type 0
  IsNear w d =
      (d.t_now ≤ clock w) × (d.t_voltage ≤ clock w + 600) × (d.t_resistance ≤ clock w + 86400)

  abbrev pub Rated : port.World → Thread F → Thread F → port.World → Type 0
  Rated w d d' w' = IsSizedThread F d' × IsNear w' d' × Stored w d w' d'

module _ {F : Float} (ord : IsOrdered F) (X : FloatText F) (S : Site F) (n fuel : ℕ)
    (sound : IsSound S n fuel) (timed : IsTimed S sound.log) (total : ℕ)
    (few : total ≤ max_battery_total) (some_cells : 1 ≤ total) where
  open S use {port}
  open timed use {clock}

  -- The deadlines after a patrol that was due: a patrol's ten minutes weigh a 144th of a test's day.
  deadlines-Stored :
      (w ws w' : port.World) (d d' : Thread F)
      → Rest X S sound.log sound.logged timed fuel total d.t_now total w d.t_resistance
          d'.t_resistance ws
      → IsNear S sound.log timed w d
      → (d.t_voltage ≤ d.t_now) ⊎ (d.t_resistance ≤ d.t_now)
      → clock w + 600 ≤ d'.t_voltage
      → clock ws ≤ clock w'
      → group_rows (sound.log w') ≤ group_rows (sound.log w) + 1
      → (d'.t_resistance ≤ clock w' + 86400) × Stored S sound.log timed w d w' d'
  deadlines-Stored w ws w' d d' (calm, inr reset) near due low on one = (
    omega arith,
    (omega arith, elim due [ inl voltage ↦ omega arith | inr resistance ↦ omega arith ]),
  )
  deadlines-Stored w ws w' d d' (calm, inl (same, inl no_rounds)) near due low on one =
      absurd (omega arith)
  deadlines-Stored w ws w' d d' (calm, inl (same, inr early)) near due low on one = (
    omega arith,
    (omega arith, elim due [ inl voltage ↦ omega arith | inr resistance ↦ absurd (omega arith) ]),
  )

  publish-Rated :
      (t : ℕ) (file : Option (List ℕ)) (s : Sweep F) (d : Thread F) (w ws : port.World)
      → length s.single_bat ≡ max_battery_total
      → IsNear S sound.log timed w d
      → (d.t_voltage ≤ d.t_now) ⊎ (d.t_resistance ≤ d.t_now)
      → clock w + 600 ≤ t
      → t ≤ clock ws + 600
      → Rest X S sound.log sound.logged timed fuel total d.t_now total w d.t_resistance
          s.t_resistance ws
      → Returns (publish S total t file s d ws) (λ d' w'. Rated S sound.log timed w d d' w')
  unfolding publish publish_pack
  publish-Rated t file s d w ws stored near due low high rest =
      let group = publish_pack F d.t_now s (S.group_current ws) in
      let current : port.World → BatteryPack F =
        λ w1. record group { group_current = S.group_current w1 } in
      let (first, found) = get_elem?_of_lt s.single_bat 0 (omega (arith, stored)) in
      let seen = current (S.client.connect ws).1 in
      let d' : Thread F = record d {
        single_bat = s.single_bat;
        t_voltage = t;
        t_resistance = s.t_resistance;
        file = file;
        group_battery = group;
      } in
      Returns-bind (store_record S.client total current ws) (λ _ w'. done d' w')
        (λ _ w'. Recorded S.client sound.log total seen first ws w' × Later clock ws w')
        (λ d1 w'. Rated S sound.log timed w d d1 w')
        (Returns-yields (store_record S.client total current ws) _ _
          (store_record-Recorded S.client sound.log sound.logged sound.connected total current first
            ws found (omega (arith, stored)))
          (store_record-Moves S.client (Later clock) timed.database total current ws))
        λ _ w' (recorded, on).
          let one = Recorded-rows S.client sound.log total seen first ws w' recorded in
          let quiet = ap group_rows (rest.0.1) in
          let (near', stored') =
            deadlines-Stored w ws w' d d' rest near due low on (omega (arith, quiet, one)) in
          ((stored, stored), (omega (arith, rest.0.0), omega arith, near'), stored')

  pub patrol-Rated :
      (d : Thread F) (w : port.World)
      → IsSizedThread F d
      → IsNear S sound.log timed w d
      → (d.t_voltage ≤ d.t_now) ⊎ (d.t_resistance ≤ d.t_now)
      → Returns (patrol X S fuel total d w) (λ d' w'. Rated S sound.log timed w d d' w')
  unfolding patrol
  patrol-Rated d w sized near due =
      let t = S.client.time w in
      let made = S.create_file t.1 in
      let t2 = S.client.time made.1 in
      let line = header_line total (next_times S total w).0 (next_times S total w).1 in
      let count : total ≤ length d.single_bat = omega (arith, sized.0) in
      let start = begun S total d w in
      let w0 = opened S total w in
      let calm1 = time-Calm X S sound.log sound.logged timed fuel total d.t_now w in
      let calm2 = timed.line.trans w t.1 made.1 calm1 (timed.create t.1) in
      let calm3 =
        timed.line.trans w made.1 t2.1 calm2
          (time-Calm X S sound.log sound.logged timed fuel total d.t_now made.1) in
      let calm4 = timed.line.trans w t2.1 w0 calm3 (timed.write line t2.1) in
      let between = timed.time_between w in
      Returns-bind (sweep X S fuel total d.t_now d.old_count total 1 start w0)
        (λ s.
          publish S total (t.0 + 60 * 10) (if created S total w then some s.file else d.file) s d)
        (λ s ws.
          Swept ord X S n fuel sound total d.t_now d.old_count total 1 [] d.single_bat w0 start s ws
          × Rest X S sound.log sound.logged timed fuel total d.t_now total w0 d.t_resistance
              s.t_resistance ws)
        (λ d' w'. Rated S sound.log timed w d d' w')
        (Returns-yields (sweep X S fuel total d.t_now d.old_count total 1 start w0) _ _
          (sweep-Swept ord X S n fuel sound total d.t_now d.old_count total 1 [] d.single_bat start
            w0 refl refl count)
          (sweep-Rest X S sound.log sound.logged timed fuel total d.t_now d.old_count total 1 start
            w0 (omega arith)))
        λ s ws ((new, len, _, cells, _, _, _), rest).
          publish-Rated (t.0 + 60 * 10) (if created S total w then some s.file else d.file) s d w ws
            (length-swept ord X S n fuel sound total few new d.single_bat s.single_bat len sized.0
              cells)
            near due (omega arith)
            (omega (
              arith,
              rest.0.0,
              calm4.0,
              (timed.write line t2.1).0,
              (timed.create t.1).0,
              (timed.time_between made.1).0,
              (timed.time_between made.1).1,
            ))
            (Set-before X S sound.log sound.logged timed fuel total d.t_now w w0 ws d.t_resistance
              s.t_resistance calm4 rest)
