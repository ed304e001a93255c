-- ===== src/Patrol/Rate/Turns.antt =====
-- How many records the loop of thread_bs01 stores in a time.
use batterysystem.Common.{
  ℕ, zero, suc, ◌+◌, ◌*◌, ◌-◌, ◌≤◌, ◌≡◌, ◌⊎◌, refl, ap, inl, inr, true, ◌||◌, leb, Bool-cases,
  arith, if◌then◌else◌,
}
use batterysystem.Common.Runs.{Returns, Returns-bind, Returns-map, pure}
use batterysystem.Common.Runs.Yields.{Yields, Yields-bind, Returns-yields}
use batterysystem.Float.{Float, IsOrdered}
use batterysystem.Pack.{max_battery_total}
use batterysystem.Balance.{control_voltage}
use batterysystem.Balance.Steady.{control_voltage-Moves}
use batterysystem.Savefile.{FloatText}
use batterysystem.Database.Rows.{group_rows}
use batterysystem.Patrol.{Site, Thread, patrol, control, cycle, turns}
use batterysystem.Patrol.Cells.{IsSound}
use batterysystem.Patrol.Cycle.{IsSizedThread, Kept, control-Kept}
use batterysystem.Database.Steady.{Quiet}
use batterysystem.Patrol.Rate.{IsTimed}
use batterysystem.Patrol.Rate.Due.{IsNear, Rated, patrol-Rated}
use batterysystem.Patrol.Rate.Sweeps.{time-Calm}

module _ {F : Float} (ord : IsOrdered F) (X : FloatText F) (S : Site F) (n fuel : ℕ)
    (sound : IsSound S n fuel) (timed : IsTimed S sound.log) (total : ℕ)
    (few : total ≤ max_battery_total) (some_cells : 1 ≤ total) where
  open S use {port}
  open timed use {clock}

  -- What a thread that does nothing with the deadlines leaves.
  abbrev Waited : port.World → Thread F → Thread F → port.World → Type 0
  Waited w d d' w' =
      Quiet sound.log clock w w'
      × (d'.t_now ≡ d.t_now)
      × (d'.t_voltage ≡ d.t_voltage)
      × (d'.t_resistance ≡ d.t_resistance)

  control-Waited :
      (d : Thread F) (w : port.World)
      → Yields (control S fuel total d w) (λ d' w'. Waited w d d' w')
  unfolding control
  control-Waited d w =
      let t = S.client.time w in
      let group = record d.group_battery { group_current = S.group_current t.1 } in
      let calm = time-Calm X S sound.log sound.logged timed fuel total d.t_now w in
      elim (Bool-cases (leb d.t_control d.t_now)) [
        | inr e ↦ rw e (timed.line.sleep 5000000 w, refl, refl, refl)
        | inl e ↦ rw e (
            Yields-bind (control_voltage F port fuel total group t.1) _ _
              (λ d' w'. Waited w d d' w')
              (control_voltage-Moves F port (Quiet sound.log clock) timed.line fuel total group t.1)
              λ group' w' calm'. (timed.line.trans w t.1 w' calm calm', refl, refl, refl))
      ]

  due_of :
      (d : Thread F)
      → (leb d.t_voltage d.t_now || leb d.t_resistance d.t_now) ≡ true
      → (d.t_voltage ≤ d.t_now) ⊎ (d.t_resistance ≤ d.t_now)
  due_of d e = elim (Bool-cases (leb d.t_voltage d.t_now)) [
    | inl voltage ↦ inl (ground arith)
    | inr not_yet ↦ inr (ground arith)
  ]

  cycle-Rated :
      (d : Thread F) (w : port.World)
      → IsSizedThread F d
      → IsNear S sound.log timed w d
      → Returns (cycle X S fuel total d w) (λ d' w'. Rated S sound.log timed w d d' w')
  unfolding cycle
  cycle-Rated d w sized near =
      let go = leb d.t_voltage d.t_now || leb d.t_resistance d.t_now in
      Returns-bind ((if go then patrol X S fuel total d else pure d) w) _
        (λ d1 w1. Rated S sound.log timed w d d1 w1) (λ d' w'. Rated S sound.log timed w d d' w')
        (elim (Bool-cases go) [
          | inl e ↦ rw e (
              patrol-Rated ord X S n fuel sound timed total few some_cells d w sized near
                (due_of d e))
          | inr e ↦ rw e (sized, near, (omega arith, omega arith))
        ])
        λ d1 w1 (sized1, near1, stored1).
          Returns-bind (control S fuel total d1 w1) _ (λ d2 w2. Kept d1 d2 × Waited w1 d1 d2 w2)
            (λ d' w'. Rated S sound.log timed w d d' w')
            (Returns-yields (control S fuel total d1 w1) _ _
              (control-Kept ord X S n fuel sound total few d1 w1 some_cells sized1)
              (control-Waited d1 w1))
            λ d2 w2 (kept, (calm, _, v, r)).
              let between = timed.time_between w2 in
              let log3 = ap group_rows (sound.logged.log-time w2) in
              let log2 = ap group_rows calm.1 in
              (kept.0, (omega arith, omega arith, omega arith), (omega arith, omega arith))

  turns-Rated :
      (rounds : ℕ) (d : Thread F) (w : port.World)
      → IsSizedThread F d
      → IsNear S sound.log timed w d
      → Returns (turns X S fuel total rounds d w) (λ d' w'. Rated S sound.log timed w d d' w')
  unfolding turns
  turns-Rated zero d w sized near = (sized, near, (omega arith, omega arith))
  turns-Rated (suc rounds) d w sized near =
      Returns-bind (cycle X S fuel total d w) (λ d1. turns X S fuel total rounds d1) _ _
        (cycle-Rated d w sized near)
        λ d1 w1 (sized1, near1, stored1).
          Returns-map (turns X S fuel total rounds d1 w1) _ _
            (turns-Rated rounds d1 w1 sized1 near1)
            λ d2 w2 (sized2, near2, stored2). (sized2, near2, (omega arith, omega arith))

  -- On an open port whose buffer settles and whose resistance tests end, with a server that can be
  -- reached, with at least one and at most 60 cells and arrays of 60, with a clock that does not go back,
  -- a serial line and a RES_FILE that send the database no statements, and with deadlines no further
  -- ahead than a patrol sets them: any number of turns of the loop of thread_bs01 end without a fault,
  -- and in the time since the earlier deadline, or an earlier time, they insert no more than one row into
  -- the table of the group for every ten minutes, one for every day, and two.
  pub turns_rate :
      (rounds since : ℕ) (d : Thread F) (w : port.World)
      → IsSizedThread F d
      → IsNear S sound.log timed w d
      → since ≤ d.t_voltage
      → since ≤ d.t_resistance
      → Returns (turns X S fuel total rounds d w) (λ d' w'.
        86400 * group_rows (sound.log w')
        ≤ 86400 * group_rows (sound.log w) + (144 + 1) * (clock w' - since) + 2 * 86400)
  turns_rate rounds since d w sized near early early2 =
      Returns-map (turns X S fuel total rounds d w) _ _ (turns-Rated rounds d w sized near)
        λ d' w' (_, near', stored). omega arith
