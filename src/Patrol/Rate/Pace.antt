-- ===== src/Patrol/Rate/Pace.antt =====
-- How long a patrol takes at least.
use batterysystem.Common.{
  ℕ, zero, suc, ◌+◌, ◌*◌, ◌-◌, ◌/◌, ◌≤◌, ◌≡◌, refl, inl, inr, List, Bool, true, false, ltb, leb,
  ◌||◌, get_elem?, Bool-cases, Option-cases, arith, ◌==◌,
}
use batterysystem.Common.Runs.{Returns, Returns-map}
use batterysystem.Common.Runs.Yields.{Yields, Yields-bind, Yields-map, Returns-yields}
use batterysystem.Float.{Float, IsOrdered}
use batterysystem.Serial.Port.{Command, test_voltage, text_temp, text_res, text_cap}
use batterysystem.Serial.Command.{send_serial_text_command}
use batterysystem.Serial.Steady.{send_serial_text_command-Moves}
use batterysystem.Database.{Statement}
use batterysystem.Database.{store_record}
use batterysystem.Database.Steady.{Later, Quiet, store_record-Moves}
use batterysystem.Pack.{max_battery_total, SingleBattery, BatteryPack}
use batterysystem.Savefile.{FloatText, header_line, resistance_field}
use batterysystem.Patrol.{
  Site, Sweep, Thread, test_resistance, sweep_rest, sweep_cell, sweep, publish_pack, publish,
  patrol,
}
use batterysystem.Patrol.Opening.{begun, opened, next_times}
use batterysystem.Patrol.Cells.{IsSound}
use batterysystem.Patrol.Cycle.{IsSizedThread, patrol-Kept}
use batterysystem.Patrol.Rate.{IsTimed}
use batterysystem.Patrol.Rate.Waits.{resistance_waits}

not_above : (late : Bool) (old i : ℕ) → (late || ltb old i) ≡ false → i ≤ old
not_above late old i e = ground arith

module _ {F : Float} (X : FloatText F) (S : Site F) (log : S.port.World → List (Statement F))
    (timed : IsTimed S log)
    (pause : (n : ℕ) (w : S.port.World)
      → timed.clock w + n / 1000000 ≤ timed.clock (S.port.sleep n w))
    (fuel total : ℕ) where
  open S use {port}
  open timed use {clock}

  -- It has taken some seconds.
  abbrev Waits : ℕ → port.World → port.World → Type 0
  Waits seconds w w' = clock w + seconds ≤ clock w'

  time-on : (w : port.World) → clock w ≤ clock (S.client.time w).1
  time-on w = let b = timed.time_between w in omega arith

  test_resistance-Waits :
      (i : ℕ) (r : F.T) (t : ℕ) (w : port.World)
      → Yields (test_resistance S fuel total i true r t w) (λ _ w'. Waits 6 w w')
  unfolding test_resistance
  test_resistance-Waits i r t w =
      Yields-bind (send_serial_text_command F port fuel text_res i w) _ _ _
        (resistance_waits F port log clock timed.line pause fuel i w)
        λ value w1 waited. elim (Bool-cases (i == total)) [
          | inl e ↦ rw e (omega (arith, time-on w1))
          | inr e ↦ rw e waited
        ]

  test_resistance-on :
      (i : ℕ) (due : Bool) (r : F.T) (t old : ℕ) (w : port.World)
      → (due ≡ false → i ≤ old)
      → Yields
          (test_resistance S fuel total i due r t w)
          (λ _ w'. Waits (6 * (1 - (old + 1 - i))) w w')
  unfolding test_resistance
  test_resistance-on i false r t old w spared = let at_once : i ≤ old = spared refl in omega arith
  test_resistance-on i true r t old w spared =
      Yields-map (test_resistance S fuel total i true r t w) _ _ (test_resistance-Waits i r t w)
        λ _ w1 waited. omega arith

  text-on :
      (cmd : Command) (i : ℕ) (w : port.World)
      → Yields (send_serial_text_command F port fuel cmd i w) (λ _ w'. clock w ≤ clock w')
  text-on cmd i w =
      Yields-map (send_serial_text_command F port fuel cmd i w) _ _
        (send_serial_text_command-Moves port (Quiet log clock) timed.line F fuel cmd i w)
        λ _ w' (on, _). on

  sweep_rest-Waits :
      (t_now old i : ℕ) (v : F.T) (cell : SingleBattery F) (s : Sweep F) (w : port.World)
      → Yields
          (sweep_rest X S fuel total t_now old i v cell s w)
          (λ _ w'. Waits (6 * (1 - (old + 1 - i))) w w')
  unfolding sweep_rest
  sweep_rest-Waits t_now old i v cell s w =
      let due = leb s.t_resistance t_now || ltb old i in
      Yields-bind (test_resistance S fuel total i due cell.resistance s.t_resistance w) _ _ _
        (test_resistance-on i due cell.resistance s.t_resistance old w
          λ e. not_above (leb s.t_resistance t_now) old i e)
        λ r w0 waited0.
          let text = resistance_field X (record cell { resistance = r.0 }) in
          let w1 = (S.write_file text w0).1 in
          let on1 = timed.write text w0 in
          Yields-bind (send_serial_text_command F port fuel text_temp i w1) _ _ _
            (text-on text_temp i w1)
            λ u w2 on2.
              Yields-bind (send_serial_text_command F port fuel text_cap i w2) _ _ _
                (text-on text_cap i w2) λ c w3 on3. omega (arith, waited0, on1.0)

  sweep_cell-Waits :
      (t_now old i : ℕ) (s : Sweep F) (w : port.World)
      → Yields
          (sweep_cell X S fuel total t_now old i s w)
          (λ _ w'. Waits (6 * (1 - (old + 1 - i))) w w')
  unfolding sweep_cell
  sweep_cell-Waits t_now old i s w =
      Yields-bind (send_serial_text_command F port fuel test_voltage i w) _ _ _
        (text-on test_voltage i w)
        λ v w1 on. elim (Option-cases (get_elem? s.single_bat (i - 1))) [
          | inl missing ↦ rw (missing, Yields) tt
          | inr (cell, e) ↦
              rw (e, Yields)
                (Yields-map (sweep_rest X S fuel total t_now old i v cell s w1) _ _
                  (sweep_rest-Waits t_now old i v cell s w1) λ _ w2 waited. omega arith)
        ]

  sweep-Waits :
      (t_now old rounds i : ℕ) (s : Sweep F) (w : port.World)
      → Yields
          (sweep X S fuel total t_now old rounds i s w)
          (λ _ w'. Waits (6 * (rounds - (old + 1 - i))) w w')
  unfolding sweep
  sweep-Waits t_now old zero i s w = omega arith
  sweep-Waits t_now old (suc rounds) i s w =
      Yields-bind (sweep_cell X S fuel total t_now old i s w)
        (λ s1. sweep X S fuel total t_now old rounds (i + 1) s1) _ _
        (sweep_cell-Waits t_now old i s w)
        λ s1 w1 waited1.
          Yields-map (sweep X S fuel total t_now old rounds (i + 1) s1 w1) _ _
            (sweep-Waits t_now old rounds (i + 1) s1 w1) λ _ w2 waited2. omega arith

  patrol-Waits :
      (d : Thread F) (w : port.World)
      → Yields (patrol X S fuel total d w) (λ _ w'. Waits (6 * (total - d.old_count)) w w')
  unfolding patrol publish
  patrol-Waits d w =
      let t = S.client.time w in
      let made = S.create_file t.1 in
      let t2 = S.client.time made.1 in
      let line = header_line total (next_times S total w).0 (next_times S total w).1 in
      let start = begun S total d w in
      let w0 = opened S total w in
      Yields-bind (sweep X S fuel total d.t_now d.old_count total 1 start w0) _ _
        (λ _ w'. Waits (6 * (total - d.old_count)) w w')
        (sweep-Waits d.t_now d.old_count total 1 start w0)
        λ s ws waited.
          let group = publish_pack F d.t_now s (S.group_current ws) in
          let current : port.World → BatteryPack F =
            λ w1. record group { group_current = S.group_current w1 } in
          Yields-bind (store_record S.client total current ws) _ _
            (λ _ w'. Waits (6 * (total - d.old_count)) w w')
            (store_record-Moves S.client (Later clock) timed.database total current ws)
            λ _ w' on. omega (
              arith,
              time-on w,
              (timed.create t.1).0,
              time-on made.1,
              (timed.write line t2.1).0,
              waited,
            )

module _ {F : Float} (ord : IsOrdered F) (X : FloatText F) (S : Site F) (n fuel : ℕ)
    (sound : IsSound S n fuel) (timed : IsTimed S sound.log) (total : ℕ)
    (few : total ≤ max_battery_total) where
  -- On an open port whose buffer settles and whose resistance tests end, with a server that can be
  -- reached, at most 60 cells and arrays of 60, with a clock that does not go back and that the pauses
  -- move on, and a serial line and a RES_FILE that send the database no statements: a patrol takes six
  -- seconds at least for every cell beyond the `old_count` of RES_FILE, whatever the time of the next
  -- resistance test, and leaves that count as it is, so that the next patrol takes them again.
  pub patrol_pace :
      ((n : ℕ) (w : S.port.World) → timed.clock w + n / 1000000 ≤ timed.clock (S.port.sleep n w))
      → (d : Thread F) (w : S.port.World) → IsSizedThread F d
      → Returns (patrol X S fuel total d w) (λ d' w'.
        (timed.clock w + 6 * (total - d.old_count) ≤ timed.clock w') × (d'.old_count ≡ d.old_count))
  patrol_pace pause d w sized =
      Returns-map (patrol X S fuel total d w) _ _
        (Returns-yields (patrol X S fuel total d w) _ _
          (patrol-Kept ord X S n fuel sound total few d w sized)
          (patrol-Waits X S sound.log timed pause fuel total d w))
        λ d' w' (kept, waited). (waited, kept.1)
