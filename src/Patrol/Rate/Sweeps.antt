-- ===== src/Patrol/Rate/Sweeps.antt =====
-- The time of the next resistance test after the rounds of a patrol.
use batterysystem.Common.{
  ℕ, zero, suc, ◌+◌, ◌-◌, ◌≤◌, ◌<◌, ◌≡◌, ◌≢◌, ◌⊎◌, refl, ◌∙◌, inl, inr, List, Bool, true, false,
  ◌||◌, leb, ltb, ◌==◌, get_elem?, Bool-cases, Option-cases, arith,
}
use batterysystem.Common.Runs.Yields.{Yields, Yields-bind, Yields-map}
use batterysystem.Float.{Float}
use batterysystem.Serial.Port.{Command, test_voltage, text_temp, text_res, text_cap}
use batterysystem.Serial.Command.{send_serial_text_command}
use batterysystem.Serial.Steady.{send_serial_text_command-Moves}
use batterysystem.Pack.{SingleBattery}
use batterysystem.Database.{Statement}
use batterysystem.Database.Written.{IsLog}
use batterysystem.Savefile.{FloatText, resistance_field}
use batterysystem.Patrol.{Site, Sweep, test_resistance, measured, sweep_rest, sweep_cell, sweep}
use batterysystem.Database.Steady.{Quiet}
use batterysystem.Patrol.Rate.{IsTimed}

module _ {F : Float} (X : FloatText F) (S : Site F) (log : S.port.World → List (Statement F))
    (logged : IsLog S.client log) (timed : IsTimed S log) (fuel total t_now : ℕ) where
  open S use {port}
  open timed use {clock}

  abbrev pub Calm : port.World → port.World → Type 0
  Calm = Quiet log clock

  -- A test that was set a day ahead of a time between two worlds.
  abbrev pub Reset : port.World → ℕ → port.World → Type 0
  Reset w t w' = (clock w + 86400 ≤ t) × (t ≤ clock w' + 86400)

  -- The deadline `t'` after something that may leave the deadline `t` if `Spared` holds.
  abbrev pub Set : Type 0 → port.World → ℕ → ℕ → port.World → Type 0
  Set Spared w t t' w' = Calm w w' × (((t' ≡ t) × Spared) ⊎ Reset w t' w')

  pub time-Calm : (w : port.World) → Calm w (S.client.time w).1
  time-Calm w = let b = timed.time_between w in (omega arith, logged.log-time w)

  Set-after :
      {Spared : Type 0} (w w1 w2 : port.World) (t t' : ℕ)
      → Set Spared w t t' w1
      → Calm w1 w2
      → Set Spared w t t' w2
  Set-after w w1 w2 t t' (calm, inl kept) calm2 = (timed.line.trans w w1 w2 calm calm2, inl kept)
  Set-after w w1 w2 t t' (calm, inr reset) calm2 =
      (timed.line.trans w w1 w2 calm calm2, inr (omega arith))

  test_resistance-Set :
      (i : ℕ) (due : Bool) (r : F.T) (t : ℕ) (w : port.World)
      → Yields
          (test_resistance S fuel total i due r t w)
          (λ p w'. Set ((i ≢ total) ⊎ (due ≡ false)) w t p.1 w')
  unfolding test_resistance
  test_resistance-Set i false r t w = (timed.line.same w, inl (refl, inr refl))
  test_resistance-Set i true r t w =
      Yields-bind (send_serial_text_command F port fuel text_res i w) _ _ _
        (send_serial_text_command-Moves port Calm timed.line F fuel text_res i w)
        λ value w1 calm. elim (Bool-cases (i == total)) [
          | inl e ↦
              let b = timed.time_between w1 in
              rw e
                (timed.line.trans w w1 (S.client.time w1).1 calm (time-Calm w1), inr (omega arith))
          | inr e ↦ rw e (calm, inl (refl, inl (λ same. ground arith)))
        ]

  text-Calm :
      (cmd : Command) (i : ℕ) (w : port.World)
      → Yields (send_serial_text_command F port fuel cmd i w) (λ _ w'. Calm w w')
  text-Calm cmd i w = send_serial_text_command-Moves port Calm timed.line F fuel cmd i w

  -- After the measurements of the cell `i`, unless it is not the last or the test is not due.
  abbrev pub Cell : ℕ → port.World → ℕ → ℕ → port.World → Type 0
  Cell i w t t' w' = Set ((i ≢ total) ⊎ (t_now < t)) w t t' w'

  not_due : (t old i : ℕ) → (leb t t_now || ltb old i) ≡ false → t_now < t
  not_due t old i e = ground arith

  Set-Cell :
      (i : ℕ) (old : ℕ) (w w' : port.World) (t t' : ℕ)
      → Set ((i ≢ total) ⊎ ((leb t t_now || ltb old i) ≡ false)) w t t' w'
      → Cell i w t t' w'
  Set-Cell i old w w' t t' (calm, inl (e, inl other)) = (calm, inl (e, inl other))
  Set-Cell i old w w' t t' (calm, inl (e, inr early)) = (calm, inl (e, inr (not_due t old i early)))
  Set-Cell i old w w' t t' (calm, inr reset) = (calm, inr reset)

  sweep_rest-Cell :
      (old i : ℕ) (v : F.T) (cell : SingleBattery F) (s : Sweep F) (w : port.World)
      → Yields
          (sweep_rest X S fuel total t_now old i v cell s w)
          (λ s' w'. Cell i w s.t_resistance s'.t_resistance w')
  unfolding sweep_rest measured
  sweep_rest-Cell old i v cell s w =
      let due = leb s.t_resistance t_now || ltb old i in
      let t = s.t_resistance in
      Yields-bind (test_resistance S fuel total i due cell.resistance t w) _ _ _
        (test_resistance-Set i due cell.resistance t w)
        λ r w0 set0.
          let text = resistance_field X (record cell { resistance = r.0 }) in
          let w1 = (S.write_file text w0).1 in
          let set = Set-after w w0 w1 t r.1 set0 (timed.write text w0) in
          Yields-bind (send_serial_text_command F port fuel text_temp i w1) _ _ _
            (text-Calm text_temp i w1)
            λ u w2 calm2.
              Yields-bind (send_serial_text_command F port fuel text_cap i w2) _ _ _
                (text-Calm text_cap i w2)
                λ c w3 calm3.
                  Set-after w w2 w3 t r.1
                    (Set-after w w1 w2 t r.1 (Set-Cell i old w w1 t r.1 set) calm2) calm3

  -- With a quiet time before.
  pub Set-before :
      {Spared : Type 0} (w w1 w2 : port.World) (t t' : ℕ)
      → Calm w w1
      → Set Spared w1 t t' w2
      → Set Spared w t t' w2
  Set-before w w1 w2 t t' calm (calm2, inl kept) = (timed.line.trans w w1 w2 calm calm2, inl kept)
  Set-before w w1 w2 t t' calm (calm2, inr reset) =
      (timed.line.trans w w1 w2 calm calm2, inr (omega arith))

  sweep_cell-Cell :
      (old i : ℕ) (s : Sweep F) (w : port.World)
      → Yields
          (sweep_cell X S fuel total t_now old i s w)
          (λ s' w'. Cell i w s.t_resistance s'.t_resistance w')
  unfolding sweep_cell
  sweep_cell-Cell old i s w =
      Yields-bind (send_serial_text_command F port fuel test_voltage i w) _ _ _
        (text-Calm test_voltage i w)
        λ v w1 calm. elim (Option-cases (get_elem? s.single_bat (i - 1))) [
          | inl missing ↦ rw (missing, Yields) tt
          | inr (cell, e) ↦
              rw (e, Yields)
                (Yields-map (sweep_rest X S fuel total t_now old i v cell s w1) _ _
                  (sweep_rest-Cell old i v cell s w1)
                  λ s' w2 set. Set-before w w1 w2 s.t_resistance s'.t_resistance calm set)
        ]

  -- After the rounds up to the last cell, unless there are none or the test is not due.
  abbrev pub Rest : ℕ → port.World → ℕ → ℕ → port.World → Type 0
  Rest rounds w t t' w' = Set ((rounds ≡ 0) ⊎ (t_now < t)) w t t' w'

  Cell-Rest :
      (rounds i : ℕ) (w w1 w2 : port.World) (t t1 t2 : ℕ)
      → i + suc rounds ≡ total + 1
      → Cell i w t t1 w1
      → Rest rounds w1 t1 t2 w2
      → Rest (suc rounds) w t t2 w2
  Cell-Rest rounds i w w1 w2 t t1 t2 place (calm, cell) (calm2, rest) =
      let both = timed.line.trans w w1 w2 calm calm2 in
      (
        both,
        elim rest [
          | inr reset ↦ inr (omega arith)
          | inl (e2, spared) ↦ elim cell [
            | inr reset ↦ inr (omega arith)
            | inl (e1, inr early) ↦ inl (e2 ∙ e1, inr early)
            | inl (e1, inl other) ↦ elim spared [
              | inl none_left ↦ absurd (other (omega arith))
              | inr early ↦ inl (e2 ∙ e1, inr (omega arith))
            ]
          ]
        ],
      )

  pub sweep-Rest :
      (old rounds i : ℕ) (s : Sweep F) (w : port.World)
      → i + rounds ≡ total + 1
      → Yields
          (sweep X S fuel total t_now old rounds i s w)
          (λ s' w'. Rest rounds w s.t_resistance s'.t_resistance w')
  unfolding sweep
  sweep-Rest old zero i s w place = (timed.line.same w, inl (refl, inl refl))
  sweep-Rest old (suc rounds) i s w place =
      Yields-bind (sweep_cell X S fuel total t_now old i s w)
        (λ s1. sweep X S fuel total t_now old rounds (i + 1) s1) _ _ (sweep_cell-Cell old i s w)
        λ s1 w1 cell.
          Yields-map (sweep X S fuel total t_now old rounds (i + 1) s1 w1) _ _
            (sweep-Rest old rounds (i + 1) s1 w1 (omega arith))
            λ s2 w2 rest.
              Cell-Rest rounds i w w1 w2 s.t_resistance s1.t_resistance s2.t_resistance place cell
                rest
