-- ===== src/Patrol/Cells.antt =====
-- A patrol over the cells: what it stores, sums up and writes into RES_FILE.
use mathlib.Core.List.{append_assoc, append-nil}
use batterysystem.Common.{
  ℕ, zero, suc, ◌+◌, ◌-◌, ◌≤◌, ◌≡◌, refl, sym, ap, ◌∙◌, ◌⊎◌, inl, inr, List, [], ◌∷◌, ◌++◌, Bool,
  true, false, ◌||◌, leb, ltb, ◌==◌, length, drop, take, get_elem?-append, set-append, length-snoc,
  All, Bool-cases, arith,
}
use batterysystem.Common.Runs.{Returns, Returns-bind, Returns-map, Returns-result, done}
use batterysystem.Float.{Float, IsOrdered}
use batterysystem.Serial.Port.{
  Command, IsBounded, IsOpen, test_voltage, text_temp, text_res, text_cap,
}
use batterysystem.Serial.Exchange.Closed.{Settles}
use batterysystem.Serial.Command.{send_serial_text_command, is_text_res}
use batterysystem.Serial.Command.Outcome.{send_serial_text_command-Outcome}
use batterysystem.Pack.{SingleBattery}
use batterysystem.Database.{Statement}
use batterysystem.Database.Written.{IsLog}
use batterysystem.Database.Recorded.{IsConnected}
use batterysystem.Balance.{zero_value}
use batterysystem.Savefile.{FloatText, resistance_field}
use batterysystem.Patrol.{
  Site, Sweep, positive, add_positive, test_resistance, measured, sweep_rest, sweep_cell, sweep,
}
use batterysystem.Patrol.Opening.{IsPart, AreParts}

module _ (F : Float) where
  -- A value that is stored: positive, or 0 for an error code.
  abbrev pub IsValue : F.T → Type 0
  IsValue v = (F.lt (zero_value F) v ≡ true) ⊎ (v ≡ zero_value F)

  pub positive-IsValue : (v : F.T) → IsValue (positive F v)
  unfolding positive
  positive-IsValue v = elim (Bool-cases (F.lt (zero_value F) v)) [
    | inl e ↦ rw e (inl e)
    | inr e ↦ rw e (inr refl)
  ]

  pub add_positive-positive :
      IsOrdered F → (t v : F.T) → add_positive F t (positive F v) ≡ add_positive F t v
  unfolding add_positive positive
  add_positive-positive ord t v = elim (Bool-cases (F.lt (zero_value F) v)) [
    | inl e ↦ rw (e, e)
    | inr e ↦ rw (e, ord.lt_irrefl (zero_value F))
  ]

  abbrev pub IsMeasured : SingleBattery F → Type 0
  IsMeasured c = IsValue c.voltage × IsValue c.temperature × IsValue c.capacity

  -- The sum of the positive voltages, in order.
  unfoldable pub sum_voltages : F.T → List (SingleBattery F) → F.T
  sum_voltages t [] = t
  sum_voltages t (c ∷ cells) = sum_voltages (add_positive F t c.voltage) cells

-- An open port whose buffer settles, and whose resistance tests end, and a server that can be reached,
-- with its log.
pub record IsSound {F : Float} (S : Site F) (n fuel : ℕ) : Type 0 where
  pub bounded : IsBounded S.port
  pub opened : IsOpen S.port
  pub settles : (w : S.port.World) → Settles S.port n w
  pub enough : n + 3 ≤ fuel
  pub resistance_ends :
      (battery : ℕ) (w : S.port.World)
      → Returns (send_serial_text_command F S.port fuel text_res battery w) (λ _ _. Unit {0})
  pub connected : IsConnected S.client
  pub log : S.port.World → List (Statement F)
  pub logged : IsLog S.client log

module _ {F : Float} (S : Site F) (fuel : ℕ) where
  open S use {port}

  -- A command to the `i`-th cell, between these worlds, gives what is stored as this value.
  abbrev pub Reads : Command → ℕ → F.T → port.World → port.World → Type 0
  Reads cmd i x w w' =
      (v : F.T) × (send_serial_text_command F port fuel cmd i w ≡ done v w') × (x ≡ positive F v)

  -- The resistance of the `i`-th cell is stored as `r'` after it was `r`: as it was if its test is not due,
  -- and else as the test gives it.
  abbrev pub Tested : ℕ → Bool → F.T → F.T → port.World → Type 0
  Tested i due r r' w =
      ((due ≡ false) × (r' ≡ r)) ⊎ ((due ≡ true) × ((w' : port.World) × Reads text_res i r' w w'))

  module _ (total t_now old_count : ℕ) where
    -- The round of the `i`-th cell, between these worlds: its voltage is asked for first, then its
    -- resistance, if the time of the test has come or the cell is beyond `old_count`, and at the end its
    -- temperature and its capacity. The time of the next test, `t` and then `t'`, is kept before the last
    -- cell.
    abbrev pub IsAsked :
        ℕ → ℕ → ℕ → SingleBattery F → SingleBattery F → port.World → port.World → Type 0
    IsAsked t t' i old new w w' =
        (w1 : port.World) × (w2 : port.World) × (w3 : port.World) × Reads test_voltage i new.voltage
          w w1
        × Tested i (leb t t_now || ltb old_count i) old.resistance new.resistance w1
        × Reads text_temp i new.temperature w2 w3
        × Reads text_cap i new.capacity w3 w'
        × ((t' ≡ t) ⊎ (i ≡ total))

    -- The rounds of the cells from the `i`-th on, one after the other.
    unfoldable pub AreAsked :
        ℕ → ℕ → List (SingleBattery F) → List (SingleBattery F) → port.World → port.World → Type 0
    AreAsked t i olds [] w w' = w ≡ w'
    AreAsked t i [] (new ∷ news) w w' = ⊥
    AreAsked t i (old ∷ olds) (new ∷ news) w w' =
        (w1 : port.World) × (t1 : ℕ) × IsAsked t t1 i old new w w1
        × AreAsked t1 (i + 1) olds news w1 w'

module _ {F : Float} (ord : IsOrdered F) (X : FloatText F) (S : Site F) (n fuel : ℕ)
    (sound : IsSound S n fuel) where
  open S use {port}

  text_ends :
      (cmd : Command) (i : ℕ) (w : port.World)
      → is_text_res cmd ≡ false
      → Returns
          (send_serial_text_command F port fuel cmd i w)
          (λ v w'. send_serial_text_command F port fuel cmd i w ≡ done v w')
  text_ends cmd i w h =
      let f = sound.enough in
      Returns-map (send_serial_text_command F port fuel cmd i w) _ _
        (Returns-result (send_serial_text_command F port fuel cmd i w) _ (
          send_serial_text_command-Outcome port sound.bounded sound.opened F n fuel cmd i w
            (sound.settles w) (omega arith) (omega arith) h))
        λ _ _ (sent, _). sent

  test_resistance-Returns :
      (total i : ℕ) (due : Bool) (r : F.T) (t : ℕ) (w : port.World)
      → Returns
          (test_resistance S fuel total i due r t w)
          (λ p _. Tested S fuel i due r p.0 w × ((p.1 ≡ t) ⊎ (i ≡ total)))
  unfolding test_resistance
  test_resistance-Returns total i false r t w = (inl (refl, refl), inl refl)
  test_resistance-Returns total i true r t w =
      Returns-bind (send_serial_text_command F port fuel text_res i w) _ _ _
        (Returns-result (send_serial_text_command F port fuel text_res i w) _
          (sound.resistance_ends i w))
        λ value w1 (sent, _). elim (Bool-cases (i == total)) [
          | inl e ↦
              let last : i ≡ total = ground arith in
              rw e (inr (refl, (w1, (value, sent, refl))), inr last)
          | inr e ↦ rw e (inr (refl, (w1, (value, sent, refl))), inl refl)
        ]

  -- What a round leaves: one more cell in its place, with its line and its part of the sum, and with what
  -- it answered.
  abbrev Grown :
      ℕ
      → ℕ
      → ℕ
      → List (SingleBattery F)
      → SingleBattery F
      → List (SingleBattery F)
      → ℕ
      → port.World
      → Sweep F
      → Sweep F
      → port.World
      → Type 0
  Grown total t_now old_count pre old post i w s s' w' =
      (new : SingleBattery F) × IsMeasured F new
      × (s'.single_bat ≡ pre ++ new ∷ post)
      × (s'.total_voltage ≡ add_positive F s.total_voltage new.voltage)
      × ((part : List ℕ) × IsPart S (resistance_field X new) part × (s'.file ≡ s.file ++ part))
      × IsAsked S fuel total t_now old_count s.t_resistance s'.t_resistance i old new w w'

  measured-Grown :
      (total t_now old : ℕ) (v r u c : F.T) (line : List ℕ) (t i : ℕ)
      (pre post : List (SingleBattery F)) (cell : SingleBattery F) (s : Sweep F)
      (w w1 w2 w3 w' : port.World)
      → s.single_bat ≡ pre ++ cell ∷ post
      → i ≡ length pre + 1
      → IsPart S (resistance_field X (record cell { resistance = r })) line
      → send_serial_text_command F port fuel test_voltage i w ≡ done v w1
      → Tested S fuel i (leb s.t_resistance t_now || ltb old i) cell.resistance r w1
      → (t ≡ s.t_resistance) ⊎ (i ≡ total)
      → send_serial_text_command F port fuel text_temp i w2 ≡ done u w3
      → send_serial_text_command F port fuel text_cap i w3 ≡ done c w'
      → Grown total t_now old pre cell post i w s (measured X S v (r, t) line u c i cell s) w'
  unfolding measured resistance_field
  measured-Grown total t_now old v r u c line t i pre post cell s w w1 w2 w3 w' e place written
        asked tested kept asked2 asked3 =
      let new : SingleBattery F = record cell {
        voltage = positive F v;
        resistance = r;
        temperature = positive F u;
        capacity = positive F c;
      } in
      let index : i - 1 ≡ length pre = omega arith in
      (
        new,
        (positive-IsValue F v, positive-IsValue F u, positive-IsValue F c),
        rw (e, index) (set-append pre cell new post),
        sym (add_positive-positive F ord s.total_voltage v),
        (line, written, refl),
        (w1, w2, w3, (v, asked, refl), tested, (u, asked2, refl), (c, asked3, refl), kept),
      )

  sweep_rest-Grown :
      (total t_now old i : ℕ) (v : F.T) (pre post : List (SingleBattery F)) (cell : SingleBattery F)
      (s : Sweep F) (w0 w : port.World)
      → s.single_bat ≡ pre ++ cell ∷ post
      → i ≡ length pre + 1
      → send_serial_text_command F port fuel test_voltage i w0 ≡ done v w
      → Returns
          (sweep_rest X S fuel total t_now old i v cell s w)
          (λ s' w'. Grown total t_now old pre cell post i w0 s s' w')
  unfolding sweep_rest
  sweep_rest-Grown total t_now old i v pre post cell s wv w e place asked =
      Returns-bind
        (test_resistance S fuel total i (leb s.t_resistance t_now || ltb old i) cell.resistance
          s.t_resistance w)
        _ _ _
        (test_resistance-Returns total i (leb s.t_resistance t_now || ltb old i) cell.resistance
          s.t_resistance w)
        λ r w0 (tested, kept).
          let text = resistance_field X (record cell { resistance = r.0 }) in
          let (written, w1) = S.write_file text w0 in
          let line = take written text in
          Returns-bind (send_serial_text_command F port fuel text_temp i w1) _ _ _
            (text_ends text_temp i w1 refl)
            λ u w2 asked2.
              Returns-bind (send_serial_text_command F port fuel text_cap i w2) _ _ _
                (text_ends text_cap i w2 refl)
                λ c w3 asked3.
                  measured-Grown total t_now old v r.0 u c line r.1 i pre post cell s wv w w1 w2 w3
                    e place (w0, refl) asked tested kept asked2 asked3

  sweep_cell-Grown :
      (total t_now old i : ℕ) (pre post : List (SingleBattery F)) (cell : SingleBattery F)
      (s : Sweep F) (w : port.World)
      → s.single_bat ≡ pre ++ cell ∷ post
      → i ≡ length pre + 1
      → Returns
          (sweep_cell X S fuel total t_now old i s w)
          (λ s' w'. Grown total t_now old pre cell post i w s s' w')
  unfolding sweep_cell
  sweep_cell-Grown total t_now old i pre post cell s w e place =
      Returns-bind (send_serial_text_command F port fuel test_voltage i w) _ _ _
        (text_ends test_voltage i w refl)
        λ v w1 asked.
          let index : i - 1 ≡ length pre = omega arith in
          rw (e, index, get_elem?-append pre cell post)
            (sweep_rest-Grown total t_now old i v pre post cell s w w1 e place asked)

  -- What rounds in a row leave.
  abbrev pub Swept :
      ℕ
      → ℕ
      → ℕ
      → ℕ
      → ℕ
      → List (SingleBattery F)
      → List (SingleBattery F)
      → port.World
      → Sweep F
      → Sweep F
      → port.World
      → Type 0
  Swept total t_now old rounds i pre cells w s s' w' =
      (new : List (SingleBattery F)) × (length new ≡ rounds)
      × All (IsMeasured F) new
      × (s'.single_bat ≡ pre ++ (new ++ drop rounds cells))
      × (s'.total_voltage ≡ sum_voltages F s.total_voltage new)
      × ((parts : List ℕ) × AreParts X S new parts × (s'.file ≡ s.file ++ parts))
      × AreAsked S fuel total t_now old s.t_resistance i cells new w w'

  Swept-cons :
      (total t_now old rounds i : ℕ) (pre : List (SingleBattery F)) (cell : SingleBattery F)
      (cells : List (SingleBattery F)) (s s1 s2 : Sweep F) (w w1 w2 : port.World)
      (g : Grown total t_now old pre cell cells i w s s1 w1)
      → Swept total t_now old rounds (i + 1) (pre ++ g.0 ∷ []) cells w1 s1 s2 w2
      → Swept total t_now old (suc rounds) i pre (cell ∷ cells) w s s2 w2
  unfolding sum_voltages AreParts AreAsked
  Swept-cons total t_now old rounds i pre cell cells s s1 s2 w w1 w2
        (c, clean, _, sum1, (part, one, file1), asked)
        (new, len, all, cells2, sum2, (parts, others, file2), more) =
      (
        c ∷ new,
        ap suc len,
        (clean, all),
        cells2 ∙ append_assoc pre (c ∷ []) (new ++ drop rounds cells),
        sum2 ∙ ap (λ t. sum_voltages F t new) sum1,
        (
          part ++ parts,
          (part, parts, one, others, refl),
          file2 ∙ ap (λ z. z ++ parts) file1 ∙ append_assoc s.file part parts,
        ),
        (w1, s1.t_resistance, asked, more),
      )

  pub sweep-Swept :
      (total t_now old rounds i : ℕ) (pre cells : List (SingleBattery F)) (s : Sweep F)
      (w : port.World)
      → s.single_bat ≡ pre ++ cells
      → i ≡ length pre + 1
      → rounds ≤ length cells
      → Returns
          (sweep X S fuel total t_now old rounds i s w)
          (λ s' w'. Swept total t_now old rounds i pre cells w s s' w')
  unfolding sweep sum_voltages AreParts AreAsked
  sweep-Swept total t_now old zero i pre cells s w e place fits =
      ([], refl, tt, e, refl, ([], refl, sym (append-nil s.file)), refl)
  sweep-Swept total t_now old (suc rounds) i pre [] s w e place fits = elim fits [ ]
  sweep-Swept total t_now old (suc rounds) i pre (cell ∷ cells) s w e place fits =
      Returns-bind (sweep_cell X S fuel total t_now old i s w)
        (λ s1. sweep X S fuel total t_now old rounds (i + 1) s1) _ _
        (sweep_cell-Grown total t_now old i pre cells cell s w e place)
        λ s1 w1 g.
          Returns-map (sweep X S fuel total t_now old rounds (i + 1) s1 w1) _ _
            (sweep-Swept total t_now old rounds (i + 1) (pre ++ g.0 ∷ []) cells s1 w1
              (g.2 ∙ sym (append_assoc pre (g.0 ∷ []) cells)) (omega (arith, length-snoc pre g.0))
              (omega arith))
            λ s2 w2 swept.
              Swept-cons total t_now old rounds i pre cell cells s s1 s2 w w1 w2 g swept
