-- ===== src/Balance/Measured.antt =====
-- A round of `control_voltage` on an open port: it ends, and publishes a voltage for every cell.
use mathlib.Core.List.{append_assoc}
use mathlib.Core.Path.{subst}
use batterysystem.Common.{
  ℕ, zero, suc, ◌+◌, ◌-◌, ◌≤◌, ◌<◌, ◌≡◌, refl, sym, ap, ◌∙◌, List, [], ◌∷◌, map, some, get_elem?,
  ◌++◌, get_elem?-append, get_or-append, set-append, length-snoc, get_or, set, length, length-map,
  arith,
}
use batterysystem.Common.Int.{ℤ}
use batterysystem.Common.Runs.{Returns, Returns-bind, Returns-map, Returns-result, done, ◌>>◌}
use batterysystem.Float.{Float}
use batterysystem.Serial.Port.{Port, IsBounded, IsOpen, test_voltage}
use batterysystem.Serial.Exchange.Closed.{Settles}
use batterysystem.Serial.Command.{send_serial_text_command, send_serial_control_command}
use batterysystem.Serial.Command.Outcome.{
  send_serial_text_command-Outcome, send_serial_control_command-Outcome,
}
use batterysystem.Pack.{SingleBattery, BatteryPack}
use batterysystem.Balance.{
  Scan, zero_value, start, note, decide, store_voltages, measure, regulate, publish_voltages,
  control_voltage,
}
use batterysystem.Balance.Decision.{note_all, clean, bat_zu-eq-clean}

module _ (F : Float) where
  -- The cells with the voltages of a list, as far as it goes.
  unfoldable pub with_voltages : List F.T → List (SingleBattery F) → List (SingleBattery F)
  with_voltages [] cells = cells
  with_voltages (v ∷ vs) [] = []
  with_voltages (v ∷ vs) (cell ∷ cells) = record cell { voltage = v } ∷ with_voltages vs cells

  store_voltages-from :
      (done_zu zu : List F.T) (done_cells cells : List (SingleBattery F)) (i : ℕ)
      → i ≡ length done_cells + 1
      → length done_zu ≡ length done_cells
      → length zu ≤ length cells
      → store_voltages F (length zu) i (done_zu ++ zu) (done_cells ++ cells)
        ≡ some (done_cells ++ with_voltages zu cells)
  unfolding store_voltages with_voltages
  store_voltages-from done_zu [] done_cells cells i e l h = refl
  store_voltages-from done_zu (v ∷ zu) done_cells [] i e l h = absurd (omega arith)
  store_voltages-from done_zu (v ∷ zu) done_cells (cell ∷ cells) i e l h =
      let at_cells : i - 1 ≡ length done_cells = omega arith in
      let new = record cell { voltage = v } in
      let found : get_elem? (done_cells ++ cell ∷ cells) (i - 1) ≡ some cell =
        ap (get_elem? (done_cells ++ cell ∷ cells)) at_cells
        ∙ get_elem?-append done_cells cell cells in
      let read : get_or (done_zu ++ v ∷ zu) (i - 1) (zero_value F) ≡ v =
        ap (λ n. get_or (done_zu ++ v ∷ zu) n (zero_value F)) (at_cells ∙ sym l)
        ∙ get_or-append done_zu v zu (zero_value F) in
      let written : set (done_cells ++ cell ∷ cells) (i - 1) new
          ≡ (done_cells ++ new ∷ []) ++ cells =
        ap (λ n. set (done_cells ++ cell ∷ cells) n new) at_cells
        ∙ set-append done_cells cell new cells
        ∙ sym (append_assoc done_cells (new ∷ []) cells) in
      let next =
        store_voltages-from (done_zu ++ v ∷ []) zu (done_cells ++ new ∷ []) cells (i + 1)
          (omega (arith, length-snoc done_cells new))
          (omega (arith, length-snoc done_cells new, length-snoc done_zu v)) (omega arith) in
      rw (found, store_voltages, read, written)
        (ap (λ z. store_voltages F (length zu) (i + 1) z ((done_cells ++ new ∷ []) ++ cells))
            (sym (append_assoc done_zu (v ∷ []) zu))
          ∙ next
          ∙ ap some (append_assoc done_cells (new ∷ []) (with_voltages zu cells)))

  pub store_voltages_lem :
      (zu : List F.T) (cells : List (SingleBattery F))
      → length zu ≤ length cells
      → store_voltages F (length zu) 1 zu cells ≡ some (with_voltages zu cells)
  store_voltages_lem zu cells h = store_voltages-from [] zu [] cells 1 refl refl h

module _ (F : Float) (P : Port) where
  open P use {World}

  -- The cells from the `i`-th on are asked for their voltages, one after the other, and give these values.
  unfoldable pub Answered : ℕ → ℕ → List F.T → World → World → Type 0
  Answered fuel i [] w w' = w ≡ w'
  Answered fuel i (v ∷ values) w w' =
      (w1 : World) × (send_serial_text_command F P fuel test_voltage i w ≡ done v w1)
      × Answered fuel (i + 1) values w1 w'

  -- The cells from the `i`-th on, with these voltages, are each sent the command for its own voltage and
  -- the lowest value.
  unfoldable pub Commanded : ℕ → F.T → ℕ → List F.T → World → World → Type 0
  Commanded fuel lowest i [] w w' = w ≡ w'
  Commanded fuel lowest i (u ∷ voltages) w w' =
      (r : ℤ) × (w1 : World) × (send_serial_control_command P fuel (decide F lowest u) i w
        ≡ done r w1)
      × Commanded fuel lowest (i + 1) voltages w1 w'

  -- `MinValue` after the first loop on these values.
  abbrev pub min_value_of : List F.T → F.T
  min_value_of values = (note_all F 1 values (start F (length values))).min_value

  -- The cells from the `i`-th on gave these values in order, and nothing else went into the scan.
  abbrev Noted : ℕ → ℕ → ℕ → Scan F → World → Scan F → World → Type 0
  Noted fuel i rounds s w s' w' =
      (values : List F.T) × (length values ≡ rounds)
      × Answered fuel i values w w'
      × (s' ≡ note_all F i values s)

  -- A round: the answers, the commands for them, and the record published, that of before with the cleaned
  -- answers as the voltages.
  abbrev pub Published : ℕ → ℕ → BatteryPack F → World → BatteryPack F → World → Type 0
  Published fuel battery_total group w group' w' =
      (values : List F.T) × (length values ≡ battery_total)
      × ((w1 : World) × Answered fuel 1 values w w1
          × Commanded fuel (min_value_of values) 1 (map (clean F) values) w1 w')
      × (group'
          ≡ record group { single_bat = with_voltages F (map (clean F) values) group.single_bat })

  module _ (b : IsBounded P) (o : IsOpen P) (n fuel : ℕ) (settles : (w : World) → Settles P n w)
      (enough : n + 3 ≤ fuel) where
    measure-Noted :
        (rounds i : ℕ) (s : Scan F) (w : World)
        → Returns (measure F P fuel rounds i s w) (λ s' w'. Noted fuel i rounds s w s' w')
    unfolding measure note_all Answered
    measure-Noted zero i s w = ([], refl, refl, refl)
    measure-Noted (suc rounds) i s w =
        Returns-bind (send_serial_text_command F P fuel test_voltage i w)
          (λ value. measure F P fuel rounds (i + 1) (note F i value s)) _ _
          (Returns-result (send_serial_text_command F P fuel test_voltage i w) _ (
            send_serial_text_command-Outcome P b o F n fuel test_voltage i w (settles w)
              (omega arith) (omega arith) refl))
          λ value w1 (sent, _).
            Returns-map (measure F P fuel rounds (i + 1) (note F i value s) w1) _ _
              (measure-Noted rounds (i + 1) (note F i value s) w1)
              λ s' w' (values, len, answers, e).
                (value ∷ values, ap suc len, (w1, sent, answers), e)

    regulate-Commanded :
        (pre zu : List F.T) (i : ℕ) (s : Scan F) (w : World)
        → s.bat_zu ≡ pre ++ zu
        → i ≡ length pre + 1
        → Returns
            (regulate F P fuel (length zu) i s w)
            (λ _ w'. Commanded fuel s.min_value i zu w w')
    unfolding regulate Commanded
    regulate-Commanded pre [] i s w e place = refl
    regulate-Commanded pre (u ∷ zu) i s w e place =
        let index : i - 1 ≡ length pre = omega arith in
        let read : get_or s.bat_zu (i - 1) (zero_value F) ≡ u =
          ap (λ z. get_or z (i - 1) (zero_value F)) e
          ∙ ap (λ k. get_or (pre ++ u ∷ zu) k (zero_value F)) index
          ∙ get_or-append pre u zu (zero_value F) in
        rw read (
          Returns-bind (send_serial_control_command P fuel (decide F s.min_value u) i w)
            (λ _. regulate F P fuel (length zu) (i + 1) s) _ _
            (Returns-result (send_serial_control_command P fuel (decide F s.min_value u) i w) _ (
              send_serial_control_command-Outcome P b o n fuel (decide F s.min_value u) i w
                (settles w) (omega arith)))
            λ r w1 (sent, _).
              Returns-map (regulate F P fuel (length zu) (i + 1) s w1) _ _
                (regulate-Commanded (pre ++ u ∷ []) zu (i + 1) s w1
                  (e ∙ sym (append_assoc pre (u ∷ []) zu)) (omega (arith, length-snoc pre u)))
                λ _ w' more. (r, w1, sent, more))

    publish_voltages_lem :
        (group : BatteryPack F) (s : Scan F) (zu : List F.T) (w : World)
        → s.bat_zu ≡ zu
        → length zu ≤ length group.single_bat
        → publish_voltages F P (length zu) s group w
          ≡ done (record group { single_bat = with_voltages F zu group.single_bat }) w
    unfolding publish_voltages
    publish_voltages_lem group s zu w kept fits =
        rw (kept, store_voltages_lem F zu group.single_bat fits, publish_voltages) refl

    -- On an open port whose buffer settles, with fuel for it, at least one cell and at most as many as
    -- the array holds, a round of control_voltage ends without a fault. It asks the cells for their
    -- voltages in order, and then sends each in order the command for its own voltage, where an error
    -- code counts as 0, and the lowest value. The record that it publishes differs from the one before
    -- in the voltages of those cells alone: each has the value that the cell answered, or 0 for an
    -- error code.
    pub control_voltage-Returns :
        (battery_total : ℕ) (group : BatteryPack F) (w : World)
        → 0 < battery_total
        → battery_total ≤ length group.single_bat
        → Returns
            (control_voltage F P fuel battery_total group w)
            (λ group' w'. Published fuel battery_total group w group' w')
    unfolding control_voltage
    control_voltage-Returns zero group w some_cells h = absurd (omega arith)
    control_voltage-Returns (suc others) group w some_cells h =
        let total = suc others in
        Returns-bind (measure F P fuel total 1 (start F total) w)
          (λ s. regulate F P fuel total 1 s >> publish_voltages F P total s group) _
          (λ group' w'. Published fuel total group w group' w')
          (measure-Noted total 1 (start F total) w)
          λ s w1 (values, len, answers, e).
            let zu = map (clean F) values in
            let count : length zu ≡ total = length-map values (clean F) ∙ len in
            let noted : s ≡ note_all F 1 values (start F (length values)) =
              e ∙ ap (λ k. note_all F 1 values (start F k)) (sym len) in
            let kept : s.bat_zu ≡ zu =
              ap (λ (t : Scan F). t.bat_zu) noted ∙ bat_zu-eq-clean F values in
            let low : s.min_value ≡ min_value_of values = ap (λ (t : Scan F). t.min_value) noted in
            Returns-bind (regulate F P fuel total 1 s w1) (λ _. publish_voltages F P total s group)
              (λ _ w2. Commanded fuel s.min_value 1 zu w1 w2)
              (λ group' w'. Published fuel total group w group' w')
              (subst
                (λ k.
                  Returns (regulate F P fuel k 1 s w1)
                    (λ _ w2. Commanded fuel s.min_value 1 zu w1 w2))
                count (regulate-Commanded [] zu 1 s w1 kept refl))
              λ _ w2 commands.
                let ends : publish_voltages F P total s group w2
                    ≡ done (record group { single_bat = with_voltages F zu group.single_bat }) w2 =
                  ap (λ k. publish_voltages F P k s group w2) (sym count)
                  ∙ publish_voltages_lem group s zu w2 kept (omega arith) in
                rw (ends, Returns)
                  (
                    values,
                    len,
                    (w1, answers, subst (λ m. Commanded fuel m 1 zu w1 w2) low commands),
                    refl,
                  )
