-- ===== src/Patrol/Spared.antt =====
-- The resistances that a patrol does not test.
use batterysystem.Common.{
  ℕ, zero, suc, ◌+◌, ◌-◌, ◌≤◌, ◌<◌, ◌≡◌, ◌≢◌, refl, sym, ap, ◌∙◌, inl, inr, List, [], ◌∷◌, Bool,
  true, false, some, ◌||◌, leb, ltb, ◌==◌, take, set, map, get_elem?, Bool-cases, Option-cases,
  arith,
}
use batterysystem.Common.Runs.{pure}
use batterysystem.Common.Runs.Yields.{Yields, yields_any, Yields-bind, Yields-map}
use batterysystem.Float.{Float}
use batterysystem.Serial.Port.{test_voltage, text_temp, text_res, text_cap}
use batterysystem.Serial.Command.{send_serial_text_command}
use batterysystem.Pack.{SingleBattery}
use batterysystem.Database.{store_record}
use batterysystem.Savefile.{FloatText, resistance_field}
use batterysystem.Patrol.Opening.{begun, opened}
use batterysystem.Patrol.{
  positive, Site, Sweep, Thread, test_resistance, measured, sweep_rest, sweep_cell, sweep,
  publish_pack, publish, patrol,
}

module _ {F : Float} where
  abbrev pub resistances : List (SingleBattery F) → List F.T
  resistances = map (λ (c : SingleBattery F). c.resistance)

  resistances-set_same :
      (cells : List (SingleBattery F)) (j : ℕ) (cell new : SingleBattery F)
      → get_elem? cells j ≡ some cell
      → new.resistance ≡ cell.resistance
      → resistances (set cells j new) ≡ resistances cells
  resistances-set_same [] j cell new e same = refl
  resistances-set_same (c ∷ cells) zero cell new e same =
      let found : c ≡ cell = cc in
      ap (λ r. r ∷ resistances cells)
        (same ∙ ap (λ (x : SingleBattery F). x.resistance) (sym found))
  resistances-set_same (c ∷ cells) (suc j) cell new e same =
      ap (λ rs. c.resistance ∷ rs) (resistances-set_same cells j cell new e same)

  take-set_beyond :
      (k j : ℕ) (cells : List (SingleBattery F)) (new : SingleBattery F)
      → k ≤ j
      → take k (resistances (set cells j new)) ≡ take k (resistances cells)
  take-set_beyond zero j cells new h = refl
  take-set_beyond (suc k) j [] new h = refl
  take-set_beyond (suc k) zero (c ∷ cells) new h = absurd (omega arith)
  take-set_beyond (suc k) (suc j) (c ∷ cells) new h =
      ap (λ rs. c.resistance ∷ rs) (take-set_beyond k j cells new (omega arith))

module _ {F : Float} (X : FloatText F) (S : Site F) (fuel total t_now old : ℕ) where
  open S use {port}

  test_resistance-Spared :
      (i : ℕ) (due : Bool) (r : F.T) (t : ℕ) (w : port.World)
      → Yields
          (test_resistance S fuel total i due r t w)
          (λ p _. (due ≡ false → p.0 ≡ r) × (i ≢ total → p.1 ≡ t))
  unfolding test_resistance
  test_resistance-Spared i false r t w = (λ e. refl, λ e. refl)
  test_resistance-Spared i true r t w =
      Yields-bind (send_serial_text_command F port fuel text_res i w) _ _ _ (yields_any _)
        λ value w1 _. elim (Bool-cases (i == total)) [
          | inl e ↦
              let last : i ≡ total = ground arith in
              rw e ((λ q. cc), (λ other. absurd (other last)))
          | inr e ↦ rw e ((λ q. cc), (λ other. refl))
        ]

  -- The first `old` resistances are as they were, and, before the last cell, so is the time of the test.
  abbrev Spared : ℕ → Sweep F → Sweep F → Type 0
  Spared i s s' =
      (take old (resistances s'.single_bat) ≡ take old (resistances s.single_bat))
      × (i ≢ total → s'.t_resistance ≡ s.t_resistance)

  round-Spared :
      (v u c : F.T) (r : F.T × ℕ) (line : List ℕ) (i : ℕ) (cell : SingleBattery F) (s : Sweep F)
      → 1 ≤ i
      → t_now < s.t_resistance
      → get_elem? s.single_bat (i - 1) ≡ some cell
      → ((leb s.t_resistance t_now || ltb old i) ≡ false → r.0 ≡ cell.resistance)
      → (i ≢ total → r.1 ≡ s.t_resistance)
      → Spared i s (measured X S v r line u c i cell s)
  unfolding measured
  round-Spared v u c r line i cell s first early e kept later =
      let new : SingleBattery F = record cell {
        voltage = positive F v;
        resistance = r.0;
        temperature = positive F u;
        capacity = positive F c;
      } in
      (
        elim (Bool-cases (ltb old i)) [
          | inl above ↦ take-set_beyond old (i - 1) s.single_bat new (ground arith)
          | inr below ↦
              let spared : (leb s.t_resistance t_now || ltb old i) ≡ false = ground arith in
              ap (take old) (resistances-set_same s.single_bat (i - 1) cell new e (kept spared))
        ],
        later,
      )

  sweep_cell-Spared :
      (i : ℕ) (s : Sweep F) (w : port.World)
      → 1 ≤ i
      → t_now < s.t_resistance
      → Yields (sweep_cell X S fuel total t_now old i s w) (λ s' _. Spared i s s')
  unfolding sweep_cell sweep_rest
  sweep_cell-Spared i s w first early =
      let due = leb s.t_resistance t_now || ltb old i in
      Yields-bind (send_serial_text_command F port fuel test_voltage i w) _ _ _ (yields_any _)
        λ v w1 _. elim (Option-cases (get_elem? s.single_bat (i - 1))) [
          | inl missing ↦ rw (missing, Yields) tt
          | inr (cell, e) ↦
              rw (e, Yields)
                (Yields-bind (test_resistance S fuel total i due cell.resistance s.t_resistance w1)
                  _ _ (λ s' _. Spared i s s')
                  (test_resistance-Spared i due cell.resistance s.t_resistance w1)
                  λ r wr (kept, later).
                    let text = resistance_field X (record cell { resistance = r.0 }) in
                    let (written, w2) = S.write_file text wr in
                    Yields-bind (send_serial_text_command F port fuel text_temp i w2) _ _ _
                      (yields_any _)
                      λ u w3 _.
                        Yields-bind (send_serial_text_command F port fuel text_cap i w3) _ _ _
                          (yields_any _)
                          λ c w4 _.
                            round-Spared v u c r (take written text) i cell s first early e kept
                              later)
        ]

  sweep-Spared :
      (rounds i : ℕ) (s : Sweep F) (w : port.World)
      → 1 ≤ i
      → i + rounds ≡ total + 1
      → t_now < s.t_resistance
      → Yields
          (sweep X S fuel total t_now old rounds i s w)
          (λ s' _. take old (resistances s'.single_bat) ≡ take old (resistances s.single_bat))
  unfolding sweep
  sweep-Spared zero i s w first place early = refl
  sweep-Spared (suc zero) i s w first place early =
      Yields-bind (sweep_cell X S fuel total t_now old i s w) pure _ _
        (sweep_cell-Spared i s w first early) λ s1 w1 spared. spared.0
  sweep-Spared (suc (suc rounds)) i s w first place early =
      Yields-bind (sweep_cell X S fuel total t_now old i s w)
        (λ s1. sweep X S fuel total t_now old (suc rounds) (i + 1) s1) _ _
        (sweep_cell-Spared i s w first early)
        λ s1 w1 (spared, later).
          let not_last : i ≢ total = λ e. absurd (omega arith) in
          let same = later not_last in
          Yields-map (sweep X S fuel total t_now old (suc rounds) (i + 1) s1 w1) _ _
            (sweep-Spared (suc rounds) (i + 1) s1 w1 (omega arith) (omega arith) (omega arith))
            λ s2 _ e. e ∙ spared

  pub patrol-Spared :
      (d : Thread F) (w : port.World)
      → d.t_now ≡ t_now
      → d.old_count ≡ old
      → t_now < d.t_resistance
      → Yields (patrol X S fuel total d w) (λ d' _.
        take old (resistances d'.group_battery.single_bat) ≡ take old (resistances d.single_bat))
  unfolding patrol publish publish_pack
  patrol-Spared d w now count early =
      rw (now, count)
        (let start = begun S total d w in
          let w0 = opened S total w in
          Yields-bind (sweep X S fuel total t_now old total 1 start w0) _ _ _
            (sweep-Spared total 1 start w0 (omega arith) (omega arith) early)
            λ s ws same.
              Yields-bind (store_record S.client total _ ws) _ _ _ (yields_any _) λ _ w' _. same)
