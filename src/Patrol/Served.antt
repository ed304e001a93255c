-- ===== src/Patrol/Served.antt =====
-- What a client of cmd_network can be told of the cells, after any turns of the loop of thread_bs01 and
-- with any current that thread_dis01 has set.
use mathlib.Core.Path.{subst}
use batterysystem.Common.{
  ℕ, zero, suc, ◌-◌, ◌≤◌, ◌<◌, ◌≡◌, refl, sym, ap, ◌∙◌, inl, inr, List, [], ◌∷◌, ◌++◌, map, some,
  ◌&&◌, ◌||◌, leb, ltb, ◌==◌, take, drop, get_elem?, get_elem?_of_lt, get_or, length, All,
  Bool-cases, if◌then◌else◌, arith,
}
use batterysystem.Common.Runs.{Returns, Returns-bind, Returns-map, Returns-both, pure}
use batterysystem.Float.{Float, IsOrdered}
use batterysystem.Pack.{max_battery_total, SingleBattery, BatteryPack}
use batterysystem.Balance.{zero_value, control_voltage}
use batterysystem.Balance.Decision.{clean}
use batterysystem.Balance.Measured.{with_voltages, control_voltage-Returns}
use batterysystem.Savefile.{FloatText}
use batterysystem.Current.{set_current}
use batterysystem.Network.{
  Shared, Reply, whole, cell, current, message, format_error, number_error, no_command, is_refused,
  answer_cell, dispatch, answer,
}
use batterysystem.Patrol.{Site, Thread, patrol, control, cycle, turns}
use batterysystem.Patrol.Cells.{IsSound, IsValue, IsMeasured}
use batterysystem.Patrol.Cycle.{IsSizedThread, Kept, patrol-Kept, control-Kept, patrol-Returns}

take-append : {A : Type 0} (xs ys : List A) → take (length xs) (xs ++ ys) ≡ xs
take-append [] ys = refl
take-append (x ∷ xs) ys = ap (◌∷◌ x) (take-append xs ys)

All-get_elem? :
    {A : Type 0} (P : A → Type 0) (n i : ℕ) (xs : List A) (x : A)
    → All P (take n xs)
    → i < n
    → get_elem? xs i ≡ some x
    → P x
All-get_elem? P zero i xs x h k e = absurd (omega arith)
All-get_elem? P (suc n) i [] x h k e = absurd (cc)
All-get_elem? P (suc n) zero (y ∷ xs) x (p, h) k e = let same : y ≡ x = cc in subst P same p
All-get_elem? P (suc n) (suc i) (y ∷ xs) x (p, h) k e = All-get_elem? P n i xs x h (omega arith) e

clean-IsValue : (F : Float) (v : F.T) → IsValue F (clean F v)
clean-IsValue F v = elim (Bool-cases (F.lt (zero_value F) v)) [
  | inl e ↦ rw e (inl e)
  | inr e ↦ rw e (inr refl)
]

module _ {F : Float} where
  -- New voltages leave cells with values only, as many of them as are looked at.
  with_voltages-IsMeasured :
      (n : ℕ) (values : List F.T) (cells : List (SingleBattery F))
      → All (IsMeasured F) (take n cells)
      → All (IsMeasured F) (take n (with_voltages F (map (clean F) values) cells))
  unfolding with_voltages
  with_voltages-IsMeasured zero values cells h = tt
  with_voltages-IsMeasured (suc n) [] cells h = h
  with_voltages-IsMeasured (suc n) (v ∷ values) [] h = h
  with_voltages-IsMeasured (suc n) (v ∷ values) (c ∷ cells) ((_, temperature, capacity), h) =
      ((clean-IsValue F v, temperature, capacity), with_voltages-IsMeasured n values cells h)

  -- In the first cells of the record every voltage, temperature and capacity is positive or 0.
  abbrev pub HasValues : ℕ → BatteryPack F → Type 0
  HasValues total group = All (IsMeasured F) (take total group.single_bat)

  -- A reply in which every value of a cell that is measured is positive or 0.
  unfoldable pub IsClean : ℕ → Reply F → Type 0
  IsClean total (message text) = Unit
  IsClean total (whole group) = HasValues total group
  IsClean total (cell c) = IsMeasured F c
  IsClean total (current a) = Unit

  answer_cell-IsClean :
      (s : Shared F) (n : ℕ)
      → HasValues s.battery_total s.group_battery
      → s.battery_total ≤ length s.group_battery.single_bat
      → (reply : Reply F) × (answer_cell s n ≡ some reply) × IsClean s.battery_total reply
  unfolding answer_cell IsClean
  answer_cell-IsClean s n values fits = elim (Bool-cases (ltb 0 n && leb n s.battery_total)) [
    | inr e ↦ (message number_error, rw e refl, tt)
    | inl e ↦
        let below : n - 1 < s.battery_total = ground arith in
        let (c, found) = get_elem?_of_lt s.group_battery.single_bat (n - 1) (omega arith) in
        (
          cell c,
          rw (e, found) refl,
          All-get_elem? (IsMeasured F) s.battery_total (n - 1) s.group_battery.single_bat c values
              below found,
        )
  ]

  pub answer-IsClean :
      (s : Shared F) (request : List ℕ)
      → HasValues s.battery_total s.group_battery
      → s.battery_total ≤ length s.group_battery.single_bat
      → (reply : Reply F) × (answer s request ≡ some reply) × IsClean s.battery_total reply
  unfolding answer dispatch IsClean
  answer-IsClean s request values fits =
      let c = get_or request 6 0 in
      elim (Bool-cases (is_refused request)) [
        | inl e ↦ (message format_error, rw e refl, tt)
        | inr e ↦ elim (Bool-cases (c == 1)) [
          | inl e1 ↦ (whole s.group_battery, rw (e, e1) refl, values)
          | inr e1 ↦ elim (Bool-cases (c == 2)) [
            | inl e2 ↦
                let (reply, found, clean_reply) =
                  answer_cell-IsClean s (get_or request 7 0) values fits in
                (reply, rw (e, e1, e2) found, clean_reply)
            | inr e2 ↦ elim (Bool-cases (c == 3)) [
              | inl e3 ↦ (current s.group_battery.group_current, rw (e, e1, e2, e3) refl, tt)
              | inr e3 ↦ elim (Bool-cases (c == 4)) [
                | inl e4 ↦ (current s.group_battery.group_current, rw (e, e1, e2, e3, e4) refl, tt)
                | inr e4 ↦ (message no_command, rw (e, e1, e2, e3, e4) refl, tt)
              ]
            ]
          ]
        ]
      ]

  -- What a client's message gets, with the current that thread_dis01 has set last.
  abbrev pub Served : ℕ → F.T → List ℕ → Thread F → Type 0
  Served total amperes request d =
      let s : Shared F = record {
        battery_total = total;
        group_battery = set_current F amperes d.group_battery;
      } in
      (reply : Reply F) × (answer s request ≡ some reply) × IsClean total reply

module _ {F : Float} (ord : IsOrdered F) (X : FloatText F) (S : Site F) (n fuel : ℕ)
    (sound : IsSound S n fuel) (total : ℕ) (few : total ≤ max_battery_total) where
  open S use {port}

  patrol-HasValues :
      (d : Thread F) (w : port.World)
      → IsSizedThread F d
      → Returns (patrol X S fuel total d w) (λ d' _. HasValues total d'.group_battery)
  patrol-HasValues d w sized =
      Returns-map (patrol X S fuel total d w) _ _
        (patrol-Returns ord X S n fuel sound total few d w sized)
        λ d' _ (new, len, measured, cells, _, _, _, _, _, _, _, _, _).
          let first : take total d'.group_battery.single_bat ≡ new =
            ap (take total) cells
            ∙ ap (λ k. take k (new ++ drop total d.single_bat)) (sym len)
            ∙ take-append new (drop total d.single_bat) in
          subst (All (IsMeasured F)) (sym first) measured

  control-HasValues :
      (d : Thread F) (w : port.World)
      → 0 < total
      → IsSizedThread F d
      → HasValues total d.group_battery
      → Returns (control S fuel total d w) (λ d' _. HasValues total d'.group_battery)
  unfolding control
  control-HasValues d w some_cells sized values =
      let t = S.client.time w in
      let group = record d.group_battery { group_current = S.group_current t.1 } in
      elim (Bool-cases (leb d.t_control d.t_now)) [
        | inr e ↦ rw e values
        | inl e ↦ rw e (
            Returns-bind (control_voltage F port fuel total group t.1) _ _
              (λ d' _. HasValues total d'.group_battery)
              (control_voltage-Returns F port sound.bounded sound.opened n fuel sound.settles
                sound.enough total group t.1 some_cells (omega (arith, sized.1)))
              λ group' w' (answers, _, _, published).
                subst (HasValues total) (sym published)
                  (with_voltages-IsMeasured total answers group.single_bat values))
      ]

  -- What the turns keep.
  abbrev Holds : Thread F → Type 0
  Holds d = IsSizedThread F d × HasValues total d.group_battery

  cycle-Holds :
      (d : Thread F) (w : port.World)
      → 0 < total
      → Holds d
      → Returns (cycle X S fuel total d w) (λ d' _. Holds d')
  unfolding cycle
  cycle-Holds d w some_cells (sized, values) =
      let go = leb d.t_voltage d.t_now || leb d.t_resistance d.t_now in
      Returns-bind ((if go then patrol X S fuel total d else pure d) w) _ (λ d1 _. Holds d1) _
        (elim (Bool-cases go) [
          | inr e ↦ rw e (sized, values)
          | inl e ↦ rw e (
              Returns-map (patrol X S fuel total d w) _ _
                (Returns-both (patrol X S fuel total d w) _ _
                  (patrol-Kept ord X S n fuel sound total few d w sized)
                  (patrol-HasValues d w sized))
                λ d1 _ (kept, clean_cells). (kept.0, clean_cells))
        ])
        λ d1 w1 (sized1, values1).
          Returns-bind (control S fuel total d1 w1) _
            (λ d2 _. Kept d1 d2 × HasValues total d2.group_battery) (λ d' _. Holds d')
            (Returns-both (control S fuel total d1 w1) _ _
              (control-Kept ord X S n fuel sound total few d1 w1 some_cells sized1)
              (control-HasValues d1 w1 some_cells sized1 values1))
            λ d2 w2 (kept, values2). (kept.0, values2)

  turns-Holds :
      (rounds : ℕ) (d : Thread F) (w : port.World)
      → 0 < total
      → Holds d
      → Returns (turns X S fuel total rounds d w) (λ d' _. Holds d')
  unfolding turns
  turns-Holds zero d w some_cells h = h
  turns-Holds (suc rounds) d w some_cells h =
      Returns-bind (cycle X S fuel total d w) (λ d1. turns X S fuel total rounds d1) _ _
        (cycle-Holds d w some_cells h) λ d1 w1 h1. turns-Holds rounds d1 w1 some_cells h1

  -- On an open port whose buffer settles and whose resistance tests end, with a server that can be
  -- reached, at least one and at most 60 cells and arrays of 60, of which the record's first cells hold no
  -- error codes at the start: after any number of turns of the loop of thread_bs01, and whatever current
  -- thread_dis01 has set, every message of a client gets a reply, in which each voltage, temperature
  -- and capacity of a cell that is measured is positive or 0. No client is told an error code of one.
  pub turns-Served :
      (rounds : ℕ) (d : Thread F) (w : port.World) (amperes : F.T) (request : List ℕ)
      → 0 < total
      → IsSizedThread F d
      → HasValues total d.group_battery
      → Returns (turns X S fuel total rounds d w) (λ d' _. Served total amperes request d')
  unfolding set_current
  turns-Served rounds d w amperes request some_cells sized values =
      Returns-map (turns X S fuel total rounds d w) _ _
        (turns-Holds rounds d w some_cells (sized, values))
        λ d' _ (sized', values').
          answer-IsClean
            (record {
              battery_total = total;
              group_battery = set_current F amperes d'.group_battery;
            })
            request values' (omega (arith, sized'.1))
