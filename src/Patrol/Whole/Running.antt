-- ===== src/Patrol/Whole/Running.antt =====
-- That thread_bs01 goes on.
use mathlib.Core.Path.{subst}
use batterysystem.Common.{
  ℕ, ◌-◌, ◌++◌, take, replicate, ◌≤◌, ◌<◌, ◌≡◌, ◌⊎◌, refl, ap, ◌∙◌, inl, inr, List, [], ◌∷◌, Option,
  none, some, true, length, get_elem?, length-set, Option-cases, arith,
}
use batterysystem.Common.Int.{pos}
use batterysystem.Common.Runs.{Returns, Returns-bind}
use batterysystem.Float.{Float, IsOrdered}
use batterysystem.Pack.{max_battery_total, SingleBattery}
use batterysystem.Savefile.{
  FloatText, Saved, atoi, read_header, read_resistances, next_line, fields, read_lines, load,
}
use batterysystem.Database.{
  create_table, battery_config, select_total, connect_to_mysql, use_database, config_rows, total_of,
  get_battery_total,
}
use batterysystem.Patrol.{Site, Thread, turns}
use batterysystem.Patrol.Cells.{IsSound}
use batterysystem.Patrol.Cycle.{IsSizedThread}
use batterysystem.Patrol.Start.{begin}
use batterysystem.Patrol.Whole.{
  Start, res_file, bs01_serial_file, begin_now, with_total, thread_bs01,
}
use batterysystem.Serial.Open.{baud_9600, open_line, no_parity}

module _ {F : Float} where
  -- The array of cells keeps its length, where there is a result.
  abbrev IsKept : ℕ → Option (Saved F) → Type 0
  IsKept n none = Unit {0}
  IsKept n (some saved) = length saved.single_bat ≡ n

  length-read_header :
      (tokens : List (List ℕ)) (saved : Saved F)
      → (read_header tokens saved).single_bat ≡ saved.single_bat
  unfolding read_header
  length-read_header [] saved = refl
  length-read_header (a ∷ []) saved = refl
  length-read_header (a ∷ b ∷ []) saved = refl
  length-read_header (a ∷ b ∷ c ∷ rest) saved = refl

module _ {F : Float} (X : FloatText F) where
  read_resistances-IsKept :
      (n : ℕ) (tokens : List (List ℕ)) (saved : Saved F)
      → length saved.single_bat ≡ n
      → IsKept n (read_resistances X tokens saved)
  unfolding read_resistances
  read_resistances-IsKept n [] saved h = h
  read_resistances-IsKept n ([] ∷ tokens) saved h = h
  read_resistances-IsKept n ((c ∷ token) ∷ tokens) saved h =
      elim (Option-cases (get_elem? saved.single_bat saved.old_count)) [
        | inl missing ↦ rw (missing, IsKept) tt
        | inr (cell, found) ↦
            rw (found, IsKept)
              (read_resistances-IsKept n tokens _ (
                length-set saved.single_bat saved.old_count
                  (record cell { resistance = X.atof (c ∷ token) })
                ∙ h))
      ]

  read_lines-IsKept :
      (n : ℕ) (allfile : List ℕ) (saved : Saved F)
      → length saved.single_bat ≡ n
      → IsKept n (read_lines X allfile saved)
  unfolding read_lines
  read_lines-IsKept n allfile saved h = elim (Option-cases (next_line allfile)) [
    | inl past ↦ rw (past, IsKept) tt
    | inr ((line, none), found) ↦
        rw (found, IsKept) (ap length (length-read_header (fields line) saved) ∙ h)
    | inr ((line, some rest), found) ↦ elim (Option-cases (next_line rest)) [
      | inl past ↦ rw (found, past, IsKept) tt
      | inr ((line2, rest2), found2) ↦
          rw (found, found2, IsKept)
            (read_resistances-IsKept n (fields line2) (read_header (fields line) saved)
              (ap length (length-read_header (fields line) saved) ∙ h))
    ]
  ]

  load-IsKept :
      (file : Option (List ℕ)) (cells : List (SingleBattery F))
      → IsKept (length cells) (load X file cells)
  unfolding load
  load-IsKept none cells = refl
  load-IsKept (some []) cells = refl
  load-IsKept (some (b ∷ bytes)) cells =
      let read = take 1024 (b ∷ bytes) in
      read_lines-IsKept (length cells) (read ++ replicate (1024 - length read) 0)
        (record {
          old_batterytotal = pos 0;
          t_old_vol = pos 0;
          t_old_res = pos 0;
          old_count = 0;
          single_bat = cells;
        })
        refl

-- A server whose database can be used and whose configuration is missing or gives at least one and at
-- most 60 cells, a RES_FILE with at most as many resistances as the array has room for, and arrays of
-- the declared length.
pub record IsConfigured {F : Float} (X : FloatText F) (S : Site F) (A : Start S) : Type 0 where
  pub usable : (w : S.port.World) → (S.client.select_db w).0 ≡ true
  pub rows-few :
      (w : S.port.World)
      → ((S.client.store_result (S.client.query select_total w)).0 ≡ some [])
        ⊎ ((text : List ℕ) × (columns : List (List ℕ)) × (rest : List (List (List ℕ)))
            × ((S.client.store_result (S.client.query select_total w)).0
                ≡ some ((text ∷ columns) ∷ rest))
            × (total : ℕ) × (atoi text ≡ pos total)
            × (0 < total)
            × (total ≤ max_battery_total))
  pub loads :
      (w : S.port.World)
      → (saved : Saved F) × (load X (A.read_file res_file w) A.cells ≡ some saved)
  pub sized_cells : length A.cells ≡ max_battery_total
  pub sized_group : length A.group_battery.single_bat ≡ max_battery_total

module _ {F : Float} (ord : IsOrdered F) (X : FloatText F) (S : Site F) (n fuel : ℕ)
    (sound : IsSound S n fuel) (A : Start S) (ready : IsConfigured X S A) where
  open S use {port, client}

  get_battery_total-few :
      (w : port.World)
      → Returns
          (get_battery_total client w)
          (λ v _. (total : ℕ) × (v ≡ pos total) × (0 < total) × (total ≤ max_battery_total))
  unfolding get_battery_total connect_to_mysql use_database config_rows total_of
  get_battery_total-few w =
      let w1 = (client.connect w).1 in
      let w2 = (client.select_db w1).1 in
      let w3 = (client.store_result (client.query (create_table battery_config) w2)).1 in
      rw (sound.connected.connect-true w, ready.usable w1)
        (elim (ready.rows-few w3) [
          | inl missing ↦ rw missing (55, refl, omega arith, omega arith)
          | inr (text, columns, rest, found, total, e, some_cells, few) ↦
              rw found (total, e, some_cells, few)
        ])

  begin_now-IsSizedThread :
      (total t : ℕ) (w : port.World)
      → Returns
          (begin_now X S A total t w)
          (λ d _. IsSizedThread F d × (d.group_battery ≡ A.group_battery))
  unfolding begin_now begin
  begin_now-IsSizedThread total t w =
      let (saved, e) = ready.loads w in
      let kept : IsKept (length A.cells) (some saved) =
        subst (IsKept (length A.cells)) e (load-IsKept X (A.read_file res_file w) A.cells) in
      rw (e, Returns) ((kept ∙ ready.sized_cells, ready.sized_group), refl)

  -- What the turns of the loop come to from every start is what the thread comes to.
  pub thread_bs01_lem :
      (Q : Thread F → Type 0) (rounds : ℕ) (w : port.World)
      → ((total : ℕ) (d : Thread F) (w1 : port.World)
          → 0 < total
          → total ≤ max_battery_total
          → IsSizedThread F d
          → d.group_battery ≡ A.group_battery
          → Returns (turns X S fuel total rounds d w1) (λ d' _. Q d'))
      → Returns (thread_bs01 X S A fuel rounds w) (λ d _. Q d)
  unfolding thread_bs01 with_total
  thread_bs01_lem Q rounds w loop =
      Returns-bind (get_battery_total client w) (with_total X S A fuel rounds) _ _
        (get_battery_total-few w)
        λ v w1 (total, e, some_cells, few).
          let (t, w2) = client.time w1 in
          let w3 = (open_line A.lines bs01_serial_file baud_9600 no_parity 8 1 w2).1 in
          rw e (
            Returns-bind (begin_now X S A total t w3) (turns X S fuel total rounds) _ _
              (begin_now-IsSizedThread total t w3)
              λ d w4 (sized, same). loop total d w4 some_cells few sized same)
