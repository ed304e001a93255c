-- ===== src/Patrol/Reload.antt =====
-- A start of thread_bs01 with the RES_FILE of a patrol whose writes were cut short.
use batterysystem.Common.{
  ℕ, ◌≤◌, ◌≡◌, ◌⊎◌, refl, ap, ◌∙◌, inl, inr, List, [], ◌∷◌, ◌++◌, some, true, if◌then◌else◌, take,
  length, lt_or_ge, All, All-append, arith,
}
use mathlib.Core.List.{append_assoc}
use batterysystem.Common.Runs.{Returns, Returns-map}
use batterysystem.Float.{Float, IsOrdered}
use batterysystem.Pack.{max_battery_total, SingleBattery, BatteryPack}
use batterysystem.Savefile.{FloatText, fields, newline, header_line, resistance_field, load}
use batterysystem.Savefile.Fields.{IsInLine, IsText}
use batterysystem.Savefile.Fields.RoundTrip.{head_text, head_text-IsInLine}
use batterysystem.Savefile.Fields.Stored.{stored, Read, load_one_line, load_two_lines-Read}
use batterysystem.Savefile.Fields.Cut.{filled, stored-filled, filled-resistance, header_line_cut}
use batterysystem.Patrol.{Site, Thread, patrol}
use batterysystem.Patrol.Start.{deadlines, begin}
use batterysystem.Patrol.Opening.{created, first_write, first_line, next_times, AreParts}
use batterysystem.Patrol.Cells.{IsSound}
use batterysystem.Patrol.Cycle.{IsSizedThread, patrol-Returns}

module _ {F : Float} (X : FloatText F) (S : Site F) (text : IsText X) where
  AreParts-few :
      (cells : List (SingleBattery F)) (parts : List ℕ)
      → AreParts X S cells parts
      → All IsInLine parts × (filled (fields parts) ≤ length cells)
  unfolding AreParts fields filled
  AreParts-few [] parts e = rw e (tt, omega arith)
  AreParts-few (cell ∷ cells) parts (part, rest, (w, one), others, e) =
      let (lines, few) = AreParts-few cells rest others in
      let (line, more) =
        filled-resistance X text cell (S.write_file (resistance_field X cell) w).0 rest in
      rw (e, one)
        (
          All-append IsInLine
              (take (S.write_file (resistance_field X cell) w).0 (resistance_field X cell)) rest
              line lines,
          omega (arith, few, more),
        )

  -- A file that is too long, or is read without a write outside the array, with at most so many
  -- resistances.
  abbrev pub Loads : ℕ → List ℕ → List (SingleBattery F) → Type 0
  Loads total file cells =
      (1024 ≤ length file)
      ⊎ ((count : ℕ) × (count ≤ total) × Read X (load X (some file) cells) count cells)

  cut-Loads :
      (total vol res k : ℕ) (new cells : List (SingleBattery F)) (parts : List ℕ)
      → AreParts X S new parts
      → length new ≤ length cells
      → Loads (length new) (take k (header_line total vol res) ++ parts) cells
  cut-Loads total vol res k new cells parts written fits =
      let head = head_text total vol res in
      let (lines, few) = AreParts-few new parts written in
      let file = take k (header_line total vol res) ++ parts in
      elim (lt_or_ge (length file) 1024) [
        | inr long ↦ inl long
        | inl short ↦ inr (elim (header_line_cut X text total vol res k) [
          | inr line ↦ (
            0,
            omega arith,
            load_one_line X file cells
                (All-append IsInLine (take k (header_line total vol res)) parts line lines) short,
          )
          | inl whole ↦
              let two : file ≡ head ++ newline ∷ parts =
                ap (λ z. z ++ parts) whole ∙ append_assoc head (newline ∷ []) parts in
              let count = stored-filled (fields parts) in
              (
                stored (fields parts),
                omega (arith, few, count),
                rw two (
                    load_two_lines-Read X head parts cells (head_text-IsInLine total vol res) lines
                      (omega (arith, short, ap length two)) (omega (arith, few, count))),
              )
        ])
      ]

  -- The file that the patrol leaves is too long, or the thread starts with it, with at most as many
  -- resistances as cells and with arrays of 60.
  abbrev pub Reloaded : ℕ → List (SingleBattery F) → BatteryPack F → ℕ → Thread F → Type 0
  Reloaded total cells group t d' =
      (file : List ℕ) × (d'.file ≡ some file)
      × ((1024 ≤ length file)
          ⊎ ((d0 : Thread F) × (begin X total d'.file cells group t ≡ some d0)
              × (d0.old_count ≤ total)
              × IsSizedThread F d0))

  Loads-begin :
      (total : ℕ) (file : List ℕ) (cells : List (SingleBattery F)) (group : BatteryPack F) (t : ℕ)
      → length cells ≡ max_battery_total
      → length group.single_bat ≡ max_battery_total
      → (count : ℕ) × (count ≤ total) × Read X (load X (some file) cells) count cells
      → (d0 : Thread F) × (begin X total (some file) cells group t ≡ some d0)
        × (d0.old_count ≤ total)
        × IsSizedThread F d0
  unfolding begin
  Loads-begin total file cells group t full whole (count, few, read) =
      let (saved, e, same, size) = read in
      let (t_voltage, t_resistance) = deadlines total t saved in
      (
        record {
          single_bat = saved.single_bat;
          old_count = saved.old_count;
          t_voltage = t_voltage;
          t_resistance = t_resistance;
          t_control = t;
          t_now = t;
          file = some file;
          group_battery = group;
        },
        rw (begin, e) refl,
        omega arith,
        (size ∙ full, whole),
      )

  -- On an open port whose buffer settles and whose resistance tests end, with a server that can be
  -- reached, at most 60 cells and arrays of 60, with a RES_FILE that can be created and a printf that
  -- prints something, without tabs, newlines and NULs: however much of each text the writes of a patrol
  -- add to RES_FILE, the file has 1024 bytes or more, or the next start of the thread reads it without a
  -- write outside its array and takes at most as many resistances from it as there are cells.
  pub patrol-Reloaded :
      IsOrdered F
      → (n fuel total : ℕ) → IsSound S n fuel
      → total ≤ max_battery_total
      → (d : Thread F) (w : S.port.World) (cells : List (SingleBattery F)) (group : BatteryPack F)
        (t : ℕ)
      → IsSizedThread F d
      → created S total w ≡ true
      → length cells ≡ max_battery_total
      → length group.single_bat ≡ max_battery_total
      → Returns (patrol X S fuel total d w) (λ d' _. Reloaded total cells group t d')
  patrol-Reloaded ord n fuel total sound few d w cells group t sized opens full whole =
      Returns-map (patrol X S fuel total d w) _ _
        (patrol-Returns ord X S n fuel sound total few d w sized)
        λ d' _ p.
          let (new, len, _, _, _, _, _, _, _, parts, written, file, _) = p in
          let (v, r) = next_times S total w in
          let left = first_line S total w ++ parts in
          let same : d'.file ≡ some left = file ∙ ap (λ b. if b then some left else d.file) opens in
          let loads =
            cut-Loads total v r (first_write S total w).0 new cells parts written
              (omega (arith, full, len)) in
          (
            left,
            same,
            elim loads [
              | inl long ↦ inl long
              | inr (count, below, read) ↦ inr (
                  rw same
                    (Loads-begin total left cells group t full whole (count, omega arith, read)))
            ],
          )
