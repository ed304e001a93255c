-- ===== src/Savefile/Fields/RoundTrip.antt =====
-- RES_FILE loaded after it was written.
use mathlib.Core.List.{append_assoc}
use batterysystem.Common.{
  ℕ, zero, suc, ◌+◌, ◌-◌, ◌<◌, ◌≤◌, ◌≡◌, sym, ap, ◌∙◌, List, [], ◌∷◌, ◌++◌, All, arith, some,
  replicate, length, length-append, All-append, All-map, take_of_le,
}
use batterysystem.Common.Int.{pos}
use batterysystem.Float.{Float}
use batterysystem.Pack.{SingleBattery}
use batterysystem.Savefile.{
  decimal, tab, newline, FloatText, fields, Saved, read_header, read_resistances, read_lines, load,
  header_line, resistance_field,
}
use batterysystem.Savefile.Decimal.{digits-IsDigit, atoi-decimal}
use batterysystem.Savefile.Fields.{
  IsInLine, IsInField, digits-IsInField, next_line-newline, next_line-nul, fields-tab, fields-last,
  IsText, resistance_fields, with_resistances, read_resistances-from,
}

decimal-IsInField : (n : ℕ) → All IsInField (decimal n)
decimal-IsInField n = digits-IsInField (decimal n) (digits-IsDigit (suc n) n)

zeros : (n : ℕ) → 0 < n → replicate {A = ℕ} n 0 ≡ 0 ∷ replicate {A = ℕ} (n - 1) 0
zeros zero h = elim h [ ]
zeros (suc n) h = ap (λ (k : ℕ). 0 ∷ replicate {A = ℕ} k 0) (omega arith)

-- The header without its newline.
pub head_text : ℕ → ℕ → ℕ → List ℕ
head_text total vol res = decimal total ++ (tab ∷ (decimal vol ++ (tab ∷ decimal res)))

pub in_line : (xs : List ℕ) → All IsInField xs → All IsInLine xs
in_line xs h = All-map IsInField IsInLine xs h (λ c p. p.0)

pub tab-IsInLine : IsInLine tab
tab-IsInLine = (ground arith, ground arith)

pub head_text-IsInLine : (total vol res : ℕ) → All IsInLine (head_text total vol res)
unfolding head_text
head_text-IsInLine total vol res =
    All-append IsInLine (decimal total) (tab ∷ (decimal vol ++ (tab ∷ decimal res)))
      (in_line (decimal total) (decimal-IsInField total))
      (
        tab-IsInLine,
        All-append IsInLine (decimal vol) (tab ∷ decimal res)
            (in_line (decimal vol) (decimal-IsInField vol))
            (tab-IsInLine, in_line (decimal res) (decimal-IsInField res)),
      )

fields-head_text :
    (total vol res : ℕ)
    → fields (head_text total vol res) ≡ decimal total ∷ decimal vol ∷ decimal res ∷ []
unfolding head_text
fields-head_text total vol res =
    fields-tab (decimal total) (decimal vol ++ (tab ∷ decimal res)) (decimal-IsInField total)
    ∙ ap (◌∷◌ (decimal total)) (
        fields-tab (decimal vol) (decimal res) (decimal-IsInField vol)
        ∙ ap (◌∷◌ (decimal vol)) (fields-last (decimal res) (decimal-IsInField res)))

append_three :
    (a b c rest : List ℕ)
    → (a ++ (tab ∷ (b ++ (tab ∷ (c ++ (newline ∷ [])))))) ++ rest
      ≡ (a ++ (tab ∷ (b ++ (tab ∷ c)))) ++ newline ∷ rest
append_three a b c rest =
    append_assoc a (tab ∷ (b ++ (tab ∷ (c ++ (newline ∷ []))))) rest
    ∙ ap (λ z. a ++ (tab ∷ z))
        (append_assoc b (tab ∷ (c ++ (newline ∷ []))) rest
          ∙ ap (λ z. b ++ (tab ∷ z)) (append_assoc c (newline ∷ []) rest)
          ∙ sym (append_assoc b (tab ∷ c) (newline ∷ rest)))
    ∙ sym (append_assoc a (tab ∷ (b ++ (tab ∷ c))) (newline ∷ rest))

module _ {F : Float} (X : FloatText F) where
  pub header_line-append :
      (total vol res : ℕ) (rest : List ℕ)
      → header_line total vol res ++ rest ≡ head_text total vol res ++ newline ∷ rest
  unfolding header_line head_text
  header_line-append total vol res rest =
      append_three (decimal total) (decimal vol) (decimal res) rest

  abbrev pub nothing : List (SingleBattery F) → Saved F
  nothing cells = record {
    old_batterytotal = pos 0;
    t_old_vol = pos 0;
    t_old_res = pos 0;
    old_count = 0;
    single_bat = cells;
  }

  pub load_of_short :
      (file : List ℕ) (cells : List (SingleBattery F))
      → 0 < length file
      → length file < 1024
      → load X (some file) cells
        ≡ read_lines X (file ++ 0 ∷ replicate (1023 - length file) 0) (nothing cells)
  unfolding load
  load_of_short [] cells h k = elim h [ ]
  load_of_short (b ∷ file) cells h k =
      let e = take_of_le 1024 (b ∷ file) (omega arith) in
      ap (λ r. read_lines X (r ++ replicate (1024 - length r) 0) (nothing cells)) e
      ∙ ap (λ z. read_lines X ((b ∷ file) ++ z) (nothing cells))
          (zeros (1024 - suc (length file)) (omega arith)
            ∙ ap (λ (n : ℕ). 0 ∷ replicate {A = ℕ} n 0) (omega arith))

  resistance_fields-IsInLine :
      IsText X → (cells : List (SingleBattery F)) → All IsInLine (resistance_fields X cells)
  unfolding resistance_fields resistance_field
  resistance_fields-IsInLine text [] = tt
  resistance_fields-IsInLine text (cell ∷ cells) =
      All-append IsInLine (X.print cell.resistance ++ tab ∷ []) (resistance_fields X cells)
        (All-append IsInLine (X.print cell.resistance) (tab ∷ [])
          (in_line (X.print cell.resistance) (text.plain cell.resistance)) (tab-IsInLine, tt))
        (resistance_fields-IsInLine text cells)

  pub read_lines_of_two :
      (line line2 rest : List ℕ) (saved : Saved F)
      → All IsInLine line
      → All IsInLine line2
      → read_lines X (line ++ newline ∷ (line2 ++ 0 ∷ rest)) saved
        ≡ read_resistances X (fields line2) (read_header (fields line) saved)
  unfolding read_lines
  read_lines_of_two line line2 rest saved h k =
      rw (next_line-newline line (line2 ++ 0 ∷ rest) h, read_lines, next_line-nul line2 rest k)

  header : ℕ → ℕ → ℕ → List (SingleBattery F) → Saved F
  header total vol res cells = record {
    old_batterytotal = pos total;
    t_old_vol = pos vol;
    t_old_res = pos res;
    old_count = 0;
    single_bat = cells;
  }

  read_header-head_text :
      (total vol res : ℕ) (cells : List (SingleBattery F))
      → read_header (fields (head_text total vol res)) (nothing cells) ≡ header total vol res cells
  unfolding read_header header
  read_header-head_text total vol res cells =
      rw (fields-head_text total vol res, atoi-decimal total, atoi-decimal vol, atoi-decimal res)

  -- The file that a patrol writes is read back as it was written: the number of batteries, the two times,
  -- and as many resistances as fields, each what atof makes of what printf printed; if the file is
  -- shorter than 1024 bytes, its resistances fit into the array, and printf prints something, without
  -- tabs, newlines and NULs.
  pub load-eq-written :
      IsText X
      → (total vol res : ℕ) (new cells : List (SingleBattery F))
      → length (header_line total vol res ++ resistance_fields X new) < 1024
      → length new ≤ length cells
      → load X (some (header_line total vol res ++ resistance_fields X new)) cells
        ≡ some (record {
          old_batterytotal = pos total;
          t_old_vol = pos vol;
          t_old_res = pos res;
          old_count = length new;
          single_bat = with_resistances X new cells;
        })
  unfolding header
  load-eq-written text total vol res new cells h k =
      let second = resistance_fields X new in
      let file = header_line total vol res ++ second in
      let first = head_text total vol res in
      let pad = replicate {A = ℕ} (1023 - length file) 0 in
      let two : file ≡ first ++ newline ∷ second = header_line-append total vol res second in
      let count : 0 + length new ≡ length new = omega arith in
      let some_text : 0 < length file =
        omega (arith, ap length two, length-append first (newline ∷ second)) in
      load_of_short file cells some_text h
      ∙ ap (λ z. read_lines X z (nothing cells))
          (ap (λ z. z ++ 0 ∷ pad) two ∙ append_assoc first (newline ∷ second) (0 ∷ pad))
      ∙ read_lines_of_two first second pad (nothing cells) (head_text-IsInLine total vol res)
          (resistance_fields-IsInLine text new)
      ∙ ap (read_resistances X (fields second)) (read_header-head_text total vol res cells)
      ∙ read_resistances-from X text new [] cells (header total vol res cells) k
      ∙ ap
          (λ n. some (record (header total vol res cells) {
            old_count = n;
            single_bat = with_resistances X new cells;
          }))
          count
