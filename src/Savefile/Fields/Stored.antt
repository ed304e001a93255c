-- ===== src/Savefile/Fields/Stored.antt =====
-- How many resistances are read back from a RES_FILE, whatever stands in it.
use mathlib.Core.List.{append_assoc}
use batterysystem.Common.{
  ℕ, suc, ◌+◌, ◌-◌, ◌<◌, ◌≤◌, ◌≡◌, refl, ap, ◌∙◌, inl, inr, List, [], ◌∷◌, ◌++◌, Bool, true, false,
  Option, some, none, ltb, length, length-append, length-set, set, get_elem?-eq-none,
  get_elem?_of_lt, lt_or_ge, replicate, All, arith,
}
use batterysystem.Float.{Float}
use batterysystem.Pack.{SingleBattery}
use batterysystem.Savefile.{
  newline, FloatText, fields, Saved, read_header, read_resistances, read_lines, load,
}
use batterysystem.Savefile.Fields.{IsInLine, next_line-nul}
use batterysystem.Savefile.Fields.RoundTrip.{nothing, load_of_short, read_lines_of_two}

-- The fields before the first empty one.
unfoldable pub stored : List (List ℕ) → ℕ
stored [] = 0
stored ([] ∷ tokens) = 0
stored ((c ∷ token) ∷ tokens) = suc (stored tokens)

unfoldable pub is_none : {A : Type 0} → Option A → Bool
is_none none = true
is_none (some a) = false

read_header-keeps :
    {F : Float} (tokens : List (List ℕ)) (saved : Saved F)
    → ((read_header tokens saved).old_count ≡ saved.old_count)
      × ((read_header tokens saved).single_bat ≡ saved.single_bat)
unfolding read_header
read_header-keeps [] saved = (refl, refl)
read_header-keeps (a ∷ []) saved = (refl, refl)
read_header-keeps (a ∷ b ∷ []) saved = (refl, refl)
read_header-keeps (a ∷ b ∷ c ∷ rest) saved = (refl, refl)

module _ {F : Float} (X : FloatText F) where
  -- It is read without a write outside the array, with this many resistances.
  abbrev pub Read : Option (Saved F) → ℕ → List (SingleBattery F) → Type 0
  Read result count cells =
      (saved : Saved F) × (result ≡ some saved)
      × (saved.old_count ≡ count)
      × (length saved.single_bat ≡ length cells)

  read_resistances-Read :
      (tokens : List (List ℕ)) (saved : Saved F)
      → saved.old_count + stored tokens ≤ length saved.single_bat
      → Read (read_resistances X tokens saved) (saved.old_count + stored tokens) saved.single_bat
  unfolding read_resistances stored
  read_resistances-Read [] saved h = (saved, refl, omega arith, refl)
  read_resistances-Read ([] ∷ tokens) saved h = (saved, refl, omega arith, refl)
  read_resistances-Read ((c ∷ token) ∷ tokens) saved h =
      let n = saved.old_count in
      let (cell, e) = get_elem?_of_lt saved.single_bat n (omega arith) in
      let new : SingleBattery F = record cell { resistance = X.atof (c ∷ token) } in
      let next : Saved F = record saved {
        old_count = n + 1;
        single_bat = set saved.single_bat n new;
      } in
      let same = length-set saved.single_bat n new in
      let (result, found, count, size) = read_resistances-Read tokens next (omega (arith, same)) in
      (result, rw (read_resistances, e) found, omega (arith, count), size ∙ same)

  read_resistances-eq-none :
      (tokens : List (List ℕ)) (saved : Saved F)
      → saved.old_count ≤ length saved.single_bat
      → length saved.single_bat < saved.old_count + stored tokens
      → read_resistances X tokens saved ≡ none
  unfolding read_resistances stored
  read_resistances-eq-none [] saved h k = absurd (omega arith)
  read_resistances-eq-none ([] ∷ tokens) saved h k = absurd (omega arith)
  read_resistances-eq-none ((c ∷ token) ∷ tokens) saved h k =
      let n = saved.old_count in
      elim (lt_or_ge n (length saved.single_bat)) [
        | inr full ↦ rw (read_resistances, (get_elem?-eq-none saved.single_bat n).1 full) refl
        | inl room ↦
            let (cell, e) = get_elem?_of_lt saved.single_bat n room in
            let new : SingleBattery F = record cell { resistance = X.atof (c ∷ token) } in
            let same = length-set saved.single_bat n new in
            rw (read_resistances, e)
              (read_resistances-eq-none tokens
                (record saved { old_count = n + 1; single_bat = set saved.single_bat n new })
                (omega (arith, same)) (omega (arith, same)))
      ]

  one_line :
      (line rest : List ℕ) (saved : Saved F)
      → All IsInLine line
      → read_lines X (line ++ 0 ∷ rest) saved ≡ some (read_header (fields line) saved)
  unfolding read_lines
  one_line line rest saved h = rw (read_lines, next_line-nul line rest h) refl

  load_two_lines :
      (line line2 : List ℕ) (cells : List (SingleBattery F))
      → All IsInLine line
      → All IsInLine line2
      → length (line ++ newline ∷ line2) < 1024
      → load X (some (line ++ newline ∷ line2)) cells
        ≡ read_resistances X (fields line2) (read_header (fields line) (nothing X cells))
  load_two_lines line line2 cells h k short =
      let file = line ++ newline ∷ line2 in
      let pad = replicate {A = ℕ} (1023 - length file) 0 in
      let size = length-append line (newline ∷ line2) in
      load_of_short X file cells (omega (arith, size)) short
      ∙ ap (λ z. read_lines X z (nothing X cells)) (append_assoc line (newline ∷ line2) (0 ∷ pad))
      ∙ read_lines_of_two X line line2 pad (nothing X cells) h k

  pub load_one_line :
      (line : List ℕ) (cells : List (SingleBattery F))
      → All IsInLine line
      → length line < 1024
      → Read (load X (some line) cells) 0 cells
  unfolding load
  load_one_line [] cells h short = (nothing X cells, refl, refl, refl)
  load_one_line (c ∷ line) cells h short =
      let pad = replicate {A = ℕ} (1023 - length (c ∷ line)) 0 in
      let first = read_header (fields (c ∷ line)) (nothing X cells) in
      let (count, same) = read_header-keeps (fields (c ∷ line)) (nothing X cells) in
      (
        first,
        load_of_short X (c ∷ line) cells (omega arith) short
            ∙ one_line (c ∷ line) pad (nothing X cells) h,
        count,
        ap length same,
      )

  pub load_two_lines-Read :
      (line line2 : List ℕ) (cells : List (SingleBattery F))
      → All IsInLine line
      → All IsInLine line2
      → length (line ++ newline ∷ line2) < 1024
      → stored (fields line2) ≤ length cells
      → Read (load X (some (line ++ newline ∷ line2)) cells) (stored (fields line2)) cells
  load_two_lines-Read line line2 cells h k short fits =
      let first = read_header (fields line) (nothing X cells) in
      let (count, same) = read_header-keeps (fields line) (nothing X cells) in
      let size = ap length same in
      let (saved, e, n, kept) =
        read_resistances-Read (fields line2) first (omega (arith, count, size)) in
      (saved, load_two_lines line line2 cells h k short ∙ e, omega (arith, n, count), kept ∙ size)

  -- A RES_FILE of two lines without NULs, whatever else stands in them, shorter than 1024 bytes: it is
  -- read with a write outside the array if, and only if, its second line has more fields before the
  -- first empty one than the array has cells.
  pub load-eq-none :
      (line line2 : List ℕ) (cells : List (SingleBattery F))
      → All IsInLine line
      → All IsInLine line2
      → length (line ++ newline ∷ line2) < 1024
      → is_none (load X (some (line ++ newline ∷ line2)) cells)
        ≡ ltb (length cells) (stored (fields line2))
  unfolding is_none
  load-eq-none line line2 cells h k short =
      let first = read_header (fields line) (nothing X cells) in
      let (count, same) = read_header-keeps (fields line) (nothing X cells) in
      let size = ap length same in
      let two = load_two_lines line line2 cells h k short in
      elim (lt_or_ge (length cells) (stored (fields line2))) [
        | inl more ↦
            let none_left =
              two
              ∙ read_resistances-eq-none (fields line2) first (omega (arith, count, size))
                  (omega (arith, count, size)) in
            rw none_left (ground arith)
        | inr fits ↦
            let (saved, e, _, _) = load_two_lines-Read line line2 cells h k short fits in
            rw e (ground arith)
      ]
