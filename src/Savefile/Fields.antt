-- ===== src/Savefile/Fields.antt =====
-- The lines and fields of RES_FILE, read back as they were written.
pub mod RoundTrip
pub mod Size
pub mod Stored
pub mod Cut
use mathlib.Core.List.{append_assoc}
use batterysystem.Common.{
  ℕ, zero, suc, ◌+◌, ◌*◌, ◌-◌, ◌/◌, ◌%◌, ◌<◌, ◌≤◌, ◌≡◌, ◌≢◌, refl, sym, ap, ◌∙◌, List, [], ◌∷◌,
  ◌++◌, Bool, true, false, ltb, leb, ◌==◌, All, arith, inl, inr, Bool-cases, ◌&&◌, if◌then◌else◌,
  ltb→lt, Option, some, none, take, replicate, length, get_elem?, set, length-append,
  get_elem?-append, set-append, length-snoc, All-map,
}
use batterysystem.Common.Int.{ℤ, pos}
use batterysystem.Float.{Float}
use batterysystem.Pack.{SingleBattery}
use batterysystem.Savefile.{
  is_digit, digits, decimal, atoi, tab, newline, FloatText, next_line, fields, Saved, read_header,
  read_resistances, read_lines, load, header_line, resistance_field,
}
use batterysystem.Savefile.Decimal.{IsDigit, digits-IsDigit, atoi-decimal}

-- A character of a line, and one of a field.
abbrev pub IsInLine : ℕ → Type 0
IsInLine c = (c ≢ 0) × (c ≢ newline)

abbrev pub IsInField : ℕ → Type 0
IsInField c = IsInLine c × (c ≢ tab)

pub digits-IsInField : (xs : List ℕ) → All IsDigit xs → All IsInField xs
digits-IsInField xs h =
    All-map IsDigit IsInField xs h λ c d. ((ground arith, ground arith), ground arith)

ne-eqb : (a b : ℕ) → a ≢ b → (a == b) ≡ false
ne-eqb a b h = ground arith

next_line-newline :
    (line rest : List ℕ)
    → All IsInLine line
    → next_line (line ++ newline ∷ rest) ≡ some (line, some rest)
unfolding next_line
next_line-newline [] rest h = refl
next_line-newline (c ∷ line) rest (h, hs) =
    rw (ne-eqb c 0 h.0, ne-eqb c newline h.1, next_line-newline line rest hs)

pub next_line-nul :
    (line rest : List ℕ) → All IsInLine line → next_line (line ++ 0 ∷ rest) ≡ some (line, none)
unfolding next_line
next_line-nul [] rest h = refl
next_line-nul (c ∷ line) rest (h, hs) =
    rw (ne-eqb c 0 h.0, ne-eqb c newline h.1, next_line-nul line rest hs)

pub fields_cons :
    (text : List ℕ) → (token : List ℕ) × (tokens : List (List ℕ)) × (fields text ≡ token ∷ tokens)
unfolding fields
fields_cons [] = ([], [], refl)
fields_cons (c ∷ text) =
    let (token, tokens, e) = fields_cons text in
    elim (Bool-cases (c == tab)) [
      | inl y ↦ ([], token ∷ tokens, rw (e, y))
      | inr n ↦ (c ∷ token, tokens, rw (e, n))
    ]

pub fields-tab :
    (token rest : List ℕ) → All IsInField token → fields (token ++ tab ∷ rest) ≡ token ∷ fields rest
unfolding fields
fields-tab [] rest h = let (token, tokens, e) = fields_cons rest in rw e
fields-tab (c ∷ token) rest (h, hs) = rw (fields-tab token rest hs, ne-eqb c tab h.1)

fields-last : (token : List ℕ) → All IsInField token → fields token ≡ token ∷ []
unfolding fields
fields-last [] h = refl
fields-last (c ∷ token) (h, hs) = rw (fields-last token hs, ne-eqb c tab h.1)

module _ {F : Float} (X : FloatText F) where
  -- What printf prints of a float: some characters, without tabs, newlines and NULs.
  pub record IsText : Type 0 where
    pub first : (x : F.T) → (c : ℕ) × (cs : List ℕ) × (X.print x ≡ c ∷ cs)
    pub plain : (x : F.T) → All IsInField (X.print x)

  -- The second line of the file, with the resistances of some cells.
  unfoldable pub resistance_fields : List (SingleBattery F) → List ℕ
  resistance_fields [] = []
  resistance_fields (cell ∷ cells) = resistance_field X cell ++ resistance_fields cells

  -- The cells with the resistances of a list, printed and read back, as far as it goes.
  unfoldable pub with_resistances :
      List (SingleBattery F) → List (SingleBattery F) → List (SingleBattery F)
  with_resistances [] cells = cells
  with_resistances (from ∷ new) [] = []
  with_resistances (from ∷ new) (cell ∷ cells) =
      record cell { resistance = X.atof (X.print from.resistance) } ∷ with_resistances new cells

  module _ (text : IsText) where
    fields-resistance :
        (cell : SingleBattery F) (rest : List ℕ)
        → fields (resistance_field X cell ++ rest) ≡ X.print cell.resistance ∷ fields rest
    unfolding resistance_field
    fields-resistance cell rest =
        ap fields (append_assoc (X.print cell.resistance) (tab ∷ []) rest)
        ∙ fields-tab (X.print cell.resistance) rest (text.plain cell.resistance)

    abbrev counted : Saved F → ℕ → List (SingleBattery F) → Saved F
    counted saved n cells = record saved { old_count = n; single_bat = cells }

    abbrev with_resistance : SingleBattery F → SingleBattery F → SingleBattery F
    with_resistance from cell = record cell { resistance = X.atof (X.print from.resistance) }

    read_resistances-step :
        (from cell : SingleBattery F) (pre cells : List (SingleBattery F)) (saved : Saved F)
        (tokens : List (List ℕ))
        → read_resistances X
            (X.print from.resistance ∷ tokens)
            (counted saved (length pre) (pre ++ cell ∷ cells))
          ≡ read_resistances X tokens
              (counted saved (length pre + 1) (pre ++ with_resistance from cell ∷ cells))
    unfolding read_resistances
    read_resistances-step from cell pre cells saved tokens =
        let (c, cs, e) = text.first from.resistance in
        rw (
          e,
          read_resistances,
          get_elem?-append pre cell cells,
          set-append pre cell (record cell { resistance = X.atof (c ∷ cs) }) cells,
        )

    read_resistances-from :
        (new pre cells : List (SingleBattery F)) (saved : Saved F)
        → length new ≤ length cells
        → read_resistances X
            (fields (resistance_fields new))
            (counted saved (length pre) (pre ++ cells))
          ≡ some (counted saved (length pre + length new) (pre ++ with_resistances new cells))
    unfolding read_resistances resistance_fields with_resistances fields
    read_resistances-from [] pre cells saved h =
        ap (λ n. some (counted saved n (pre ++ cells))) (omega arith)
    read_resistances-from (from ∷ new) pre [] saved h = elim h [ ]
    read_resistances-from (from ∷ new) pre (cell ∷ cells) saved h =
        let set_cell = with_resistance from cell in
        let grown : length (pre ++ set_cell ∷ []) ≡ length pre + 1 = length-snoc pre set_cell in
        let count : length (pre ++ set_cell ∷ []) + length new ≡ length pre + suc (length new) =
          omega (arith, grown) in
        let next = read_resistances-from new (pre ++ set_cell ∷ []) cells saved (omega arith) in
        ap (λ tokens. read_resistances X tokens (counted saved (length pre) (pre ++ cell ∷ cells)))
          (fields-resistance from (resistance_fields new))
        ∙ read_resistances-step from cell pre cells saved (fields (resistance_fields new))
        ∙ ap
            (λ n.
              read_resistances X (fields (resistance_fields new))
                (counted saved n (pre ++ set_cell ∷ cells)))
            (sym grown)
        ∙ ap
            (λ z.
              read_resistances X (fields (resistance_fields new))
                (counted saved (length (pre ++ set_cell ∷ [])) z))
            (sym (append_assoc pre (set_cell ∷ []) cells))
        ∙ next
        ∙ ap (λ n. some (counted saved n ((pre ++ set_cell ∷ []) ++ with_resistances new cells)))
            count
        ∙ ap (λ z. some (counted saved (length pre + suc (length new)) z))
            (append_assoc pre (set_cell ∷ []) (with_resistances new cells))
