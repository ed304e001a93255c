-- ===== src/Savefile/Fields/Cut.antt =====
-- A RES_FILE whose lines were written in part, as on a file system that is full, and read back.
use mathlib.Core.List.{append_assoc, append-nil}
use batterysystem.Common.{
  ℕ, suc, ◌≤◌, ◌≡◌, ◌⊎◌, refl, sym, ap, ◌∙◌, inl, inr, List, [], ◌∷◌, ◌++◌, false, take, take_of_le,
  length, length-append, lt_or_ge, ◌==◌, All, All-append, All-take, take-append_of_le, arith,
}
use batterysystem.Float.{Float}
use batterysystem.Pack.{SingleBattery}
use batterysystem.Savefile.{tab, newline, FloatText, fields, header_line, resistance_field}
use batterysystem.Savefile.Fields.{IsInLine, IsInField, fields_cons, fields-tab, IsText}
use batterysystem.Savefile.Fields.RoundTrip.{
  head_text, head_text-IsInLine, header_line-append, in_line, tab-IsInLine,
}
use batterysystem.Savefile.Fields.Stored.{stored}

-- The beginning of a text with one more character: of the text, or the whole.
take-snoc :
    (k : ℕ) (xs : List ℕ) (y : ℕ)
    → (take k (xs ++ y ∷ []) ≡ take k xs) ⊎ (take k (xs ++ y ∷ []) ≡ xs ++ y ∷ [])
take-snoc k xs y = elim (lt_or_ge (length xs) k) [
  | inl whole ↦ inr (take_of_le k (xs ++ y ∷ []) (omega (arith, length-append xs (y ∷ []))))
  | inr cut ↦ inl (take-append_of_le k xs (y ∷ []) cut)
]

-- The fields that are not empty.
unfoldable pub filled : List (List ℕ) → ℕ
filled [] = 0
filled ([] ∷ tokens) = filled tokens
filled ((c ∷ token) ∷ tokens) = suc (filled tokens)

pub stored-filled : (tokens : List (List ℕ)) → stored tokens ≤ filled tokens
unfolding stored filled
stored-filled [] = omega arith
stored-filled ([] ∷ tokens) = omega arith
stored-filled ((c ∷ token) ∷ tokens) = omega (arith, stored-filled tokens)

filled-cons :
    (token : List ℕ) (tokens : List (List ℕ))
    → (filled tokens ≤ filled (token ∷ tokens)) × (filled (token ∷ tokens) ≤ suc (filled tokens))
unfolding filled
filled-cons [] tokens = (omega arith, omega arith)
filled-cons (c ∷ token) tokens = (omega arith, omega arith)

-- Characters of a field in front of a text lengthen its first field.
fields-append :
    (part text token : List ℕ) (tokens : List (List ℕ))
    → All IsInField part
    → fields text ≡ token ∷ tokens
    → fields (part ++ text) ≡ (part ++ token) ∷ tokens
unfolding fields
fields-append [] text token tokens h e = e
fields-append (c ∷ part) text token tokens (p, h) e =
    let other : (c == tab) ≡ false = ground arith in
    rw (fields-append part text token tokens h e, other) refl

filled-part :
    (part text : List ℕ)
    → All IsInField part
    → filled (fields (part ++ text)) ≤ suc (filled (fields text))
filled-part part text h =
    let (token, tokens, e) = fields_cons text in
    let (low, _) = filled-cons token tokens in
    let (_, high) = filled-cons (part ++ token) tokens in
    rw (fields-append part text token tokens h e, e) (omega (arith, low, high))

module _ {F : Float} (X : FloatText F) (text : IsText X) where
  -- The beginning of the field of a resistance adds a field at most, and no new line.
  pub filled-resistance :
      (cell : SingleBattery F) (k : ℕ) (rest : List ℕ)
      → All IsInLine (take k (resistance_field X cell))
        × (filled (fields (take k (resistance_field X cell) ++ rest)) ≤ suc (filled (fields rest)))
  unfolding resistance_field
  filled-resistance cell k rest =
      let print = X.print cell.resistance in
      let plain = text.plain cell.resistance in
      let cut = All-take IsInField k print plain in
      elim (take-snoc k print tab) [
        | inl e ↦ rw e (in_line (take k print) cut, filled-part (take k print) rest cut)
        | inr e ↦ rw e (
          All-append IsInLine print (tab ∷ []) (in_line print plain) (tab-IsInLine, tt),
          rw (append_assoc print (tab ∷ []) rest, fields-tab print rest plain)
              (filled-cons print (fields rest)).1,
        )
      ]

  -- The first line, whole, or without its newline and perhaps more.
  pub header_line_cut :
      (total vol res k : ℕ)
      → (take k (header_line total vol res) ≡ head_text total vol res ++ newline ∷ [])
        ⊎ All IsInLine (take k (header_line total vol res))
  header_line_cut total vol res k =
      let head = head_text total vol res in
      let whole : header_line total vol res ≡ head ++ newline ∷ [] =
        sym (append-nil (header_line total vol res)) ∙ header_line-append X total vol res [] in
      elim (take-snoc k head newline) [
        | inl e ↦ inr (rw (whole, e) (All-take IsInLine k head (head_text-IsInLine total vol res)))
        | inr e ↦ inl (ap (take k) whole ∙ e)
      ]
