-- ===== src/Savefile/Fields/Size.antt =====
-- The size of RES_FILE, and of the buffer `tmp` that its first line is written from.
use batterysystem.Common.{
  ℕ, suc, ◌+◌, ◌*◌, ◌≤◌, ◌<◌, List, [], ◌∷◌, ◌++◌, length, length-append, All, arith,
}
use batterysystem.Float.{Float}
use batterysystem.Pack.{max_battery_total, SingleBattery}
use batterysystem.Savefile.{FloatText, decimal, tab, newline, header_line, resistance_field}
use batterysystem.Savefile.Decimal.{length-digits}
use batterysystem.Savefile.Fields.{resistance_fields}

length-number : (n : ℕ) → n < 10000000000 → length (decimal n) ≤ 10
length-number n h = length-digits 9 (suc n) n h

length-header_line :
    (total vol res : ℕ)
    → total < 10000000000
    → vol < 10000000000
    → res < 10000000000
    → length (header_line total vol res) ≤ 33
unfolding header_line
length-header_line total vol res a b c =
    let last = decimal res ++ (newline ∷ []) in
    let rest = decimal vol ++ (tab ∷ last) in
    omega (
      arith,
      length-number total a,
      length-number vol b,
      length-number res c,
      length-append (decimal total) (tab ∷ rest),
      length-append (decimal vol) (tab ∷ last),
      length-append (decimal res) (newline ∷ []),
    )

module _ {F : Float} (X : FloatText F) where
  -- A resistance that prints with at most 15 characters.
  abbrev pub IsModest : SingleBattery F → Type 0
  IsModest cell = length (X.print cell.resistance) ≤ 15

  length-resistance_fields :
      (new : List (SingleBattery F))
      → All IsModest new
      → length (resistance_fields X new) ≤ 16 * length new
  unfolding resistance_fields resistance_field
  length-resistance_fields [] h = omega arith
  length-resistance_fields (cell ∷ new) (short, h) =
      let field = X.print cell.resistance in
      omega (
        arith,
        short,
        length-append (field ++ tab ∷ []) (resistance_fields X new),
        length-append field (tab ∷ []),
        length-resistance_fields new h,
      )

  -- Where the numbers of the first line have at most ten digits and the resistances of at most 60 cells
  -- print with at most 15 characters: the first line and its NUL fit into the 256 characters of `tmp`,
  -- and the whole file is shorter than the 1024 bytes that the next start of the thread reads.
  pub file-bound :
      (total vol res : ℕ) (new : List (SingleBattery F))
      → total < 10000000000
      → vol < 10000000000
      → res < 10000000000
      → length new ≤ max_battery_total
      → All IsModest new
      → (length (header_line total vol res) + 1 ≤ 256)
        × (length (header_line total vol res ++ resistance_fields X new) < 1024)
  file-bound total vol res new a b c few modest =
      let header = length-header_line total vol res a b c in
      (
        omega (arith, header),
        omega (
          arith,
          header,
          length-append (header_line total vol res) (resistance_fields X new),
          length-resistance_fields new modest,
        ),
      )
