-- ===== src/Savefile.antt =====
-- The file of the internal resistances, RES_FILE: what thread_bs01 of batterySystem/bs01thread.c writes
-- into it and how it reads it back when it starts.
pub mod Decimal
pub mod Fields
use batterysystem.Common.{
  ℕ, zero, suc, ◌+◌, ◌*◌, ◌-◌, ◌/◌, ◌%◌, Option, none, some, List, [], ◌∷◌, ◌++◌, map, Bool, true,
  false, ◌&&◌, ◌||◌, ltb, leb, ◌==◌, length, get_elem?, set, take, replicate, if◌then◌else◌,
}
use batterysystem.Common.Int.{ℤ, pos, sub_ℕ}
use batterysystem.Float.{Float}
use batterysystem.Pack.{SingleBattery}

abbrev pub tab : ℕ
tab = 9

abbrev pub newline : ℕ
newline = 10

-- sprintf "%.2f" and atof
pub record FloatText (F : Float) : Type 0 where
  pub print : F.T → List ℕ
  pub atof : List ℕ → F.T

abbrev pub is_digit : ℕ → Bool
is_digit c = leb 48 c && leb c 57

-- "%d" of a number that is not negative: its digits, by as much fuel as the number itself
unfoldable pub digits : ℕ → ℕ → List ℕ
digits zero n = []
digits (suc fuel) n = elim (ltb n 10) [
  | true ↦ (48 + n) ∷ []
  | false ↦ digits fuel (n / 10) ++ (48 + n % 10) ∷ []
]

abbrev pub decimal : ℕ → List ℕ
decimal n = digits (suc n) n

-- atoi: white space, a sign, digits. (Beyond an int C leaves the result open.)
unfoldable pub digits_value : ℕ → List ℕ → ℕ
digits_value value [] = value
digits_value value (c ∷ text) =
    if is_digit c then digits_value (value * 10 + (c - 48)) text else value

abbrev pub is_space : ℕ → Bool
is_space c = (leb 9 c && leb c 13) || c == 32

unfoldable pub signed_value : List ℕ → ℤ
unfolding digits_value
signed_value [] = pos 0
signed_value (c ∷ text) =
    if c == 45
    then sub_ℕ 0 (digits_value 0 text)
    else if c == 43
    then pos (digits_value 0 text)
    else pos (digits_value 0 (c ∷ text))

unfoldable pub atoi : List ℕ → ℤ
unfolding signed_value
atoi [] = pos 0
atoi (c ∷ text) = if is_space c then atoi text else signed_value (c ∷ text)

-- strsep(_, "\n") on an array of characters: the token before the next newline and the rest of the
-- array, `none` for NULL, at the NUL. The outer `none` is a read past the end of the array.
unfoldable pub next_line : List ℕ → Option (List ℕ × Option (List ℕ))
next_line [] = none
next_line (c ∷ text) =
    if c == 0
    then some ([], none)
    else if c == newline
    then some ([], some text)
    else (elim (next_line text) [ none ↦ none | some (token, rest) ↦ some (c ∷ token, rest) ])

-- The tokens that strsep(_, "\t") makes of a line, one after the other until it gives NULL.
unfoldable pub fields : List ℕ → List (List ℕ)
fields [] = [] ∷ []
fields (c ∷ text) = elim (fields text) [
  | [] ↦ []
  | token ∷ tokens ↦ if c == tab then [] ∷ token ∷ tokens else (c ∷ token) ∷ tokens
]

-- sprintf "%d\t%ld\t%ld\n"
unfoldable pub header_line : ℕ → ℕ → ℕ → List ℕ
header_line battery_total t_voltage t_next =
    decimal battery_total
    ++ (tab ∷ (decimal t_voltage ++ (tab ∷ (decimal t_next ++ (newline ∷ [])))))

-- What the thread knows from the file; the resistances go into its `mybattery_pack`.
pub record Saved (F : Float) : Type 0 where
  pub old_batterytotal : ℤ
  pub t_old_vol : ℤ
  pub t_old_res : ℤ
  pub old_count : ℕ
  pub single_bat : List (SingleBattery F)

module _ {F : Float} where
  -- the three fields of the first line, each of which can be missing
  unfoldable pub read_header : List (List ℕ) → Saved F → Saved F
  unfolding atoi
  read_header [] saved = saved
  read_header (total ∷ []) saved = record saved { old_batterytotal = atoi total }
  read_header (total ∷ vol ∷ []) saved = record saved {
    old_batterytotal = atoi total;
    t_old_vol = atoi vol;
  }
  read_header (total ∷ vol ∷ res ∷ rest) saved = record saved {
    old_batterytotal = atoi total;
    t_old_vol = atoi vol;
    t_old_res = atoi res;
  }

module _ {F : Float} (X : FloatText F) where
  -- The `while` that stores the resistances up to an empty field; `none` is a write outside the array.
  unfoldable pub read_resistances : List (List ℕ) → Saved F → Option (Saved F)
  read_resistances [] saved = some saved
  read_resistances ([] ∷ tokens) saved = some saved
  read_resistances ((c ∷ token) ∷ tokens) saved =
      elim (get_elem? saved.single_bat saved.old_count) [
        | none ↦ none
        | some cell ↦ read_resistances tokens (record saved {
          old_count = saved.old_count + 1;
          single_bat =
              set saved.single_bat saved.old_count
                (record cell { resistance = X.atof (c ∷ token) });
        })
      ]

  unfoldable pub read_lines : List ℕ → Saved F → Option (Saved F)
  unfolding next_line fields read_header read_resistances
  read_lines allfile saved = elim (next_line allfile) [
    | none ↦ none
    | some (line, none) ↦ some (read_header (fields line) saved)
    | some (line, some rest) ↦ elim (next_line rest) [
      | none ↦ none
      | some (line2, rest2) ↦ read_resistances (fields line2) (read_header (fields line) saved)
    ]
  ]

  -- `if (resfd > 0)`, where `none` is a file that does not open: at most 1024 bytes, in an array of as
  -- many zeros.
  unfoldable pub load : Option (List ℕ) → List (SingleBattery F) → Option (Saved F)
  unfolding read_lines
  load file cells =
      let nothing : Saved F = record {
        old_batterytotal = pos 0;
        t_old_vol = pos 0;
        t_old_res = pos 0;
        old_count = 0;
        single_bat = cells;
      } in
      elim file [
        | none ↦ some nothing
        | some [] ↦ some nothing
        | some (b ∷ bytes) ↦
            let read = take 1024 (b ∷ bytes) in
            read_lines (read ++ replicate (1024 - length read) 0) nothing
      ]

  -- sprintf "%.2f\t"
  unfoldable pub resistance_field : SingleBattery F → List ℕ
  resistance_field cell = X.print cell.resistance ++ tab ∷ []
