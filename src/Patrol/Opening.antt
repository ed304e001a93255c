-- ===== src/Patrol/Opening.antt =====
-- What a patrol does before its first cell: it reads the time, creates RES_FILE and writes its first line.
use batterysystem.Common.{
  ℕ, ◌+◌, ◌*◌, ◌≤◌, ◌≡◌, refl, ◌∙◌, List, [], ◌∷◌, ◌++◌, Bool, take, take_of_le, length,
}
use batterysystem.Float.{Float}
use batterysystem.Pack.{SingleBattery}
use batterysystem.Savefile.{FloatText, header_line, resistance_field}
use batterysystem.Savefile.Fields.{resistance_fields}
use batterysystem.Patrol.{Site, Sweep, Thread, initial}

module _ {F : Float} (S : Site F) (total : ℕ) where
  open S use {port}

  -- The times of the next patrol and of the next resistance test, which the first line has.
  abbrev pub next_times : port.World → ℕ × ℕ
  next_times w = (
    (S.client.time w).0 + 60 * 10,
    (S.client.time (S.create_file (S.client.time w).1).1).0 + 24 * 3600,
  )

  -- Whether RES_FILE could be created.
  abbrev pub created : port.World → Bool
  created w = (S.create_file (S.client.time w).1).0

  -- The writing of the first line.
  abbrev pub first_write : port.World → ℕ × port.World
  first_write w =
      S.write_file (header_line total (next_times w).0 (next_times w).1)
        (S.client.time (S.create_file (S.client.time w).1).1).1

  -- What is written of the first line.
  abbrev pub first_line : port.World → List ℕ
  first_line w = take (first_write w).0 (header_line total (next_times w).0 (next_times w).1)

  -- The variables, and the world, before the first cell.
  abbrev pub begun : Thread F → port.World → Sweep F
  begun d w = initial F (first_line w) d

  abbrev pub opened : port.World → port.World
  opened w = (first_write w).1

module _ {F : Float} (S : Site F) where
  open S use {port}

  -- What a write adds to RES_FILE: the beginning of the text, as much as the system takes.
  abbrev pub IsPart : List ℕ → List ℕ → Type 0
  IsPart text part = (w : port.World) × (part ≡ take (S.write_file text w).0 text)

  -- Every write takes the whole text.
  abbrev pub IsRoomy : Type 0
  IsRoomy = (text : List ℕ) (w : port.World) → length text ≤ (S.write_file text w).0

  pub IsPart-whole : IsRoomy → (text part : List ℕ) → IsPart text part → part ≡ text
  IsPart-whole roomy text part (w, e) = e ∙ take_of_le (S.write_file text w).0 text (roomy text w)

module _ {F : Float} (X : FloatText F) (S : Site F) where
  -- What the writes of the resistances of some cells add to RES_FILE, one after the other.
  unfoldable pub AreParts : List (SingleBattery F) → List ℕ → Type 0
  AreParts [] parts = parts ≡ []
  AreParts (cell ∷ cells) parts =
      (part : List ℕ) × (rest : List ℕ) × IsPart S (resistance_field X cell) part
      × AreParts cells rest
      × (parts ≡ part ++ rest)

  pub AreParts-whole :
      IsRoomy S
      → (cells : List (SingleBattery F)) (parts : List ℕ) → AreParts cells parts
      → parts ≡ resistance_fields X cells
  unfolding AreParts resistance_fields
  AreParts-whole roomy [] parts e = e
  AreParts-whole roomy (cell ∷ cells) parts (part, rest, one, others, e) =
      rw
        (
          e,
          IsPart-whole S roomy (resistance_field X cell) part one,
          AreParts-whole roomy cells rest others,
        )
        refl
