-- ===== src/Database/Sql/Buffer.antt =====
-- `querystring`, the buffer of 512 characters of which every function of batterySystem/manageData.c has
-- one, and what mysql_real_query is given of it.
pub mod Plain
pub mod Sent
use batterysystem.Common.{
  ℕ, suc, ◌+◌, List, [], ◌∷◌, ◌++◌, Option, none, some, length, drop, replicate, ltb, ◌==◌,
  if◌then◌else◌,
}
use batterysystem.Float.{Float}
use batterysystem.Database.{Statement}
use batterysystem.Database.Sql.{Printing, sql}

-- `char querystring[512] = {0}`
abbrev pub empty_query : List ℕ
empty_query = replicate 512 0

-- sprintf of a text into a buffer, with its NUL; `none` is a write outside the buffer.
unfoldable pub sprintf : List ℕ → List ℕ → Option (List ℕ)
sprintf buffer text =
    if ltb (length text) (length buffer)
    then some (text ++ 0 ∷ drop (suc (length text)) buffer)
    else none

-- The text in a buffer, up to its NUL.
unfoldable pub c_string : List ℕ → List ℕ
c_string [] = []
c_string (c ∷ buffer) = let rest = c_string buffer in if c == 0 then [] else c ∷ rest

-- one more buffer before those of the rest
abbrev pub also_sent : List ℕ → Option (List (List ℕ)) → Option (List (List ℕ))
also_sent buffer none = none
also_sent buffer (some buffers) = some (buffer ∷ buffers)

-- The 512 characters that mysql_real_query is given for each of some statements in a row, which sprintf
-- puts into the same buffer.
unfoldable pub queries :
    {F : Float} → Printing F → List ℕ → List (Statement F) → Option (List (List ℕ))
unfolding sprintf
queries X buffer [] = some []
queries X buffer (s ∷ statements) = elim (sprintf buffer (sql X s)) [
  | none ↦ none
  | some querystring ↦ also_sent querystring (queries X querystring statements)
]
