-- ===== src/Database/Sql/Buffer/Sent.antt =====
-- What the server is given for the statements of a function.
use batterysystem.Common.{
  ℕ, suc, ◌≡◌, refl, ap, List, [], ◌∷◌, ◌++◌, true, ltb, some, length, drop, length-append,
  length-drop, All, arith,
}
use batterysystem.Float.{Float}
use batterysystem.Database.{Statement}
use batterysystem.Database.Sql.{Printing, sql}
use batterysystem.Database.Sql.Bounds.{IsShort, sql-bound}
use batterysystem.Database.Sql.Buffer.{sprintf, c_string, also_sent, queries}
use batterysystem.Database.Sql.Buffer.Plain.{is_plain, IsPrinted, sql-plain}

c_string-plain : (text rest : List ℕ) → is_plain text ≡ true → c_string (text ++ 0 ∷ rest) ≡ text
unfolding c_string
c_string-plain [] rest h = refl
c_string-plain (c ∷ text) rest h = ground (arith, c_string-plain text rest)

drop-append : (xs ys : List ℕ) → drop (length xs) (xs ++ ys) ≡ ys
drop-append [] ys = refl
drop-append (x ∷ xs) ys = drop-append xs ys

module _ {F : Float} (X : Printing F) where
  -- The buffers sent for statements, where `before` stood in the buffer: each has 512 characters, of which
  -- those up to the NUL are the statement, and those behind it are what the buffer held there before.
  abbrev pub AreSent : List ℕ → List (Statement F) → List (List ℕ) → Type 0
  AreSent before [] [] = Unit {0}
  AreSent before [] (b ∷ buffers) = ⊥
  AreSent before (s ∷ statements) [] = ⊥
  AreSent before (s ∷ statements) (b ∷ buffers) =
      (length b ≡ 512)
      × (c_string b ≡ sql X s)
      × (drop (length (sql X s)) b ≡ 0 ∷ drop (suc (length (sql X s))) before)
      × AreSent b statements buffers

  -- Statements that fit, with numbers that print without NULs, in a buffer of 512 characters: they are all
  -- put into the buffer without a write outside it, and what is given to the server for each is the
  -- whole buffer, in which the statement ends with a NUL; behind it stand the remains of the statements
  -- before.
  pub queries-AreSent :
      IsPrinted X
      → (buffer : List ℕ) (statements : List (Statement F)) → length buffer ≡ 512
      → All (IsShort X) statements
      → (buffers : List (List ℕ)) × (queries X buffer statements ≡ some buffers)
        × AreSent buffer statements buffers
  unfolding queries sprintf
  queries-AreSent p buffer [] full short = ([], refl, tt)
  queries-AreSent p buffer (s ∷ statements) full (fits, short) =
      let text = sql X s in
      let bound = sql-bound X s fits in
      let room : ltb (length text) (length buffer) ≡ true = ground arith in
      let behind = drop (suc (length text)) buffer in
      let b = text ++ 0 ∷ behind in
      let size : length b ≡ 512 =
        omega (arith, length-append text (0 ∷ behind), length-drop (suc (length text)) buffer) in
      let (buffers, e, sent) = queries-AreSent p b statements size short in
      (
        b ∷ buffers,
        rw (room, queries) (ap (also_sent b) e),
        (size, c_string-plain text behind (sql-plain X p s), drop-append text (0 ∷ behind), sent),
      )
