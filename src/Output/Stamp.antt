-- ===== src/Output/Stamp.antt =====
-- The buffer of `printftime`.
use batterysystem.Common.{suc, ◌+◌, ◌≤◌, ◌<◌, [], ◌∷◌, ◌++◌, length, length-append, arith}
use batterysystem.Savefile.{decimal}
use batterysystem.Savefile.Decimal.{length-digits}
use batterysystem.Output.{Moment, two_digits, stamp}

-- For a year of at most five digits, what strftime makes and the NUL after it fit into the 20
-- characters of `tmbuf`.
pub stamp-bound : (t : Moment) → t.year < 100000 → length (stamp t) + 1 ≤ 20
unfolding stamp two_digits
stamp-bound t h = omega (
  arith,
  length-digits 4 (suc t.year) t.year h,
  length-append (decimal t.year) (
      45
      ∷ (two_digits t.month
          ++ (45
              ∷ (two_digits t.day
                  ++ (45
                      ∷ (two_digits t.hour
                          ++ (two_digits t.minute ++ (two_digits t.second ++ 58 ∷ [])))))))),
)
