-- ===== src/Output.antt =====
-- Output and descriptors in batterySystem/s800serialDAO.c: `closeSerial`, `printftime` and
-- `RedirectStdIO`. The operating system's calls are a parameter.
pub mod Redirect
pub mod Stamp
use batterysystem.Common.{
  ℕ, ◌+◌, ◌/◌, ◌%◌, List, [], ◌∷◌, ◌++◌, Option, none, some, Bool, true, false, ◌==◌, if◌then◌else◌,
}
use batterysystem.Common.Int.{ℤ, pos, negsuc, pos_part, ltb_ℤ, eqb_ℤ}
use batterysystem.Common.Text.{codes}
use batterysystem.Savefile.{decimal}

pub data Stream : Type 0 where
  stdout stderr : Stream

-- O_RDONLY|O_CREAT, and O_WRONLY|O_CREAT|O_APPEND
pub data Mode : Type 0 where
  reading appending : Mode

-- What printftime prints of `struct tm`, with the year as 1900 + tm_year and the month as 1 + tm_mon.
pub record Moment : Type 0 where
  pub year : ℕ
  pub month : ℕ
  pub day : ℕ
  pub hour : ℕ
  pub minute : ℕ
  pub second : ℕ

pub record System : Type 1 where
  pub World : Type 0
  -- localtime of time(NULL)
  pub local_time : World → Moment × World
  -- printf, and fprintf(stderr, _)
  pub print : Stream → List ℕ → World → World
  -- perror, which adds the message of errno
  pub perror : List ℕ → World → World
  -- open(_, mode, 0666)
  pub open_file : List ℕ → Mode → World → ℤ × World
  -- dup2(old, new)
  pub dup2 : ℕ → ℕ → World → ℤ × World
  pub close : ℕ → World → World

-- "%02d"
unfoldable pub two_digits : ℕ → List ℕ
two_digits n = (48 + n / 10 % 10) ∷ (48 + n % 10) ∷ []

-- strftime "%Y-%m-%d-%H%M%S:"
unfoldable pub stamp : Moment → List ℕ
unfolding two_digits
stamp t =
    decimal t.year
    ++ (45
        ∷ (two_digits t.month
            ++ (45
                ∷ (two_digits t.day
                    ++ (45
                        ∷ (two_digits t.hour
                            ++ (two_digits t.minute ++ (two_digits t.second ++ 58 ∷ []))))))))

module _ (S : System) where
  open S use {World}

  unfoldable pub close_serial : ℤ → World → World
  close_serial (pos fd) w = S.close fd w
  close_serial (negsuc n) w = w

  unfoldable pub printftime : ℕ → World → World
  unfolding stamp
  printftime fd w =
      let (t, w1) = S.local_time w in
      if fd == 1
      then S.print stdout (stamp t) w1
      else if fd == 2
      then S.print stderr (stamp t) w1
      else w1

  -- What follows `dup2(fd, n)`, which returned `r`: whether the program goes on.
  unfoldable pub redirected : ℤ → ℕ → List ℕ → World → Bool × World
  redirected r fd text w =
      if ltb_ℤ r (pos 0) then (false, S.perror text w) else (true, S.close fd w)

  -- One of the three blocks: the descriptor `n` is to stand for the file. The result is false where the
  -- program exits.
  unfoldable pub redirect : Option (List ℕ) → Mode → ℕ → List ℕ → World → Bool × World
  unfolding redirected
  redirect none mode n text w = (true, w)
  redirect (some path) mode n text w =
      let (fd, w1) = S.open_file path mode w in
      let (r, w2) = S.dup2 (pos_part fd) n w1 in
      if ltb_ℤ (pos 0) fd then redirected r (pos_part fd) text w2 else (true, w1)

  -- one block after the others, where the program has not exited
  unfoldable pub then_redirect : Bool → World → Option (List ℕ) → Mode → ℕ → List ℕ → Bool × World
  unfolding redirect
  then_redirect false w path mode n text = (false, w)
  then_redirect true w path mode n text = redirect path mode n text w

  unfoldable pub redirect_std_io :
      Option (List ℕ) → Option (List ℕ) → Option (List ℕ) → World → Bool × World
  unfolding then_redirect
  redirect_std_io in_file out_file err_file w =
      let (ok0, w0) = redirect in_file reading 0 (codes "RedirectStdIO dup2 in") w in
      let (ok1, w1) = then_redirect ok0 w0 out_file appending 1 (codes "RedirectStdIO dup2 out") in
      then_redirect ok1 w1 err_file appending 2 (codes "RedirectStdIO dup2 error")
