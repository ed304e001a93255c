-- ===== src/Tests/Output.antt =====
-- Descriptors as a list of what each stands for, the newest first.
use batterysystem.Common.{
  ℕ, ◌+◌, ◌≤◌, ◌≡◌, refl, ap, List, [], ◌∷◌, Option, none, some, true, false, ◌==◌, ==_refl,
  if◌then◌else◌, arith, Option-cases, inl, inr,
}
use batterysystem.Common.Int.{pos, pos_part, negsuc}
use batterysystem.Common.Text.{codes}
use batterysystem.Output.{System, Moment, stamp, two_digits, redirect_std_io, close_serial}
use batterysystem.Output.Redirect.{IsUsed, IsDescriptors, redirect_std_io-Redirected}
use batterysystem.Savefile.{digits}

abbrev pub Descriptors : Type 0
Descriptors = List (ℕ × Option (List ℕ))

pub file_of : ℕ → Descriptors → Option (List ℕ)
file_of m [] = none
file_of m ((fd, file) ∷ w) = if m == fd then file else file_of m w

pub above : Descriptors → ℕ
above [] = 1
above ((fd, file) ∷ w) = fd + above w

above_pos : (w : Descriptors) → 1 ≤ above w
unfolding above
above_pos [] = omega arith
above_pos ((fd, file) ∷ w) = omega (arith, above_pos w)

pub file_of-above : (m : ℕ) (w : Descriptors) → above w ≤ m → file_of m w ≡ none
unfolding file_of above
file_of-above m [] h = refl
file_of-above m ((fd, file) ∷ w) h =
    let other : (m == fd) ≡ false = ground (arith, above_pos w) in
    rw (other, file_of-above m w (omega arith))

abbrev date : Moment
date = record { year = 2015; month = 12; day = 3; hour = 9; minute = 5; second = 7 }

-- With a descriptor given by open: the lowest above all, or a fixed one.
abbrev pub table_of : (Descriptors → ℕ) → System
table_of next = record {
  World = Descriptors;
  local_time = λ w. (date, w);
  print = λ _ _ w. w;
  perror = λ _ w. w;
  open_file = λ path mode w. (pos (next w), (next w, some path) ∷ w);
  dup2 = λ old new w. (pos new, (new, file_of old w) ∷ w);
  close = λ fd w. (fd, none) ∷ w;
}

pub table-IsDescriptors :
    (next : Descriptors → ℕ)
    → ((w : Descriptors) → file_of (next w) w ≡ none)
    → IsDescriptors (table_of next) file_of
unfolding file_of
table-IsDescriptors next free = record {
  open-free = λ path mode w. (next w, refl, free w);
  open-file = λ path mode w fd e.
      let same : next w ≡ fd = ap pos_part e in
      let found : (fd == next w) ≡ true = ground arith in rw found refl;
  open-others = λ path mode w fd m e other.
      let same : next w ≡ fd = ap pos_part e in
      let apart : (m == next w) ≡ false = ground arith in rw apart refl;
  dup2-new = λ old new w. refl;
  dup2-file = λ old new w. rw (==_refl new) refl;
  dup2-others = λ old new m w other. rw other refl;
  close-file = λ fd w. rw (==_refl fd) refl;
  close-others = λ fd m w other. rw other refl;
}

pub above-IsDescriptors : IsDescriptors (table_of above) file_of
above-IsDescriptors = table-IsDescriptors above (λ w. file_of-above (above w) w (omega arith))

abbrev pub streams : Descriptors
streams = (0, some (codes "tty")) ∷ (1, some (codes "tty")) ∷ (2, some (codes "tty")) ∷ []

redirect_std_io-Redirected_example :
    let (ok, w') =
      redirect_std_io
        (table_of above)
        (some (codes "/dev/null"))
        (some (codes "message.log"))
        (some (codes "error.log"))
        streams in
    (ok ≡ true)
    × (file_of 0 w' ≡ some (codes "/dev/null"))
    × (file_of 1 w' ≡ some (codes "message.log"))
    × (file_of 2 w' ≡ some (codes "error.log"))
    × ((m : ℕ) → file_of (3 + m) w' ≡ file_of (3 + m) streams)
unfolding file_of
redirect_std_io-Redirected_example =
    redirect_std_io-Redirected (table_of above) file_of above-IsDescriptors (codes "/dev/null")
      (codes "message.log") (codes "error.log") streams (codes "tty", refl) (codes "tty", refl)
      (codes "tty", refl)

pub streams-IsUsed :
    IsUsed (table_of above) file_of 0 streams
    × IsUsed (table_of above) file_of 1 streams
    × IsUsed (table_of above) file_of 2 streams
unfolding file_of
streams-IsUsed = ((codes "tty", refl), (codes "tty", refl), (codes "tty", refl))

-- Without standard output open gives 1, the lowest free descriptor.
abbrev without_output : Descriptors
without_output = (0, some (codes "tty")) ∷ (2, some (codes "tty")) ∷ []

abbrev lowest : Descriptors → ℕ
lowest w = elim (file_of 1 w) [ none ↦ 1 | some path ↦ above w ]

lowest-free : (w : Descriptors) → file_of (lowest w) w ≡ none
lowest-free w = elim (Option-cases (file_of 1 w)) [
  | inl free ↦ rw (free, lowest) free
  | inr (path, used) ↦ rw (used, lowest) (file_of-above (above w) w (omega arith))
]

stamped : stamp date ≡ codes "2015-12-03-090507:"
unfolding stamp two_digits digits
stamped = refl

not_closed : close_serial (table_of above) (negsuc 0) streams ≡ streams
unfolding close_serial
not_closed = refl
