-- ===== src/Tests/SystemTime.antt =====
-- temptest.c with a clock that counts months of 31 days.
use batterysystem.Common.{
  arith, ℕ, ◌+◌, ◌*◌, ◌-◌, ◌≡◌, refl, List, [], ◌∷◌, ◌++◌, Bool, true, false,
}
use batterysystem.Common.Int.{ℤ, pos, pos_part, ◌-ℤ◌}
use batterysystem.Common.Runs.{done}
use batterysystem.Common.Text.{codes}
use batterysystem.Savefile.{digits}
use batterysystem.SystemTime.{
  Tm, Clock, read_digits, unsigned, with_sign, skip_spaces, signed, read_int, read_separator,
  after_number, after_separator, read_numbers, store_numbers, is_int, are_ints, format,
  set_system_time, hexadecimal, main,
}
use batterysystem.SystemTime.RoundTrip.{print_time, reported, set_system_time-print_time}

abbrev seconds_of : Tm → ℤ
seconds_of t =
    let days = pos_part t.tm_mday - 1 + 31 * (pos_part t.tm_mon + 12 * (pos_part t.tm_year - 70)) in
    pos (pos_part t.tm_sec + 60 * (pos_part t.tm_min + 60 * (pos_part t.tm_hour + 24 * days)))

abbrev zeros : Tm
zeros = record {
  tm_year = pos 0;
  tm_mon = pos 0;
  tm_mday = pos 0;
  tm_hour = pos 0;
  tm_min = pos 0;
  tm_sec = pos 0;
  tm_isdst = pos 0;
}

-- The world is the clock and what was printed; the clock can be set with root's rights.
abbrev clock_of : Bool → Clock
clock_of root = record {
  World = ℤ × List (List ℕ);
  time = λ w. (pos_part w.0, w);
  settimeofday = λ seconds w. (root, (seconds, w.1));
  print = λ text w. (w.0, w.1 ++ text ∷ []);
  mktime = seconds_of;
  localtime = λ t. zeros;
  asctime = λ t. codes "then\n";
  strftime = λ t. codes "then";
  sizes = (4, 4, 4);
}

scanned :
    read_numbers format (codes "2006-4-20 20:30:30")
    ≡ pos 2006 ∷ pos 4 ∷ pos 20 ∷ pos 20 ∷ pos 30 ∷ pos 30 ∷ []
unfolding read_numbers read_int read_separator after_number after_separator skip_spaces signed
    unsigned with_sign read_digits
scanned = refl

-- Another separator ends the reading.
scanned_part : read_numbers format (codes "2006/4/20 20:30:30") ≡ pos 2006 ∷ []
unfolding read_numbers read_int read_separator after_number after_separator skip_spaces signed
    unsigned with_sign read_digits
scanned_part = refl

program :
    main (clock_of true) zeros (pos 1000, [])
    ≡ done (pos 0) (
      seconds_of (record {
        tm_year = pos 115;
        tm_mon = pos 11;
        tm_mday = pos 15;
        tm_hour = pos 10;
        tm_min = pos 54;
        tm_sec = pos 0;
        tm_isdst = pos 0;
      }),
      codes "Local   time   is   then\n/n"
          ∷ codes "now datetime : then\n"
          ∷ codes "nowtime = 1000\n"
          ∷ codes "nowtime = 16a80\n"
          ∷ codes "nowtime = int:4   long :4  time_t:4\n"
          ∷ [],
    )
unfolding main set_system_time are_ints is_int store_numbers hexadecimal digits read_numbers
    read_int read_separator after_number after_separator skip_spaces signed unsigned with_sign
    read_digits
program = refl

set_system_time-print_time_example :
    set_system_time (clock_of false) zeros (print_time 2006 4 20 20 30 30) (pos 0, [])
    ≡ reported (clock_of false) (
      false,
      (
        seconds_of (record {
          tm_year = pos 2006 -ℤ pos 1900;
          tm_mon = pos 4 -ℤ pos 1;
          tm_mday = pos 20;
          tm_hour = pos 20;
          tm_min = pos 30;
          tm_sec = pos 30;
          tm_isdst = pos 0;
        }),
        [],
      ),
    )
set_system_time-print_time_example =
    set_system_time-print_time (clock_of false) zeros 2006 4 20 20 30 30 (pos 0, []) (omega arith)
      (omega arith) (omega arith) (omega arith) (omega arith) (omega arith)
