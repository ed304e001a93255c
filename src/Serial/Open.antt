-- ===== src/Serial/Open.antt =====
-- `openSerial` of batterySystem/s800serialDAO.c: the settings of a serial line.
pub mod Line
use batterysystem.Common.{
  ℕ, Option, none, some, Bool, true, false, ◌==◌, ◌∷◌, [], List, if◌then◌else◌,
}
use batterysystem.Common.Int.{ℤ, pos, negsuc, ltb_ℤ}

-- `enum paritymark`, whose `none` is `no_parity` here.
pub data ParityMark : Type 0 where
  no_parity odd even space : ParityMark

-- `speed_t`
pub data Speed : Type 0 where
  b0 b300 b600 b1200 b2400 b4800 b9600 b19200 b38400 b57600 b115200 : Speed

-- The flags of `struct termios` that the code names; `csize_low` and `csize_high` are the two bits of
-- CSIZE, of which CS6 is the low one, CS7 the high one, CS8 both and CS5 none.
pub record Termios : Type 0 where
  pub csize_low : Bool
  pub csize_high : Bool
  pub cstopb : Bool
  pub cread : Bool
  pub clocal : Bool
  pub parenb : Bool
  pub parodd : Bool
  pub inpck : Bool
  pub istrip : Bool
  pub ispeed : Speed
  pub ospeed : Speed

-- After `bzero`, and with CLOCAL and CREAD.
abbrev pub newtio : Termios
newtio = record {
  csize_low = false;
  csize_high = false;
  cstopb = false;
  cread = true;
  clocal = true;
  parenb = false;
  parodd = false;
  inpck = false;
  istrip = false;
  ispeed = b0;
  ospeed = b0;
}

-- `switch (bits)`
unfoldable pub set_bits : ℕ → Termios → Termios
set_bits bits t =
    if bits == 5
    then t
    else if bits == 6
    then record t { csize_low = true }
    else if bits == 7
    then record t { csize_high = true }
    else if bits == 8
    then record t { csize_low = true; csize_high = true }
    else t

-- `switch (py)`
unfoldable pub set_parity : ParityMark → Termios → Termios
set_parity space t = record t { parenb = false; cstopb = false }
set_parity odd t = record t { parenb = true; parodd = true; inpck = true; istrip = true }
set_parity even t = record t { parenb = true; parodd = false; inpck = true; istrip = true }
set_parity no_parity t = record t { parenb = false }

-- B9600 of termios.h, which the threads give for the rate
abbrev pub baud_9600 : ℕ
baud_9600 = 13

-- `switch (baudrate)`
unfoldable pub speed_of : ℕ → Speed
speed_of baudrate =
    if baudrate == 300
    then b300
    else if baudrate == 600
    then b600
    else if baudrate == 1200
    then b1200
    else if baudrate == 2400
    then b2400
    else if baudrate == 4800
    then b4800
    else if baudrate == 9600
    then b9600
    else if baudrate == 19200
    then b19200
    else if baudrate == 38400
    then b38400
    else if baudrate == 57600
    then b57600
    else if baudrate == 115200
    then b115200
    else b9600

-- cfsetispeed and cfsetospeed
abbrev pub set_speed : Speed → Termios → Termios
set_speed s t = record t { ispeed = s; ospeed = s }

-- the stop bits
unfoldable pub set_stop : ℕ → Termios → Termios
set_stop stop t =
    if stop == 1
    then record t { cstopb = false }
    else if stop == 2
    then record t { cstopb = true }
    else t

-- The settings that go to tcsetattr.
unfoldable pub configure : ℕ → ParityMark → ℕ → ℕ → Termios
unfolding set_bits set_parity speed_of set_stop
configure baudrate py bits stop =
    set_stop stop (set_speed (speed_of baudrate) (set_parity py (set_bits bits newtio)))

-- The descriptor and the settings of the line, or -1; `fd` is what open returns.
unfoldable pub open_serial : ℤ → ℕ → ParityMark → ℕ → ℕ → ℤ × Option Termios
unfolding configure
open_serial fd baudrate py bits stop =
    if ltb_ℤ (pos 0) fd then (fd, some (configure baudrate py bits stop)) else (negsuc 0, none)

-- open(_, O_RDWR), and what is done with the settings: fcntl, tcflush and tcsetattr
pub record Lines (W : Type 0) : Type 0 where
  pub open_device : List ℕ → W → ℤ × W
  pub set_attributes : ℤ → Termios → W → W

module _ {W : Type 0} (L : Lines W) where
  -- the settings of an opened line, if there is one
  unfoldable pub set_line : ℤ → Option Termios → W → ℤ × W
  set_line fd none w = (fd, w)
  set_line fd (some t) w = (fd, L.set_attributes fd t w)

  -- `openSerial` with the system calls
  unfoldable pub open_line : List ℕ → ℕ → ParityMark → ℕ → ℕ → W → ℤ × W
  unfolding open_serial set_line
  open_line path baudrate py bits stop w =
      let (fd, w1) = L.open_device path w in
      let (result, settings) = open_serial fd baudrate py bits stop in set_line result settings w1
