-- ===== src/Serial/Port.antt =====
-- What the program asks of the operating system for one open serial port, and `enum serialCommand` of
-- batterySystem/battery.h.
use batterysystem.Common.{ℕ, ◌≤◌, ◌≡◌, ◌≢◌, List, [], length}

-- `failed` is a read that returns -1; `got bytes` one that puts the bytes into the buffer and
-- returns their number.
pub data ReadResult : Type 0 where
  got : List ℕ → ReadResult
  failed : ReadResult

pub record Port : Type 1 where
  pub World : Type 0
  -- read(fd, _, n)
  pub read : World → ℕ → ReadResult × World
  -- write(fd, bytes, _)
  pub write : List ℕ → World → World
  -- tcflush(fd, TCIOFLUSH)
  pub flush : World → World
  -- usleep(_)
  pub sleep : ℕ → World → World

abbrev pub size : ReadResult → ℕ
size (got bytes) = length bytes
size failed = 0

-- read(2): never more bytes than asked for.
pub record IsBounded (P : Port) : Type 0 where
  pub size-read : (w : P.World) (n : ℕ) → size (P.read w n).0 ≤ n

-- A port whose reads never return -1, such as an open one in non-canonical mode with VMIN 0.
pub record IsOpen (P : Port) : Type 0 where
  pub read-ne-failed : (w : P.World) (n : ℕ) → (P.read w n).0 ≢ failed

-- A port whose reads all return -1, such as the descriptor -1 of an open that failed.
pub record IsClosed (P : Port) : Type 0 where
  pub read-eq-failed : (w : P.World) (n : ℕ) → (P.read w n).0 ≡ failed

-- A port whose reads find nothing.
pub record IsSilent (P : Port) : Type 0 where
  pub read-eq-nil : (w : P.World) (n : ℕ) → (P.read w n).0 ≡ got []

-- `enum serialCommand`; `other` is an int that names no command.
pub data Command : Type 0 where
  charge_discharge_off charge_discharge_open read_current : Command
  test_voltage text_temp text_res text_cap : Command
  other : ℕ → Command

abbrev pub code : Command → ℕ
code charge_discharge_off = 0x00
code charge_discharge_open = 0x01
code read_current = 0x02
code test_voltage = 0x60
code text_temp = 0x61
code text_res = 0x62
code text_cap = 0x70
code (other n) = n
