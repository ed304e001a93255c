-- ===== src/Network.antt =====
-- batterySystem/networkCommunication.c: `cmd_network`, the thread that answers one client, on a socket or
-- on a serial line.
pub mod Format
pub mod Session
pub mod Accept
use batterysystem.Common.{
  ℕ, zero, suc, ◌-◌, Option, none, some, List, [], ◌∷◌, ◌++◌, Bool, true, false, ◌&&◌, not, ltb,
  leb, ◌==◌, length, get_or, get_elem?, if◌then◌else◌,
}
use batterysystem.Common.Text.{codes}
use batterysystem.Float.{Float}
use batterysystem.Pack.{SingleBattery, BatteryPack}

-- What `send` is given: a text, or the bytes of a part of the shared record.
pub data Reply (F : Float) : Type 0 where
  message : List ℕ → Reply F
  whole : BatteryPack F → Reply F
  cell : SingleBattery F → Reply F
  current : F.T → Reply F

-- "s800bm"
abbrev pub magic : List ℕ
magic = codes "s800bm"

abbrev pub format_error : List ℕ
format_error = codes "command formart error!"

abbrev pub number_error : List ℕ
number_error = codes "battery number error!"

abbrev pub no_command : List ℕ
no_command = codes "no such command!"

-- `strncmp(_, text, length of text) == 0`, for a text with no NUL
abbrev pub starts_with : List ℕ → List ℕ → Bool
starts_with buffer [] = true
starts_with [] (c ∷ text) = false
starts_with (b ∷ buffer) (c ∷ text) = b == c && starts_with buffer text

-- the test before the `switch`
unfoldable pub is_refused : List ℕ → Bool
is_refused request = not (starts_with request magic) && not (length request == 8)

-- The globals that the threads share; `battery_total` is not negative here.
pub record Shared (F : Float) : Type 0 where
  pub battery_total : ℕ
  pub group_battery : BatteryPack F

module _ {F : Float} where
  -- the `case 0x02`; `none` is a read outside `single_bat`
  unfoldable pub answer_cell : Shared F → ℕ → Option (Reply F)
  answer_cell s battery_number =
      if ltb 0 battery_number && leb battery_number s.battery_total
      then (elim (get_elem? s.group_battery.single_bat (battery_number - 1)) [
        | none ↦ none
        | some c ↦ some (cell c)
      ])
      else some (message number_error)

  -- the `switch` on the seventh byte; the eighth is the number of a cell
  unfoldable pub dispatch : Shared F → ℕ → ℕ → Option (Reply F)
  unfolding answer_cell
  dispatch s command battery_number =
      if command == 0x01
      then some (whole s.group_battery)
      else if command == 0x02
      then answer_cell s battery_number
      else if command == 0x03
      then some (current s.group_battery.group_current)
      else if command == 0x04
      then some (current s.group_battery.group_current)
      else some (message no_command)

  -- The reply to the bytes of one `recv`, which stand in a buffer of zeros. A `char` is unsigned, as it
  -- is on ARM.
  unfoldable pub answer : Shared F → List ℕ → Option (Reply F)
  unfolding is_refused dispatch
  answer s request =
      if is_refused request
      then some (message format_error)
      else dispatch s (get_or request 6 0) (get_or request 7 0)

-- How a session stands: waiting for the client, closed, or in undefined behaviour.
pub data Status : Type 0 where
  waiting closed fault : Status

module _ {F : Float} where
  -- `while (1)`: the receives in order, each with the globals as they then are. A `recv` that returns 0
  -- or -1 is `[]`. The replies sent, and how the session then stands.
  unfoldable pub cmd_network : List (Shared F × List ℕ) → List (Reply F) × Status
  cmd_network [] = ([], waiting)
  cmd_network ((s, []) ∷ rest) = ([], closed)
  cmd_network ((s, b ∷ bs) ∷ rest) =
      let (replies, status) = cmd_network rest in
      elim (answer s (b ∷ bs)) [ none ↦ ([], fault) | some reply ↦ (reply ∷ replies, status) ]
