-- ===== src/SerialToPc.antt =====
-- `cmd_serail` of batterySystem/serialToPC.c: an answering thread for a serial line to a PC. The file is
-- not among those that the Makefile builds, and its macro BATTERY_TOTAL is defined nowhere: it is an
-- argument here.
pub mod Silent
use batterysystem.Common.{
  ℕ, zero, suc, ◌+◌, Option, none, some, List, ◌++◌, Bool, true, false, ◌&&◌, not, ltb, ◌==◌,
  get_or, get_elem?, drop, replicate, if◌then◌else◌,
}
use batterysystem.Common.Int.{ℤ, pos, pos_part, ltb_ℤ}
use batterysystem.Common.Runs.{Run, M, ◌>>=◌, pure, done, fault, spin}
use batterysystem.Float.{Float}
use batterysystem.Pack.{BatteryPack}
use batterysystem.Network.{Reply, message, magic, format_error, starts_with, Shared, dispatch}

pub record PcLine (F : Float) : Type 1 where
  pub World : Type 0
  -- read(serialfd, address, count). What it stores goes to that address, which is not in `readbuffer`.
  pub read_at : ℕ → ℕ → World → ℤ × World
  pub write : Reply F → World → World
  -- the shared record, read under the lock
  pub group_battery : World → BatteryPack F

module _ {F : Float} where
  -- The test and the `switch`, for the buffer and the number of bytes counted; `none` is a read outside
  -- `single_bat`.
  unfoldable pub answer_line : Shared F → List ℕ → ℕ → Option (Reply F)
  answer_line s readbuffer readsize =
      if not (starts_with readbuffer magic) && not (readsize == 8)
      then some (message format_error)
      else dispatch s (get_or readbuffer 6 0) (get_or readbuffer 7 0)

-- `memset(readbuffer, 0, 100)`, where the array has 256 elements
abbrev pub cleared : List ℕ → List ℕ
cleared readbuffer = replicate 100 0 ++ drop 100 readbuffer

module _ {F : Float} (P : PcLine F) where
  open P use {World}

  -- What a read leads to: `next` is the loop with `i` after `i++`, and `readsize`.
  abbrev pub after_read : ℕ → ℕ → ℤ × World → (ℕ → ℕ → M World ℕ) → Run World ℕ
  after_read i readsize (itmp, w) next =
      if ltb_ℤ (pos 0) itmp
      then next (1 + 1) (readsize + pos_part itmp) w
      else next (i + 1 + 1) readsize w

  -- A round: the element at `readsize` is taken for the address of the buffer. Beyond the array it is a
  -- `fault`.
  unfoldable pub read_round : ℕ → List ℕ → ℕ → World → (ℕ → ℕ → M World ℕ) → Run World ℕ
  read_round i readbuffer readsize w next = elim (get_elem? readbuffer readsize) [
    | none ↦ fault
    | some address ↦ after_read i readsize (P.read_at address 100 w) next
  ]

  -- `for (i = 0; i < 3; i++)`, on fuel, since the body sets `i` back
  unfoldable pub reads : ℕ → List ℕ → ℕ → ℕ → M World ℕ
  unfolding read_round
  reads zero readbuffer i readsize w = spin
  reads (suc fuel) readbuffer i readsize w =
      let round = read_round i readbuffer readsize w (reads fuel readbuffer) in
      if ltb i 3 then round else done readsize w

  -- the answer to what was read
  unfoldable pub send_answer : ℕ → List ℕ → ℕ → M World (Unit {0})
  unfolding answer_line
  send_answer battery_total readbuffer readsize w =
      let s : Shared F = record {
        battery_total = battery_total;
        group_battery = P.group_battery w;
      } in
      elim (answer_line s readbuffer readsize) [
        | none ↦ fault
        | some reply ↦ done tt (P.write reply w)
      ]

  -- `while (1)`, for a number of turns: whether the thread has ended. `readsize` goes on from turn to
  -- turn.
  unfoldable pub cmd_serail : ℕ → ℕ → ℕ → List ℕ → ℕ → M World Bool
  unfolding reads send_answer
  cmd_serail zero fuel battery_total readbuffer readsize = pure false
  cmd_serail (suc turns) fuel battery_total readbuffer readsize = do
    size ← reads fuel (cleared readbuffer) 0 readsize
    if ltb 0 size
        then (do
          _ ← send_answer battery_total (cleared readbuffer) size
          cmd_serail turns fuel battery_total (cleared readbuffer) size)
        else pure true
