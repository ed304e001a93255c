-- ===== src/SerialToPc/Silent.antt =====
-- `cmd_serail` never gets a request: it reads to the address 0.
use batterysystem.Common.{ℕ, suc, ◌≡◌, refl, List, true, false}
use batterysystem.Common.Int.{pos, ltb_ℤ}
use batterysystem.Common.Runs.{done}
use batterysystem.Float.{Float}
use batterysystem.SerialToPc.{PcLine, cleared, reads, read_round, cmd_serail}

-- read(2) on the address 0 stores nothing: it fails with EFAULT, or finds no data.
pub record IsProtected {F : Float} (P : PcLine F) : Type 0 where
  pub read-null : (count : ℕ) (w : P.World) → ltb_ℤ (pos 0) (P.read_at 0 count w).0 ≡ false

module _ {F : Float} (P : PcLine F) where
  open P use {World}

  abbrev pub null_read : World → World
  null_read w = (P.read_at 0 100 w).1

  module _ (l : IsProtected P) where
    reads-null :
        (fuel : ℕ) (readbuffer : List ℕ) (w : World)
        → reads P (suc (suc (suc fuel))) (cleared readbuffer) 0 0 w
          ≡ done 0 (null_read (null_read w))
    unfolding reads read_round
    reads-null fuel readbuffer w = rw (l.read-null 100 w, l.read-null 100 (null_read w)) refl

    -- Where the operating system does not let the thread write to the address 0, cmd_serail started with
    -- `readsize` 0 reads twice and ends in its first turn, whatever the PC sends: it answers nothing.
    pub cmd_serail_silent :
        (turns fuel battery_total : ℕ) (readbuffer : List ℕ) (w : World)
        → cmd_serail P (suc turns) (suc (suc (suc fuel))) battery_total readbuffer 0 w
          ≡ done true (null_read (null_read w))
    unfolding cmd_serail
    cmd_serail_silent turns fuel battery_total readbuffer w = rw (reads-null fuel readbuffer w) refl
