-- ===== src/Patrol/Restart.antt =====
-- The start of thread_bs01 with the RES_FILE that a patrol left.
use batterysystem.Common.{ℕ, ◌<◌, ◌≤◌, ◌≡◌, ◌≢◌, ap, ◌∙◌, List, ◌++◌, some, length, arith}
use batterysystem.Common.Int.{pos}
use batterysystem.Float.{Float}
use batterysystem.Pack.{SingleBattery, BatteryPack}
use batterysystem.Savefile.{FloatText, Saved, header_line}
use batterysystem.Savefile.Fields.{IsText, resistance_fields, with_resistances}
use batterysystem.Savefile.Fields.RoundTrip.{load-eq-written}
use batterysystem.Patrol.{Thread}
use batterysystem.Patrol.Start.{deadlines, begin}

module _ {F : Float} where
  -- What `load` makes of a file that a patrol wrote.
  abbrev written : ℕ → ℕ → ℕ → ℕ → List (SingleBattery F) → Saved F
  written total vol res count cells = record {
    old_batterytotal = pos total;
    t_old_vol = pos vol;
    t_old_res = pos res;
    old_count = count;
    single_bat = cells;
  }

  deadlines_ahead :
      (total vol res t : ℕ) (cells : List (SingleBattery F))
      → t < vol
      → t < res
      → deadlines total t (written total vol res total cells) ≡ (vol, res)
  unfolding deadlines
  deadlines_ahead total vol res t cells h k = ground arith

  deadlines_partial :
      (total vol res t count : ℕ) (cells : List (SingleBattery F))
      → count < total
      → t < res
      → deadlines total t (written total vol res count cells) ≡ (t, res)
  unfolding deadlines
  deadlines_partial total vol res t count cells h k = ground arith

  deadlines_other :
      (total' total vol res t count : ℕ) (cells : List (SingleBattery F))
      → total' ≢ total
      → deadlines total' t (written total vol res count cells) ≡ (t, t)
  unfolding deadlines
  deadlines_other total' total vol res t count cells h = ground arith

module _ {F : Float} (X : FloatText F) (total vol res : ℕ)
    (new cells : List (SingleBattery F)) where
  -- RES_FILE after a patrol.
  abbrev pub left : List ℕ
  left = header_line total vol res ++ resistance_fields X new

  -- The thread at its first turn, with these deadlines.
  abbrev pub started : BatteryPack F → ℕ → ℕ × ℕ → Thread F
  started group t (t_voltage, t_resistance) = record {
    single_bat = with_resistances X new cells;
    old_count = length new;
    t_voltage = t_voltage;
    t_resistance = t_resistance;
    t_control = t;
    t_now = t;
    file = some left;
    group_battery = group;
  }

  begin-started :
      IsText X
      → (total' t : ℕ) (group : BatteryPack F) → length left < 1024
      → length new ≤ length cells
      → begin X total' (some left) cells group t
        ≡ some (
            started group t (
              deadlines total' t
                (written total vol res (length new) (with_resistances X new cells))))
  unfolding begin
  begin-started text total' t group short fits =
      rw (load-eq-written X text total vol res new cells short fits, begin)

  -- A thread that starts before both times in a RES_FILE of all its cells takes the resistances from the
  -- file and waits for the times in it, if the file is shorter than 1024 bytes, its resistances fit
  -- into the array, and printf prints something, without tabs, newlines and NULs.
  pub begin_same :
      IsText X
      → (t : ℕ) (group : BatteryPack F) → length left < 1024
      → length new ≡ total
      → total ≤ length cells
      → t < vol
      → t < res
      → begin X total (some left) cells group t ≡ some (started group t (vol, res))
  begin_same text t group short all fits h k =
      begin-started text total t group short (omega arith)
      ∙ ap (λ p. some (started group t p))
          (ap (λ n. deadlines total t (written total vol res n (with_resistances X new cells))) all
            ∙ deadlines_ahead total vol res t (with_resistances X new cells) h k)

  -- If a patrol was broken off after some cells, the first patrol is due at once, with the resistances of
  -- those cells and the time of the test from RES_FILE.
  pub begin_partial :
      IsText X
      → (t : ℕ) (group : BatteryPack F) → length left < 1024
      → length new < total
      → length new ≤ length cells
      → t < res
      → begin X total (some left) cells group t ≡ some (started group t (t, res))
  begin_partial text t group short part fits early =
      begin-started text total t group short fits
      ∙ ap (λ p. some (started group t p))
          (deadlines_partial total vol res t (length new) (with_resistances X new cells) part early)

  -- If the number of cells has changed since RES_FILE was written, the first patrol is due at once, with
  -- all the resistances; as many as the file has are stored all the same. The file is shorter than 1024
  -- bytes, its resistances fit, and printf prints something, without tabs, newlines and NULs.
  pub begin_changed :
      IsText X
      → (total' t : ℕ) (group : BatteryPack F) → length left < 1024
      → length new ≤ length cells
      → total' ≢ total
      → begin X total' (some left) cells group t ≡ some (started group t (t, t))
  begin_changed text total' t group short fits other =
      begin-started text total' t group short fits
      ∙ ap (λ p. some (started group t p))
          (deadlines_other total' total vol res t (length new) (with_resistances X new cells) other)
