-- ===== src/Patrol.antt =====
-- `thread_bs01` of batterySystem/bs01thread.c: the patrol of the cells, and the loop that runs the patrol
-- and `control_voltage` when they are due. The child Start is what comes before the loop, and Whole the
-- whole thread.
pub mod Opening
pub mod Cells
pub mod Cycle
pub mod Start
pub mod Restart
pub mod Resume
pub mod Reload
pub mod Served
pub mod Spared
pub mod Continue
pub mod Whole
pub mod Rate
use batterysystem.Common.{
  ℕ, zero, suc, ◌+◌, ◌-◌, ◌*◌, List, [], ◌∷◌, ◌++◌, Option, none, some, Bool, true, false, ◌&&◌,
  ◌||◌, ltb, leb, ◌==◌, get_elem?, set, take, if◌then◌else◌,
}
use batterysystem.Common.Int.{ℤ, pos, pos_part, ltb_ℤ, eqb_ℤ}
use batterysystem.Common.Runs.{M, ◌>>=◌, ◌>>◌, pure, done, fault}
use batterysystem.Float.{Float}
use batterysystem.Serial.Port.{Port, test_voltage, text_temp, text_res, text_cap}
use batterysystem.Serial.Command.{send_serial_text_command}
use batterysystem.Pack.{SingleBattery, BatteryPack}
use batterysystem.Balance.{zero_value, control_voltage}
use batterysystem.Database.{Client, store_record}
use batterysystem.Savefile.{FloatText, Saved, load, header_line, resistance_field}

-- What the thread asks of its surroundings: the serial line, on the descriptor that openSerial gave, and
-- the rest.
pub record Site (F : Float) : Type 1 where
  pub port : Port
  -- the database, and time(NULL)
  pub client : Client F port.World
  -- open(RES_FILE, O_WRONLY | O_CREAT | O_TRUNC, 0666): whether it succeeds
  pub create_file : port.World → Bool × port.World
  -- write(resfd, text, strlen(text)): how many of the characters it writes, 0 on an error
  pub write_file : List ℕ → port.World → ℕ × port.World
  -- `group_battery.group_current`, which thread_dis01 sets
  pub group_current : port.World → F.T

-- The variables of a patrol; `file` is what stands in RES_FILE.
pub record Sweep (F : Float) : Type 0 where
  pub single_bat : List (SingleBattery F)
  pub total_voltage : F.T
  pub t_resistance : ℕ
  pub file : List ℕ

-- The variables of the thread; `group_battery` is the shared record, but for the current.
pub record Thread (F : Float) : Type 0 where
  pub single_bat : List (SingleBattery F)
  pub old_count : ℕ
  pub t_voltage : ℕ
  pub t_resistance : ℕ
  pub t_control : ℕ
  pub t_now : ℕ
  pub file : Option (List ℕ)
  pub group_battery : BatteryPack F

module _ (F : Float) where
  -- `if (value > 0)`, what is stored of a value
  unfoldable pub positive : F.T → F.T
  positive value = if F.lt (zero_value F) value then value else zero_value F

  -- the same test, for the sum
  unfoldable pub add_positive : F.T → F.T → F.T
  add_positive total_voltage value =
      if F.lt (zero_value F) value then F.add total_voltage value else total_voltage

module _ (F : Float) where
  -- the variables before the first cell, with what is written of the first line of RES_FILE
  abbrev pub initial : List ℕ → Thread F → Sweep F
  initial line d = record {
    single_bat = d.single_bat;
    total_voltage = zero_value F;
    t_resistance = d.t_resistance;
    file = line;
  }

module _ (F : Float) where
  -- `mybattery_pack` as it is copied into the shared record, with the current of the latter
  unfoldable pub publish_pack : ℕ → Sweep F → F.T → BatteryPack F
  publish_pack t_now s group_current = record {
    date_time = t_now;
    total_voltage = s.total_voltage;
    group_current = group_current;
    single_bat = s.single_bat;
  }

module _ {F : Float} (S : Site F) where
  open S use {port}

  abbrev pub time_now : M port.World ℕ
  time_now w = let (t, w') = S.client.time w in done t w'

  -- write(resfd, text, strlen(text)), whose result is not looked at: what it adds to RES_FILE
  abbrev pub write_text : List ℕ → M port.World (List ℕ)
  write_text text w = let (written, w') = S.write_file text w in done (take written text) w'

  -- The test of the resistance of the `i`-th cell, if it is due: the value to store, and the time of the
  -- next test.
  unfoldable pub test_resistance : ℕ → ℕ → ℕ → Bool → F.T → ℕ → M port.World (F.T × ℕ)
  unfolding positive
  test_resistance fuel battery_total i false resistance t_resistance =
      pure (resistance, t_resistance)
  test_resistance fuel battery_total i true resistance t_resistance = do
    value ← send_serial_text_command F port fuel text_res i
    if i == battery_total
        then (do t ← time_now; pure (positive F value, t + 60 * 60 * 24))
        else pure (positive F value, t_resistance)

  -- `memcpy` of `mybattery_pack` into the shared record, under the lock, and the database, which is given
  -- the shared record without the lock; `file` is what then stands in RES_FILE
  unfoldable pub publish : ℕ → ℕ → Option (List ℕ) → Sweep F → Thread F → M port.World (Thread F)
  unfolding publish_pack
  publish battery_total t_voltage file s d w =
      let group = publish_pack F d.t_now s (S.group_current w) in
      (do
        store_record S.client battery_total
            (λ w1. record group { group_current = S.group_current w1 })
        pure (record d {
          single_bat = s.single_bat;
          t_voltage = t_voltage;
          t_resistance = s.t_resistance;
          file = file;
          group_battery = group;
        }))
        w

  -- the `if (t_now >= t_control)`
  unfoldable pub control : ℕ → ℕ → Thread F → M port.World (Thread F)
  control fuel battery_total d w =
      if leb d.t_control d.t_now
      then (do
        t ← time_now
        group ← λ w1.
            control_voltage F port fuel battery_total
              (record d.group_battery { group_current = S.group_current w1 }) w1
        pure (record d { t_control = t + 1 * 60; group_battery = group }))
          w
      else done d (port.sleep 5000000 w)

module _ {F : Float} (X : FloatText F) (S : Site F) where
  open S use {port}

  -- A cell of `mybattery_pack` and the sum after the measurements of one round; `line` is what is
  -- written into RES_FILE.
  unfoldable pub measured :
      F.T → F.T × ℕ → List ℕ → F.T → F.T → ℕ → SingleBattery F → Sweep F → Sweep F
  unfolding positive add_positive
  measured voltage (resistance, t_resistance) line temperature capacity i cell s =
      let new = record cell {
        voltage = positive F voltage;
        resistance = resistance;
        temperature = positive F temperature;
        capacity = positive F capacity;
      } in
      record {
        single_bat = set s.single_bat (i - 1) new;
        total_voltage = add_positive F s.total_voltage voltage;
        t_resistance = t_resistance;
        file = s.file ++ line;
      }

  -- the body of the `for` from the second measurement on
  unfoldable pub sweep_rest :
      ℕ → ℕ → ℕ → ℕ → ℕ → F.T → SingleBattery F → Sweep F → M port.World (Sweep F)
  unfolding test_resistance measured
  sweep_rest fuel battery_total t_now old_count i voltage cell s = do
    r ←
        test_resistance S fuel battery_total i (leb s.t_resistance t_now || ltb old_count i)
          cell.resistance s.t_resistance
    line ← write_text S (resistance_field X (record cell { resistance = r.0 }))
    temperature ← send_serial_text_command F port fuel text_temp i
    capacity ← send_serial_text_command F port fuel text_cap i
    pure (measured voltage r line temperature capacity i cell s)

  -- the body of the `for`; a cell outside the array is a `fault`
  unfoldable pub sweep_cell : ℕ → ℕ → ℕ → ℕ → ℕ → Sweep F → M port.World (Sweep F)
  unfolding sweep_rest
  sweep_cell fuel battery_total t_now old_count i s = do
    voltage ← send_serial_text_command F port fuel test_voltage i
    elim (get_elem? s.single_bat (i - 1)) [
      | none ↦ λ w. fault
      | some cell ↦ sweep_rest fuel battery_total t_now old_count i voltage cell s
    ]

  -- `for (i = 1; i <= battery_total; i++)`, by the rounds left
  unfoldable pub sweep : ℕ → ℕ → ℕ → ℕ → ℕ → ℕ → Sweep F → M port.World (Sweep F)
  unfolding sweep_cell
  sweep fuel battery_total t_now old_count zero i s = pure s
  sweep fuel battery_total t_now old_count (suc rounds) i s = do
    s' ← sweep_cell fuel battery_total t_now old_count i s
    sweep fuel battery_total t_now old_count rounds (i + 1) s'

  -- The block of `if (t_now >= t_voltage || t_now >= t_resistance)`. Where RES_FILE cannot be created, the
  -- writes to the descriptor -1 have no effect.
  unfoldable pub patrol : ℕ → ℕ → Thread F → M port.World (Thread F)
  unfolding sweep publish
  patrol fuel battery_total d = do
    t ← time_now S
    created ← λ w. let (ok, w') = S.create_file w in done ok w'
    t2 ← time_now S
    line ← write_text S (header_line battery_total (t + 60 * 10) (t2 + 24 * 3600))
    s ← sweep fuel battery_total d.t_now d.old_count battery_total 1 (initial F line d)
    publish S battery_total (t + 60 * 10) (if created then some s.file else d.file) s d

  -- one turn of `while (running)`
  unfoldable pub cycle : ℕ → ℕ → Thread F → M port.World (Thread F)
  unfolding patrol control
  cycle fuel battery_total d = do
    d1 ←
        if leb d.t_voltage d.t_now || leb d.t_resistance d.t_now
        then patrol fuel battery_total d
        else pure d
    d2 ← control S fuel battery_total d1
    t ← time_now S
    pure (record d2 { t_now = t })

  -- `while (running)`: this many turns
  unfoldable pub turns : ℕ → ℕ → ℕ → Thread F → M port.World (Thread F)
  unfolding cycle
  turns fuel battery_total zero d = pure d
  turns fuel battery_total (suc rounds) d = do
    d' ← cycle fuel battery_total d
    turns fuel battery_total rounds d'
