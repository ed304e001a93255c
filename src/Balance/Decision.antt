-- ===== src/Balance/Decision.antt =====
-- Which cells `control_voltage` discharges, from the values that the cells answered.
use mathlib.Core.Path.{subst}
use mathlib.Core.List.{append_assoc}
use batterysystem.Common.{
  ℕ, suc, ◌+◌, ◌-◌, ◌≤◌, ◌≡◌, refl, sym, ap, ◌∙◌, List, [], ◌∷◌, ◌++◌, map, Bool, true, false, ◌&&◌,
  set, set-append, length-snoc, length, replicate, if◌then◌else◌, arith,
}
use batterysystem.Common.Extreme.{
  IsExtreme, extreme_from, extreme_from-IsExtreme, extreme_from-keeps,
}
use batterysystem.Float.{Float, IsOrdered, below}
use batterysystem.Serial.Port.{charge_discharge_off}
use batterysystem.Balance.{Scan, zero_value, start, note, decide}

module _ (F : Float) where
  -- The first loop on the values of the cells from the `i`-th on.
  unfoldable pub note_all : ℕ → List F.T → Scan F → Scan F
  note_all i [] s = s
  note_all i (v ∷ vs) s = note_all (i + 1) vs (note F i v s)

  -- What is kept of a value: an error code or 0 counts as 0.
  abbrev pub clean : F.T → F.T
  clean v = if F.lt (zero_value F) v then v else zero_value F

  note-bat_zu :
      (i : ℕ) (v : F.T) (s : Scan F) → (note F i v s).bat_zu ≡ set s.bat_zu (i - 1) (clean v)
  unfolding note
  note-bat_zu i v s = ground arith

  note_one-min : (v : F.T) (s : Scan F) → (note F 1 v s).min_value ≡ v
  unfolding note
  note_one-min v s = ground arith

  abbrev lowered : F.T → F.T → F.T
  lowered m v = if F.lt (zero_value F) v then (if F.lt v m then v else m) else m

  note-min :
      (i : ℕ) (v : F.T) (s : Scan F) → 2 ≤ i → (note F i v s).min_value ≡ lowered s.min_value v
  unfolding note
  note-min i v s h = ground arith

  note_all-bat_zu :
      (pre : List F.T) (i : ℕ) (vs : List F.T) (s : Scan F)
      → i ≡ length pre + 1
      → s.bat_zu ≡ pre ++ replicate (length vs) (zero_value F)
      → (note_all i vs s).bat_zu ≡ pre ++ map clean vs
  unfolding note_all
  note_all-bat_zu pre i [] s e z = z
  note_all-bat_zu pre i (v ∷ vs) s e z =
      let rest = replicate (length vs) (zero_value F) in
      let index : i - 1 ≡ length pre = omega arith in
      note_all-bat_zu (pre ++ clean v ∷ []) (i + 1) vs (note F i v s)
        (omega (arith, length-snoc pre (clean v)))
        (rw (note-bat_zu, z, index)
          (rw (set-append pre (zero_value F) (clean v) rest, append_assoc)))
      ∙ append_assoc pre (clean v ∷ []) (map clean vs)

  -- The array of voltages holds the values of the cells in order, with 0 for a cell that gave none.
  pub bat_zu-eq-clean :
      (vs : List F.T) → (note_all 1 vs (start F (length vs))).bat_zu ≡ map clean vs
  bat_zu-eq-clean vs = note_all-bat_zu [] 1 vs (start F (length vs)) refl refl

  module _ (o : IsOrdered F) where
    -- A voltage below another; an error code or 0 is none.
    abbrev pub lower_voltage : F.T → F.T → Bool
    lower_voltage v m = F.lt (zero_value F) v && F.lt v m

    lower_irrefl : (v : F.T) → lower_voltage v v ≡ false
    lower_irrefl v = ground (arith, o.lt_irrefl v)

    lower_trans :
        (u v w : F.T)
        → lower_voltage u v ≡ true
        → lower_voltage v w ≡ true
        → lower_voltage u w ≡ true
    lower_trans u v w p q = ground (arith, o.lt_trans u v w)

    abbrev lowest_from : F.T → List F.T → F.T
    lowest_from = extreme_from lower_voltage lower_irrefl lower_trans

    note_all-min :
        (i : ℕ) (vs : List F.T) (s : Scan F)
        → 2 ≤ i
        → (note_all i vs s).min_value ≡ lowest_from s.min_value vs
    unfolding note_all extreme_from
    note_all-min i [] s h = refl
    note_all-min i (v ∷ vs) s h =
        note_all-min (i + 1) vs (note F i v s) (omega arith)
        ∙ ap (λ m. lowest_from m vs) (note-min i v s h ∙ ground arith)

    lowest_value :
        (v : F.T) (vs : List F.T)
        → (note_all 1 (v ∷ vs) (start F (suc (length vs)))).min_value ≡ lowest_from v vs
    unfolding note_all
    lowest_value v vs =
        note_all-min 2 vs (note F 1 v (start F (suc (length vs)))) (omega arith)
        ∙ ap (λ m. lowest_from m vs) (note_one-min v _)

    decide_off : (m u : F.T) → below F m u ≡ false → decide F m u ≡ charge_discharge_off
    unfolding decide
    decide_off m u h = rw h

    -- `m` is the lowest voltage that a cell gave; the cell that gave it is not discharged, and neither
    -- is one that gave none.
    abbrev pub IsFair : List F.T → F.T → Type 0
    IsFair vs m =
        (F.lt (zero_value F) m ≡ true)
        × IsExtreme lower_voltage vs m
        × (decide F m m ≡ charge_discharge_off)
        × (decide F m (zero_value F) ≡ charge_discharge_off)

    -- If the first cell gives a voltage, the lowest value is the lowest voltage of all cells that gave
    -- one; that cell is not discharged, and neither is one that gave none.
    pub values-IsFair :
        (v : F.T) (vs : List F.T)
        → F.lt (zero_value F) v ≡ true
        → IsFair (v ∷ vs) (note_all 1 (v ∷ vs) (start F (suc (length vs)))).min_value
    values-IsFair v vs h =
        let m = lowest_from v vs in
        let positive : F.lt (zero_value F) m ≡ true =
          extreme_from-keeps lower_voltage lower_irrefl lower_trans
            (λ u. F.lt (zero_value F) u ≡ true) v vs h (λ x y p. ground arith) in
        subst (IsFair (v ∷ vs)) (sym (lowest_value v vs)) (
          positive,
          extreme_from-IsExtreme lower_voltage lower_irrefl lower_trans v vs,
          decide_off m m (o.below_self m positive),
          decide_off m (zero_value F) (o.below_zero m positive),
        )
