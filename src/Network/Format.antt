-- ===== src/Network/Format.antt =====
-- Which requests `cmd_network` takes for commands, and which of them read outside the array of cells.
use batterysystem.Common.{
  zero, suc, [], ◌∷◌, length-drop, ℕ, ◌≡◌, refl, ◌<◌, ◌≤◌, ◌-◌, none, some, List, ◌++◌, false,
  length, get_or, get_elem?, drop, Bool-cases, inl, inr, arith, ◌↔◌, get_or-drop, get_elem?-eq-none,
}
use batterysystem.Float.{Float}
use batterysystem.Pack.{SingleBattery}
use batterysystem.Network.{
  magic, starts_with, is_refused, Shared, answer_cell, dispatch, answer, cell,
}

-- A test that a message of eight bytes passes.
eight-is_refused : (request : List ℕ) → length request ≡ 8 → is_refused request ≡ false
unfolding is_refused
eight-is_refused request h = elim (Bool-cases (starts_with request magic)) [
  | inl e ↦ rw e
  | inr e ↦ rw (e, h)
]

-- A message with the prefix "s800bm" passes it.
magic-is_refused : (rest : List ℕ) → is_refused (magic ++ rest) ≡ false
unfolding is_refused
magic-is_refused rest = refl

taken :
    {F : Float} (s : Shared F) (request : List ℕ)
    → is_refused request ≡ false
    → answer s request ≡ dispatch s (get_or request 6 0) (get_or request 7 0)
unfolding answer
taken s request h = rw h

get_or-append_left :
    (xs ys : List ℕ) (i d : ℕ) → i < length xs → get_or (xs ++ ys) i d ≡ get_or xs i d
get_or-append_left [] ys i d h = elim h [ ]
get_or-append_left (x ∷ xs) ys zero d h = refl
get_or-append_left (x ∷ xs) ys (suc i) d h = get_or-append_left xs ys i d (omega arith)

module _ {F : Float} (s : Shared F) where
  -- Of a message no more than the seventh and the eighth byte count: a message of eight bytes with any
  -- first six gets the reply of one with the prefix "s800bm" and the same two bytes, and so does one with
  -- that prefix and anything behind them, such as a second request that arrives with the first.
  pub answer_two_bytes :
      (request more : List ℕ)
      → length request ≡ 8
      → answer s (magic ++ (drop 6 request ++ more)) ≡ answer s request
  answer_two_bytes request more h =
      let two : length (drop 6 request) ≡ 2 = omega (arith, length-drop 6 request) in
      rw (
        taken s request (eight-is_refused request h),
        taken s (magic ++ (drop 6 request ++ more)) (magic-is_refused (drop 6 request ++ more)),
        get_or-append_left (drop 6 request) more 0 0 (omega arith),
        get_or-append_left (drop 6 request) more 1 0 (omega arith),
        get_or-drop 6 request 0 0,
        get_or-drop 6 request 1 0,
      )

  answer_cell-eq-none :
      (n : ℕ)
      → (answer_cell s n ≡ none) ↔ ((length s.group_battery.single_bat < n) × (n ≤ s.battery_total))
  unfolding answer_cell
  answer_cell-eq-none n = ground (arith, get_elem?-eq-none s.group_battery.single_bat (n - 1))

  dispatch-eq-none :
      (c n : ℕ)
      → (dispatch s c n ≡ none)
        ↔ ((c ≡ 2) × (length s.group_battery.single_bat < n) × (n ≤ s.battery_total))
  unfolding dispatch
  dispatch-eq-none c n = ground (arith, answer_cell-eq-none n)

  -- The reply is read from outside `single_bat` exactly for a message that is taken for the command 2
  -- with the number of a cell beyond the array that `battery_total` allows.
  pub answer-eq-none :
      (request : List ℕ)
      → (answer s request ≡ none) ↔ (
          (is_refused request ≡ false)
          × (get_or request 6 0 ≡ 2)
          × (length s.group_battery.single_bat < get_or request 7 0)
          × (get_or request 7 0 ≤ s.battery_total))
  unfolding answer
  answer-eq-none request = elim (Bool-cases (is_refused request)) [
    | inl e ↦ ground (arith, e)
    | inr e ↦ ground (arith, e, dispatch-eq-none (get_or request 6 0) (get_or request 7 0))
  ]

  answer_cell-eq-cell :
      (n : ℕ) (c : SingleBattery F)
      → (answer_cell s n ≡ some (cell c)) ↔ (
          (0 < n) × (n ≤ s.battery_total) × (get_elem? s.group_battery.single_bat (n - 1) ≡ some c))
  unfolding answer_cell
  answer_cell-eq-cell n c = ground arith

  dispatch-eq-cell :
      (k n : ℕ) (c : SingleBattery F)
      → (dispatch s k n ≡ some (cell c)) ↔ ((k ≡ 2) × (answer_cell s n ≡ some (cell c)))
  unfolding dispatch
  dispatch-eq-cell k n c = ground arith

  -- A message is answered with a cell exactly if it is taken for the command 2 with a number from 1 to
  -- `battery_total`, and that is the cell of this number.
  pub answer-eq-cell :
      (request : List ℕ) (c : SingleBattery F)
      → (answer s request ≡ some (cell c)) ↔ (
          (is_refused request ≡ false)
          × (get_or request 6 0 ≡ 2)
          × (0 < get_or request 7 0)
          × (get_or request 7 0 ≤ s.battery_total)
          × (get_elem? s.group_battery.single_bat (get_or request 7 0 - 1) ≡ some c))
  unfolding answer
  answer-eq-cell request c =
      let of_dispatch = dispatch-eq-cell (get_or request 6 0) (get_or request 7 0) c in
      elim (Bool-cases (is_refused request)) [
        | inl e ↦ ground (arith, e)
        | inr e ↦ ground (arith, e, of_dispatch, answer_cell-eq-cell (get_or request 7 0) c)
      ]
