-- ===== src/Serial/Select.antt =====
-- `selectMini` and `selectMax` of batterySystem/s800serialDAO.c.
use batterysystem.Common.{◌≡◌, refl, Option, none, some, List, [], ◌∷◌, Bool, true, if◌then◌else◌}
use mathlib.Core.Path.{subst, sym}
use batterysystem.Common.Extreme.{IsExtreme, extreme_from, extreme_from-IsExtreme}
use batterysystem.Float.{Float, IsOrdered}

module _ (F : Float) where
  -- `for (i = 1; i < length; i++)`, over the rest of the array
  mini_from : F.T → List F.T → F.T
  mini_from min [] = min
  mini_from min (x ∷ xs) = mini_from (if F.lt x min then x else min) xs

  max_from : F.T → List F.T → F.T
  max_from max [] = max
  max_from max (x ∷ xs) = max_from (if F.lt max x then x else max) xs

  -- `none` is the read of `agr[0]` in an empty array.
  unfoldable pub select_mini : List F.T → Option F.T
  unfolding mini_from
  select_mini [] = none
  select_mini (x ∷ xs) = some (mini_from x xs)

  unfoldable pub select_max : List F.T → Option F.T
  unfolding max_from
  select_max [] = none
  select_max (x ∷ xs) = some (max_from x xs)

  abbrev pub above : F.T → F.T → Bool
  above x y = F.lt y x

module _ (F : Float) (o : IsOrdered F) where
  open o use {lt_irrefl, lt_trans}

  above_trans : (x y z : F.T) → above F x y ≡ true → above F y z ≡ true → above F x z ≡ true
  above_trans x y z p q = lt_trans z y x q p

  mini_from-eq :
      (m : F.T) (xs : List F.T) → mini_from F m xs ≡ extreme_from F.lt lt_irrefl lt_trans m xs
  unfolding mini_from extreme_from
  mini_from-eq m [] = refl
  mini_from-eq m (x ∷ xs) = mini_from-eq (if F.lt x m then x else m) xs

  max_from-eq :
      (m : F.T) (xs : List F.T)
      → max_from F m xs ≡ extreme_from (above F) lt_irrefl above_trans m xs
  unfolding max_from extreme_from
  max_from-eq m [] = refl
  max_from-eq m (x ∷ xs) = max_from-eq (if F.lt m x then x else m) xs

  -- On an array that is not empty `selectMini` finds an element that no other is below, and
  -- `selectMax` one that no other is above.
  pub select-IsExtreme :
      (x : F.T) (xs : List F.T)
      → ((m : F.T) × (select_mini F (x ∷ xs) ≡ some m) × IsExtreme F.lt (x ∷ xs) m)
        × ((m : F.T) × (select_max F (x ∷ xs) ≡ some m) × IsExtreme (above F) (x ∷ xs) m)
  unfolding select_mini select_max
  select-IsExtreme x xs = (
    (
      mini_from F x xs,
      refl,
      subst (IsExtreme F.lt (x ∷ xs)) (sym (mini_from-eq x xs))
          (extreme_from-IsExtreme F.lt lt_irrefl lt_trans x xs),
    ),
    (
      max_from F x xs,
      refl,
      subst (IsExtreme (above F) (x ∷ xs)) (sym (max_from-eq x xs))
          (extreme_from-IsExtreme (above F) lt_irrefl above_trans x xs),
    ),
  )
