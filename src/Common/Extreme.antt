-- ===== src/Common/Extreme.antt =====
-- The best element of an array, for a strict order: a loop that keeps the best one so far.
use Prim.Native.Nat.{ℕ, zero, suc}
use mathlib.Core.Path.{◌≡◌, refl}
use mathlib.Core.Logic.{inl, inr}
use mathlib.Core.Bool.{Bool, true, false}
use mathlib.Core.Option.{some}
use mathlib.Core.List.{List, [], ◌∷◌}
use native.Mathlib.Omega.{arith}
use batterysystem.Common.Tests.{if◌then◌else◌, Bool-cases}
use batterysystem.Common.Lists.{get_elem?, All}

-- No element of the array lies beyond `m`, and `m` is one of them.
abbrev pub IsExtreme : {A : Type 0} → (A → A → Bool) → List A → A → Type 0
IsExtreme beyond xs m = All (λ x. beyond x m ≡ false) xs × ((i : ℕ) × (get_elem? xs i ≡ some m))

module _ {A : Type 0} (beyond : A → A → Bool) (irrefl : (x : A) → beyond x x ≡ false)
    (trans : (x y z : A) → beyond x y ≡ true → beyond y z ≡ true → beyond x z ≡ true) where
  unfoldable pub extreme_from : A → List A → A
  extreme_from m [] = m
  extreme_from m (x ∷ xs) = extreme_from (if beyond x m then x else m) xs

  not_beyond-extreme_from :
      (m x : A) (xs : List A) → beyond x m ≡ false → beyond x (extreme_from m xs) ≡ false
  unfolding extreme_from
  not_beyond-extreme_from m x [] h = h
  not_beyond-extreme_from m x (y ∷ ys) h =
      not_beyond-extreme_from (if beyond y m then y else m) x ys (ground (arith, trans x y m))

  All-extreme_from : (m : A) (xs : List A) → All (λ x. beyond x (extreme_from m xs) ≡ false) xs
  unfolding extreme_from
  All-extreme_from m [] = tt
  All-extreme_from m (x ∷ xs) =
      let best = if beyond x m then x else m in
      (not_beyond-extreme_from best x xs (ground (arith, irrefl x)), All-extreme_from best xs)

  extreme_from-Mem :
      (m : A) (xs : List A) → (i : ℕ) × (get_elem? (m ∷ xs) i ≡ some (extreme_from m xs))
  unfolding extreme_from
  extreme_from-Mem m [] = (0, refl)
  extreme_from-Mem m (x ∷ xs) = elim (Bool-cases (beyond x m)) [
    | inl e ↦ let (i, h) = extreme_from-Mem x xs in (suc i, rw e h)
    | inr e ↦ rw e (skip (extreme_from-Mem m xs))
  ]
    where
      skip :
          (i : ℕ) × (get_elem? (m ∷ xs) i ≡ some (extreme_from m xs))
          → (i : ℕ) × (get_elem? (m ∷ x ∷ xs) i ≡ some (extreme_from m xs))
      skip (zero, h) = (0, h)
      skip (suc i, h) = (suc (suc i), h)

  pub extreme_from-IsExtreme : (x : A) (xs : List A) → IsExtreme beyond (x ∷ xs) (extreme_from x xs)
  extreme_from-IsExtreme x xs =
      ((not_beyond-extreme_from x x xs (irrefl x), All-extreme_from x xs), extreme_from-Mem x xs)

  -- What holds of the first element and of every better one holds of the best.
  pub extreme_from-keeps :
      (P : A → Type 0) (m : A) (xs : List A)
      → P m
      → ((x y : A) → beyond x y ≡ true → P x)
      → P (extreme_from m xs)
  unfolding extreme_from
  extreme_from-keeps P m [] p k = p
  extreme_from-keeps P m (x ∷ xs) p k = elim (Bool-cases (beyond x m)) [
    | inl e ↦ rw e (extreme_from-keeps P x xs (k x m e) k)
    | inr e ↦ rw e (extreme_from-keeps P m xs p k)
  ]
