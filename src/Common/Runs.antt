-- ===== src/Common/Runs.antt =====
-- Computations over an outside world of type W. C's undefined behaviour is `fault`; a loop that has
-- used up its fuel is `spin`.
pub mod Yields
use batterysystem.Common.{◌≡◌, refl}

pub data Run (W A : Type 0) : Type 0 where
  done : A → W → Run W A
  fault : Run W A
  spin : Run W A

abbrev pub M : Type 0 → Type 0 → Type 0
M W A = W → Run W A

module _ {W : Type 0} where
  abbrev pub bind : {A B : Type 0} → Run W A → (A → M W B) → Run W B
  bind (done a w) f = f a w
  bind fault f = fault
  bind spin f = spin

  infixl 5 ◌>>=◌ ◌>>◌
  abbrev pub ◌>>=◌ : {A B : Type 0} → M W A → (A → M W B) → M W B
  ◌>>=◌ m f w = bind (m w) f

  abbrev pub ◌>>◌ : {B : Type 0} → M W (Unit {0}) → M W B → M W B
  m >> k = m >>= λ _. k

  abbrev pub pure : {A : Type 0} → A → M W A
  pure a w = done a w

  -- Total correctness: the computation ends without a fault, and `Q` holds of its result.
  abbrev pub Returns : {A : Type 0} → Run W A → (A → W → Type 0) → Type 0
  Returns (done a w) Q = Q a w
  Returns fault Q = ⊥
  Returns spin Q = ⊥

  pub Returns-bind :
      {A B : Type 0} (m : Run W A) (f : A → M W B) (Q : A → W → Type 0) (R : B → W → Type 0)
      → Returns m Q
      → ((a : A) (w : W) → Q a w → Returns (f a w) R)
      → Returns (bind m f) R
  Returns-bind (done a w) f Q R q k = k a w q
  Returns-bind fault f Q R q k = elim q [ ]
  Returns-bind spin f Q R q k = elim q [ ]

  pub Returns-map :
      {A : Type 0} (m : Run W A) (Q R : A → W → Type 0)
      → Returns m Q
      → ((a : A) (w : W) → Q a w → R a w)
      → Returns m R
  Returns-map (done a w) Q R q k = k a w q
  Returns-map fault Q R q k = elim q [ ]
  Returns-map spin Q R q k = elim q [ ]

  -- A computation without a result worth naming, that returns, ends in some world.
  pub Returns-done :
      (m : Run W (Unit {0})) (Q : Unit {0} → W → Type 0)
      → Returns m Q
      → Returns m (λ _ w. m ≡ done tt w)
  Returns-done (done a w) Q q = refl
  Returns-done fault Q q = elim q [ ]
  Returns-done spin Q q = elim q [ ]

  -- The result of a computation that returns is the one that satisfies `Q`.
  pub Returns-result :
      {A : Type 0} (m : Run W A) (Q : A → W → Type 0)
      → Returns m Q
      → Returns m (λ a w. (m ≡ done a w) × Q a w)
  Returns-result (done a w) Q q = (refl, q)
  Returns-result fault Q q = elim q [ ]
  Returns-result spin Q q = elim q [ ]

  pub Returns-both :
      {A : Type 0} (m : Run W A) (Q R : A → W → Type 0)
      → Returns m Q
      → Returns m R
      → Returns m (λ a w. Q a w × R a w)
  Returns-both (done a w) Q R q r = (q, r)
  Returns-both fault Q R q r = elim q [ ]
  Returns-both spin Q R q r = elim q [ ]
