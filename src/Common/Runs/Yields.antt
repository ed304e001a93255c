-- ===== src/Common/Runs/Yields.antt =====
-- Partial correctness of the computations of Runs: what holds of a result, if there is one.
use batterysystem.Common.Runs.{Run, M, done, fault, spin, bind, Returns}

module _ {W : Type 0} where
  -- If the computation ends without a fault, `Q` holds of its result.
  abbrev pub Yields : {A : Type 0} → Run W A → (A → W → Type 0) → Type 0
  Yields (done a w) Q = Q a w
  Yields fault Q = Unit {0}
  Yields spin Q = Unit {0}

  pub yields_any : {A : Type 0} (m : Run W A) → Yields m (λ _ _. Unit {0})
  yields_any (done a w) = tt
  yields_any fault = tt
  yields_any spin = tt

  pub Yields-bind :
      {A B : Type 0} (m : Run W A) (f : A → M W B) (Q : A → W → Type 0) (R : B → W → Type 0)
      → Yields m Q
      → ((a : A) (w : W) → Q a w → Yields (f a w) R)
      → Yields (bind m f) R
  Yields-bind (done a w) f Q R q k = k a w q
  Yields-bind fault f Q R q k = tt
  Yields-bind spin f Q R q k = tt

  pub Yields-map :
      {A : Type 0} (m : Run W A) (Q R : A → W → Type 0)
      → Yields m Q
      → ((a : A) (w : W) → Q a w → R a w)
      → Yields m R
  Yields-map (done a w) Q R q k = k a w q
  Yields-map fault Q R q k = tt
  Yields-map spin Q R q k = tt

  -- A computation that ends has what holds of its result.
  pub Returns-yields :
      {A : Type 0} (m : Run W A) (Q R : A → W → Type 0)
      → Returns m Q
      → Yields m R
      → Returns m (λ a w. Q a w × R a w)
  Returns-yields (done a w) Q R q r = (q, r)
  Returns-yields fault Q R q r = elim q [ ]
  Returns-yields spin Q R q r = elim q [ ]

  -- A relation of the world before to that after, over two computations in a row.
  pub Yields-trans :
      {A B : Type 0} (R : W → W → Type 0) (m : Run W A) (f : A → M W B) (w : W)
      → ((a b c : W) → R a b → R b c → R a c)
      → Yields m (λ _ w'. R w w')
      → ((a : A) (w1 : W) → Yields (f a w1) (λ _ w'. R w1 w'))
      → Yields (bind m f) (λ _ w'. R w w')
  Yields-trans R m f w trans r k =
      Yields-bind m f (λ _ w'. R w w') (λ _ w'. R w w') r
        λ a w1 r1. Yields-map (f a w1) _ _ (k a w1) λ b w2 r2. trans w w1 w2 r1 r2

  pub Yields_of_returns : {A : Type 0} (m : Run W A) (Q : A → W → Type 0) → Returns m Q → Yields m Q
  Yields_of_returns (done a w) Q q = q
  Yields_of_returns fault Q q = tt
  Yields_of_returns spin Q q = tt
