-- ===== src/Network/Session.antt =====
-- What one client of `cmd_network` gets in a whole session.
use batterysystem.Common.{
  ℕ, ◌≡◌, refl, ap, ◌∙◌, ◌<◌, ◌≤◌, some, List, [], ◌∷◌, ◌++◌, map, length, All, inl, inr, arith,
  Option-cases,
}
use batterysystem.Float.{Float}
use batterysystem.Network.{Reply, Shared, answer, cmd_network, closed}
use batterysystem.Network.Format.{answer-eq-none}

module _ {F : Float} where
  -- A message that is not empty, received while the array has all the cells there are.
  unfoldable pub IsServed : Shared F × List ℕ → Type 0
  IsServed (s, request) =
      (0 < length request) × (s.battery_total ≤ length s.group_battery.single_bat)

  answer_of :
      (s : Shared F) (request : List ℕ)
      → s.battery_total ≤ length s.group_battery.single_bat
      → (r : Reply F) × (answer s request ≡ some r)
  answer_of s request h = elim (Option-cases (answer s request)) [
    | inl e ↦
        let (_, _, beyond, allowed) = (answer-eq-none s request).0 e in
        let absurd : ⊥ = omega arith in elim absurd [ ]
    | inr (r, e) ↦ (r, e)
  ]

  answered :
      (s : Shared F) (b : ℕ) (bs : List ℕ) (rest : List (Shared F × List ℕ)) (r : Reply F)
      → answer s (b ∷ bs) ≡ some r
      → cmd_network ((s, b ∷ bs) ∷ rest) ≡ (r ∷ (cmd_network rest).0, (cmd_network rest).1)
  unfolding cmd_network
  answered s b bs rest r e = rw (e, cmd_network)

  -- While `battery_total` is at most the length of `single_bat`, every message that is not empty gets
  -- one reply, in order, until the client closes; what comes after is not read.
  pub session :
      (xs tail : List (Shared F × List ℕ)) (s : Shared F)
      → All IsServed xs
      → (replies : List (Reply F)) × (cmd_network (xs ++ (s, []) ∷ tail) ≡ (replies, closed))
        × (map some replies ≡ map (λ (s', request). answer s' request) xs)
  unfolding IsServed cmd_network
  session [] tail s h = ([], refl, refl)
  session ((s1, []) ∷ xs) tail s h = elim (h.0.0) [ ]
  session ((s1, b ∷ bs) ∷ xs) tail s h =
      let (replies, e, e') = session xs tail s (h.1) in
      let (r, e1) = answer_of s1 (b ∷ bs) (h.0.1) in
      (
        r ∷ replies,
        answered s1 b bs (xs ++ (s, []) ∷ tail) r e1 ∙ ap (λ p. (r ∷ p.0, p.1)) e,
        rw (e1, e'),
      )
