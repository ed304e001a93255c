-- ===== src/Tests/Served.antt =====
-- A client that asks for the second of two cells after three turns of thread_bs01.
use batterysystem.Common.{◌++◌, [], ◌∷◌, refl, inr, arith}
use batterysystem.Common.Int.{pos}
use batterysystem.Common.Runs.{Returns}
use batterysystem.Float.Fixed.{fixed-IsOrdered}
use batterysystem.Network.{magic}
use batterysystem.Patrol.{turns}
use batterysystem.Patrol.Served.{Served, turns-Served}
use batterysystem.Tests.Patrol.{site, site-IsSound, at_start, thread}
use batterysystem.Tests.Text.{fixed_text}

turns-Served_example :
    Returns
      (turns fixed_text site 5 2 3 thread at_start)
      (λ d' _. Served 2 (pos 5) (magic ++ 2 ∷ 2 ∷ []) d')
turns-Served_example =
    turns-Served fixed-IsOrdered fixed_text site 2 5 site-IsSound 2 (omega arith) 3 thread at_start
      (pos 5) (magic ++ 2 ∷ 2 ∷ []) (omega arith) (refl, refl)
      ((inr refl, inr refl, inr refl), ((inr refl, inr refl, inr refl), tt))
