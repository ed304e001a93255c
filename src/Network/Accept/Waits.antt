-- ===== src/Network/Accept/Waits.antt =====
-- The time-out in the loop of `thread_network_tcp`.

use mathlib.Core.Path.{fun_ext}
use batterysystem.Common.{ℕ, zero, suc, ◌+◌, ◌≤◌, ◌≡◌, refl, ap, ◌∙◌, [], false, arith}
use batterysystem.Network.Accept.{timed_out, Sockets, Served, serve_round, serve}

-- select(2) of Linux, which leaves in the time-out what was not slept of it.
pub record IsLinuxSelect (S : Sockets) : Type 0 where
  pub left-le : (nfds time_out : ℕ) (w : S.World) → (S.select nfds time_out w).1 ≤ time_out
  pub left-timed_out :
      (nfds time_out : ℕ) (w : S.World)
      → (S.select nfds time_out w).0 ≡ timed_out
      → (S.select nfds time_out w).1 ≡ 0

module _ (S : Sockets) where
  open S use {World}

  -- The loop with the same time-out in every turn.
  pub serve_each : ℕ → ℕ → ℕ → ℕ → ℕ → World → Served World
  serve_each time_out zero sockfd to_485 to_232 w = record {
    started = [];
    exited = false;
    world = w;
  }
  serve_each time_out (suc turns) sockfd to_485 to_232 w =
      let (selected, left, w1) = S.select (sockfd + 1) time_out w in
      serve_round S selected sockfd to_485 to_232 w1
        (serve_each time_out turns sockfd to_485 to_232)

  serve_spent :
      IsLinuxSelect S
      → (turns sockfd to_485 to_232 : ℕ)
      → serve S turns 0 sockfd to_485 to_232 ≡ serve_each 0 turns sockfd to_485 to_232
  unfolding serve serve_each
  serve_spent l zero sockfd to_485 to_232 = refl
  serve_spent l (suc turns) sockfd to_485 to_232 = fun_ext λ w.
      let (selected, left, w1) = S.select (sockfd + 1) 0 w in
      let spent : left ≡ 0 = omega (arith, l.left-le (sockfd + 1) 0 w) in
      ap
        (λ t. serve_round S selected sockfd to_485 to_232 w1 (serve S turns t sockfd to_485 to_232))
        spent
      ∙ ap (serve_round S selected sockfd to_485 to_232 w1)
          (serve_spent l turns sockfd to_485 to_232)

  -- On Linux, where select leaves the rest of the time in its time-out: once a select of the loop has
  -- timed out, the loop goes on for any number of turns as one that never waits.
  pub serve_polls :
      IsLinuxSelect S
      → (turns time_out sockfd to_485 to_232 : ℕ) (w : World)
      → (S.select (sockfd + 1) time_out w).0 ≡ timed_out
      → serve S (suc turns) time_out sockfd to_485 to_232 w
        ≡ serve_each 0 turns sockfd to_485 to_232 (S.select (sockfd + 1) time_out w).2
  unfolding serve serve_round
  serve_polls l turns time_out sockfd to_485 to_232 w e =
      let (selected, left, w1) = S.select (sockfd + 1) time_out w in
      rw (e, serve_round)
        (ap (λ t. serve S turns t sockfd to_485 to_232 w1)
            (l.left-timed_out (sockfd + 1) time_out w e)
          ∙ ap (λ f. f w1) (serve_spent l turns sockfd to_485 to_232))
