-- ===== src/Monitor/Started.antt =====
-- What `main` does with a server and without one.
use batterysystem.Common.{
  true, ℕ, ◌≡◌, ◌⊎◌, refl, ap, inl, inr, List, [], ◌∷◌, ◌++◌, Option, some, false, Bool-cases,
}
use batterysystem.Common.Int.{pos}
use batterysystem.Common.Text.{codes}
use batterysystem.Common.Runs.{Returns, Returns-bind, Returns-done, done, fault}
use batterysystem.Float.{Float}
use batterysystem.Pack.{BatteryPack}
use batterysystem.Database.{
  Client, create_database, create_table, battery_config, use_database, connect_to_mysql,
  config_rows, create_network_config, create_battery_config,
}
use batterysystem.Database.Total.{IsSelecting, unconnected}
use batterysystem.Database.Recorded.{IsConnected}
use batterysystem.Output.{stdout, printftime, redirect_std_io}
use batterysystem.Output.Redirect.{IsDescriptors, IsUsed, redirect_std_io-Redirected}
use batterysystem.Monitor.{
  Routine, routines, Program, Standing, looping, exited, also, created, create_threads, start_up,
  main, log_file, error_log_file,
}

module _ {F : Float} {World : Type 0} (C : Client F World) (up : IsConnected C)
    (s : IsSelecting C) where
  use_database-Ends : (w : World) → Returns (use_database C true w) (λ _ _. Unit {0})
  unfolding use_database
  use_database-Ends w =
      let w2 = (C.store_result (C.query create_database (C.select_db w).1)).1 in
      elim (Bool-cases (C.select_db w).0) [
        | inl e ↦ rw e tt
        | inr e ↦ rw e (elim (Bool-cases (C.select_db w2).0) [
          | inl created ↦ rw created tt
          | inr failed ↦ rw failed tt
        ])
      ]

  create_network_config-Ends : (w : World) → Returns (create_network_config C w) (λ _ _. Unit {0})
  unfolding create_network_config connect_to_mysql
  create_network_config-Ends w = rw (up.connect-true w) (
      Returns-bind (use_database C true (C.connect w).1) _ _ (λ _ _. Unit {0})
        (use_database-Ends (C.connect w).1)
        λ ok w1 _. elim (Bool-cases ok) [ inl e ↦ rw e tt | inr e ↦ rw e tt ])

  create_battery_config-Ends : (w : World) → Returns (create_battery_config C w) (λ _ _. Unit {0})
  unfolding create_battery_config connect_to_mysql config_rows
  create_battery_config-Ends w = rw (up.connect-true w) (
      Returns-bind (use_database C true (C.connect w).1) _ _ (λ _ _. Unit {0})
        (use_database-Ends (C.connect w).1)
        λ ok w1 _.
          let w2 = (C.store_result (C.query (create_table battery_config) w1)).1 in
          elim (Bool-cases ok) [
            | inr e ↦ rw e tt
            | inl e ↦ rw e (elim (s.rows-select w2) [
              | inl missing ↦ rw missing tt
              | inr (text, columns, rest, found) ↦ rw found tt
            ])
          ])

module _ {F : Float} (P : Program F) where
  open P use {system}
  open P.system use {World}

  -- pthread_create succeeds for these threads, one after the other, between the two worlds.
  unfoldable pub AreCreated : List Routine → World → World → Type 0
  AreCreated [] w w' = w ≡ w'
  AreCreated (routine ∷ rs) w w' =
      ((P.create routine w).0 ≡ true) × AreCreated rs (P.create routine w).1 w'

  -- All of these threads were created, and main is in its loop, or one could not be created, after which
  -- main ended with the threads before it.
  abbrev pub IsStarted : List Routine → World → Standing → Type 0
  IsStarted rs w standing =
      ((w' : World) × AreCreated rs w w' × (standing ≡ looping rs))
      ⊎ ((before : List Routine) × (routine : Routine) × (after : List Routine) × (w' : World) × (rs
            ≡ before ++ routine ∷ after)
          × AreCreated before w w'
          × ((P.create routine w').0 ≡ false)
          × (standing ≡ exited before))

  create_threads-IsStarted :
      (rs : List Routine) (w : World) → IsStarted rs w (create_threads P rs w).0
  unfolding create_threads created AreCreated
  create_threads-IsStarted [] w = inl (w, refl, refl)
  create_threads-IsStarted (routine ∷ rs) w = elim (Bool-cases (P.create routine w).0) [
    | inr e ↦ rw e (inr ([], routine, rs, w, refl, refl, e, refl))
    | inl e ↦ rw e (elim (create_threads-IsStarted rs (P.create routine w).1) [
      | inl (w', all, standing) ↦ inl (w', (refl, all), ap (also routine) standing)
      | inr (before, failed, after, w', split, some_of, fails, standing) ↦ inr (
        routine ∷ before,
        failed,
        after,
        w',
        ap (◌∷◌ routine) split,
        (e, some_of),
        fails,
        ap (also routine) standing,
      )
    ])
  ]

  -- The world after RedirectStdIO and the first message.
  abbrev pub redirected : World → World
  redirected w = system.print stdout (codes "s800bmsystem is starting\n") (
      printftime system 1
        (redirect_std_io system (some (codes "/dev/null")) (some log_file) (some error_log_file)
          w).1)

  -- What main has done: CreateNetworkConfig and CreateBatteryConfig, after the redirection, have run to
  -- their ends, and then the threads were created as far as they can be.
  abbrev pub HasStarted : World → Standing → Type 0
  HasStarted w standing =
      (w2 : World) × (w3 : World) × (create_network_config P.client (redirected w) ≡ done tt w2)
      × (create_battery_config P.client w2 ≡ done tt w3)
      × IsStarted routines (P.init_mutex w3) standing

  module _ (file_of : ℕ → World → Option (List ℕ)) (l : IsDescriptors system file_of) where
    -- Where the standard streams are open and can be redirected, and the database server can be reached
    -- and answers the query for the configuration, main redirects them and runs CreateNetworkConfig and
    -- CreateBatteryConfig to their ends. Then it comes to its loop if the three threads can be created,
    -- in their order, and else, at the first that cannot, to its exit with those before it.
    pub main-IsStarted :
        IsConnected P.client
        → IsSelecting P.client
        → (w : World) → IsUsed system file_of 0 w
        → IsUsed system file_of 1 w
        → IsUsed system file_of 2 w
        → Returns (main P w) (λ standing w'.
          ((redirect_std_io system
              (some (codes "/dev/null"))
              (some log_file)
              (some error_log_file)
              w).0
            ≡ true)
          × HasStarted w standing)
    unfolding main start_up
    main-IsStarted up s w u0 u1 u2 =
        let null = codes "/dev/null" in
        let (ok, _, _, _, _) =
          redirect_std_io-Redirected system file_of l null log_file error_log_file w u0 u1 u2 in
        let r = redirect_std_io system (some null) (some log_file) (some error_log_file) w in
        let w1 =
          system.print stdout (codes "s800bmsystem is starting\n") (printftime system 1 r.1) in
        rw ok (
          Returns-bind (create_network_config P.client w1) _
            (λ _ w2. create_network_config P.client w1 ≡ done tt w2)
            (λ standing _. (true ≡ true) × HasStarted w standing)
            (Returns-done (create_network_config P.client w1) _
              (create_network_config-Ends P.client up s w1))
            λ _ w2 e2.
              Returns-bind (create_battery_config P.client w2) _
                (λ _ w3. create_battery_config P.client w2 ≡ done tt w3)
                (λ standing _. (true ≡ true) × HasStarted w standing)
                (Returns-done (create_battery_config P.client w2) _
                  (create_battery_config-Ends P.client up s w2))
                λ _ w3 e3.
                  (refl, (w2, w3, e2, e3, create_threads-IsStarted routines (P.init_mutex w3))))

    -- Where the standard streams are open and can be redirected but the database server cannot be reached,
    -- main is in undefined behaviour before it creates a thread.
    pub main_unconnected :
        ((w : World) → (P.client.connect w).0 ≡ false)
        → (w : World) → IsUsed system file_of 0 w
        → IsUsed system file_of 1 w
        → IsUsed system file_of 2 w
        → main P w ≡ fault
    unfolding main start_up
    main_unconnected down w u0 u1 u2 =
        let null = codes "/dev/null" in
        let (ok, _, _, _, _) =
          redirect_std_io-Redirected system file_of l null log_file error_log_file w u0 u1 u2 in
        let r = redirect_std_io system (some null) (some log_file) (some error_log_file) w in
        let w1 =
          system.print stdout (codes "s800bmsystem is starting\n") (printftime system 1 r.1) in
        let none_yet = F.of_int (pos 0) in
        let group : BatteryPack F = record {
          date_time = 0;
          total_voltage = none_yet;
          group_current = none_yet;
          single_bat = [];
        } in
        let (_, network, _, _, _) = unconnected P.client none_yet 0 (λ _. group) w1 (down w1) in
        rw (ok, network) refl
