-- ===== src/Database/Recorded.antt =====
-- The statements of the two functions of manageData.c that the threads call in their loops, with the
-- connection that they open.
use batterysystem.Common.{ℕ, ◌≤◌, ◌≡◌, ap, ◌∙◌, List, [], ◌∷◌, ◌++◌, some, true, get_elem?, length}
use batterysystem.Common.Runs.{Returns, Returns-bind, Returns-map, done}
use batterysystem.Float.{Float}
use batterysystem.Pack.{SingleBattery, BatteryPack}
use batterysystem.Database.{
  Client, Statement, create_table, battery_group, battery_single, battery_current, delete_old,
  insert_current, connect_to_mysql, write_to_mysql, delete_old_data, store_record, add_current_data,
}
use batterysystem.Database.Written.{
  IsLog, Grew, Grew-trans, log-run, Sends, Used-Sends, group_statements, write_to_mysql-Grew,
}

-- The server can be reached whenever it is asked for a connection.
pub record IsConnected {F : Float} {World : Type 0} (C : Client F World) : Type 0 where
  pub connect-true : (w : World) → (C.connect w).0 ≡ true

module _ {F : Float} where
  abbrev pub deletions : List (Statement F)
  deletions = delete_old battery_group ∷ delete_old battery_single ∷ []

  abbrev pub current_statements : F.T → ℕ → List (Statement F)
  current_statements current t = create_table battery_current ∷ insert_current t current ∷ []

module _ {F : Float} {World : Type 0} (C : Client F World) (log : World → List (Statement F)) where
  -- The log of the statements after a record was stored.
  abbrev pub Recorded : ℕ → BatteryPack F → SingleBattery F → World → World → Type 0
  Recorded total bp first w w' =
      (sent : List (Statement F)) × Sends C (group_statements C total first bp) (C.connect w).1 sent
      × Grew C log (sent ++ deletions) w w'

  abbrev pub RecordedCurrent : F.T → World → World → Type 0
  RecordedCurrent current w w' =
      (sent : List (Statement F)) × Sends C (λ u. current_statements current (C.time u).0)
        (C.connect w).1 sent
      × Grew C log sent w w'

module _ {F : Float} {World : Type 0} (C : Client F World) (log : World → List (Statement F))
    (l : IsLog C log) where
  deleted-Grew :
      (w : World) → Returns (delete_old_data C true w) (λ _ w'. Grew C log deletions w w')
  unfolding delete_old_data
  deleted-Grew w =
      let w1 = (C.store_result (C.query (delete_old battery_group) w)).1 in
      let w2 = (C.store_result (C.query (delete_old battery_single) w1)).1 in
      Grew-trans C log l (delete_old battery_group ∷ []) (delete_old battery_single ∷ []) w w1 w2
        (log-run C log l (delete_old battery_group) w)
        (log-run C log l (delete_old battery_single) w1)

  connected-Grew :
      (sent : List (Statement F)) (w w' : World)
      → Grew C log sent (C.connect w).1 w'
      → Grew C log sent w w'
  connected-Grew sent w w' g = g ∙ ap (λ z. z ++ sent) (l.log-connect w)

  -- Where the server can be reached and the array holds the cells and has a first one, the block after a
  -- patrol ends without a fault.
  pub store_record-Recorded :
      IsConnected C
      → (total : ℕ) (group : World → BatteryPack F) (first : SingleBattery F) (w : World)
      → get_elem? (group (C.connect w).1).single_bat 0 ≡ some first
      → total ≤ length (group (C.connect w).1).single_bat
      → Returns
          (store_record C total group w)
          (λ _ w'. Recorded C log total (group (C.connect w).1) first w w')
  unfolding store_record connect_to_mysql
  store_record-Recorded up total group first w e fits =
      let w1 = (C.connect w).1 in
      rw (up.connect-true w) (
        Returns-bind (write_to_mysql C true total (group w1) w1) _ _ _
          (write_to_mysql-Grew C log l total (group w1) first w1 e fits)
          λ _ w2 (sent, is, g).
            Returns-bind (delete_old_data C true w2) (λ _ w3. done tt (C.close w3)) _
              (λ _ w'. Recorded C log total (group w1) first w w') (deleted-Grew w2)
              λ _ w3 h. (
                sent,
                is,
                connected-Grew (sent ++ deletions) w (C.close w3)
                    (l.log-close w3 ∙ Grew-trans C log l sent deletions w1 w2 w3 g h),
              ))

  inserted-Grew :
      (current : F.T) (w : World)
      → let w1 = (C.time w).1 in
        let w2 = (C.store_result (C.query (create_table battery_current) w1)).1 in
        let w3 = (C.store_result (C.query (insert_current (C.time w).0 current) w2)).1 in
        Grew C log (current_statements current (C.time w).0) w (C.close w3)
  inserted-Grew current w =
      let t = (C.time w).0 in
      let w1 = (C.time w).1 in
      let w2 = (C.store_result (C.query (create_table battery_current) w1)).1 in
      let w3 = (C.store_result (C.query (insert_current t current) w2)).1 in
      l.log-close w3
      ∙ Grew-trans C log l (create_table battery_current ∷ []) (insert_current t current ∷ []) w1 w2
          w3 (log-run C log l (create_table battery_current) w1)
          (log-run C log l (insert_current t current) w2)
      ∙ ap (λ z. z ++ current_statements current t) (l.log-time w)

  -- Where the server can be reached, AddCurrentData ends without a fault.
  pub add_current_data-Recorded :
      IsConnected C
      → (current : F.T) (w : World)
      → Returns (add_current_data C current w) (λ _ w'. RecordedCurrent C log current w w')
  unfolding add_current_data connect_to_mysql
  add_current_data-Recorded up current w =
      let w1 = (C.connect w).1 in
      rw (up.connect-true w) (
        Returns-map _ _ (λ _ w'. RecordedCurrent C log current w w')
          (Used-Sends C log l (λ u. current_statements current (C.time u).0) _ w1
            λ u. inserted-Grew current u)
          λ _ w' (sent, is, g). (sent, is, connected-Grew sent w w' g))
