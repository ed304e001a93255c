-- ===== src/Database/Total.antt =====
-- The number of cells in the configuration, `getBatterytotal`, and what happens without a server.
use batterysystem.Common.{ℕ, ◌≡◌, ◌⊎◌, inl, inr, refl, List, [], ◌∷◌, Option, some, true, false}
use batterysystem.Common.Int.{ℤ, pos, negsuc}
use batterysystem.Common.Runs.{bind, Returns, Returns-bind, fault}
use batterysystem.Float.{Float}
use batterysystem.Pack.{BatteryPack}
use batterysystem.Savefile.{atoi}
use batterysystem.Database.{
  Client, Statement, create_database, select_total, create_table, battery_config,
  default_battery_total, default_config, use_database, connect_to_mysql, config_rows,
  create_battery_config, create_network_config, total_of, get_battery_total, add_current_data,
  store_record, write_to_mysql,
}
use batterysystem.Database.Written.{
  IsLog, Grew, Grew-trans, log-run, after_create, use_database-Used,
}

module _ {F : Float} {World : Type 0} (C : Client F World) where
  -- Without a connection every function that opens one of its own is in undefined behaviour, and so is the
  -- block of thread_bs01 that stores a record: none of them looks at the NULL of connectToMysql.
  pub unconnected :
      (current : F.T) (total : ℕ) (group_battery : World → BatteryPack F) (w : World)
      → (C.connect w).0 ≡ false
      → (create_battery_config C w ≡ fault)
        × (create_network_config C w ≡ fault)
        × (get_battery_total C w ≡ fault)
        × (add_current_data C current w ≡ fault)
        × (store_record C total group_battery w ≡ fault)
  unfolding create_battery_config create_network_config get_battery_total add_current_data
      store_record write_to_mysql connect_to_mysql use_database
  unconnected current total group_battery w e = (rw e, rw e, rw e, rw e, rw e)

  -- The query for the number of cells gives rows, of which each has a column.
  pub record IsSelecting : Type 0 where
    pub rows-select :
        (w : World)
        → ((C.store_result (C.query select_total w)).0 ≡ some [])
          ⊎ ((text : List ℕ) × (columns : List (List ℕ)) × (rest : List (List (List ℕ)))
              × ((C.store_result (C.query select_total w)).0 ≡ some ((text ∷ columns) ∷ rest)))

  module _ (log : World → List (Statement F)) (l : IsLog C log) (s : IsSelecting) where
    -- The world in which the table of the configuration is used, where the database can be: at once, or
    -- after an attempt to create it.
    abbrev pub Usable : World → World → Type 0
    Usable w u =
        (((C.select_db w).0 ≡ true) × (u ≡ (C.select_db w).1))
        ⊎ (((C.select_db w).0 ≡ false)
            × ((C.select_db (after_create C w)).0 ≡ true)
            × (u ≡ (C.select_db (after_create C w)).1))

    -- The rows of the configuration, asked for in the world `u` after its table was created if need be.
    abbrev pub config_of : World → Option (List (List (List ℕ)))
    config_of u =
        (C.store_result
          (C.query select_total (C.store_result (C.query (create_table battery_config) u)).1)).0

    -- What getBatterytotal gives: -1 if the database cannot be used, after an attempt to create it
    -- either; if it can, the default for no rows, which is stored, or the number in the first row.
    abbrev pub Total : World → ℤ → World → Type 0
    Total w v w' =
        (((C.select_db w).0 ≡ false)
          × ((C.select_db (after_create C w)).0 ≡ false)
          × (v ≡ negsuc 0)
          × Grew C log (create_database ∷ []) w w')
        ⊎ ((u : World) × Usable w u
            × (((config_of u ≡ some [])
                  × (v ≡ pos default_battery_total)
                  × Grew C log (create_table battery_config ∷ select_total ∷ default_config C ∷ [])
                      u w')
                ⊎ ((text : List ℕ) × (columns : List (List ℕ)) × (rest : List (List (List ℕ)))
                    × (config_of u ≡ some ((text ∷ columns) ∷ rest))
                    × (v ≡ atoi text)
                    × Grew C log (create_table battery_config ∷ select_total ∷ []) u w')))

    total_of-Total :
        (w u : World) → Usable w u → Returns (bind (config_rows C u) (total_of C)) (Total w)
    unfolding config_rows total_of
    total_of-Total w u usable =
        let w2 = (C.store_result (C.query (create_table battery_config) u)).1 in
        let w3 = (C.store_result (C.query select_total w2)).1 in
        let w4 = (C.store_result (C.query (default_config C) w3)).1 in
        let asked =
          Grew-trans C log l (create_table battery_config ∷ []) (select_total ∷ []) u w2 w3
            (log-run C log l (create_table battery_config) u) (log-run C log l select_total w2) in
        let stored =
          Grew-trans C log l (create_table battery_config ∷ select_total ∷ [])
            (default_config C ∷ []) u w3 w4 asked (log-run C log l (default_config C) w3) in
        elim (s.rows-select w2) [
          | inl none_yet ↦ rw none_yet (inr (u, usable, inl (none_yet, refl, stored)))
          | inr (text, columns, rest, found) ↦
              rw found (inr (u, usable, inr (text, columns, rest, found, refl, asked)))
        ]

    -- Where the server is connected and answers the query with rows, getBatterytotal ends without a
    -- fault. If the database cannot be used, not after an attempt to create it either, it gives -1; if it
    -- can, it asks for the configuration, and gives the number in the first row, or, if there are no rows,
    -- the default 55, which it then stores.
    pub get_battery_total-Total :
        (w : World)
        → (C.connect w).0 ≡ true
        → Returns (get_battery_total C w) (Total (C.connect w).1)
    unfolding get_battery_total connect_to_mysql
    get_battery_total-Total w e =
        let w1 = (C.connect w).1 in
        rw e (
          Returns-bind (use_database C true w1) _ _ (Total w1) (use_database-Used C log l w1)
            λ ok w2 used. elim used [
              | inl (can, usable, same, _) ↦ rw usable (total_of-Total w1 w2 (inl (can, same)))
              | inr (cannot, inl (can, usable, same, _)) ↦
                  rw usable (total_of-Total w1 w2 (inr (cannot, can, same)))
              | inr (cannot, inr (never, unusable, g)) ↦ rw unusable (inl (cannot, never, refl, g))
            ])
