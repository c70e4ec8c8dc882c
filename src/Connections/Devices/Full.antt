-- ===== src/Connections/Devices/Full.antt =====
-- The counter of connections and the pool it counts.
use net_soc_ops.Prelude.{
  ℕ, suc, ◌-◌, ◌≤◌, String, ◌≡◌, refl, ◌∙◌, inl, inr, Bool, Option, none, some, List, [], ◌∷◌, find,
  Bool-cases, Option-cases, leb, ltb, leb_iff, str_eq, ap, eq_refl,
}
use net_soc_ops.Connections.Devices.{
  Manager, ConnectionStatus, active, idle, failed, disconnected, is_key, put, drop,
  store_connection, add_connection_to_pool, cleanup_host_connections, cleanup_entries,
  cleanup_idle_connections, check_connection_health, check_entry, check_entries,
  check_connections_health,
}

-- The operations that the manager runs by itself or for its callers.
pub data Operation : Type 0 where
  adds : ℕ → String → ℕ → Operation
  cleans_host : String → Operation
  cleans_idle : ℕ → Operation
  checks : ℕ → Operation

-- An addition that raises leaves the manager as it is.
abbrev after_add : Option Manager → Manager → Manager
after_add none m = m
after_add (some m') m = m'

-- An entry that is new is dropped again.
drop-put {ℓ} :
    {A : Type ℓ} (key : String) (value : A) (es : List (String × A))
    → find (is_key key) es ≡ none
    → drop key (put key value es) ≡ es
drop-put key value [] absent = rw (eq_refl key)
drop-put key value (e ∷ es) absent = elim (Bool-cases (str_eq e.0 key)) [
  | inl same ↦ cc (rw same at absent)
  | inr other ↦
      rw other (rw other (ap (λ rest. e ∷ rest) (drop-put key value es (rw other at absent))))
]

module _ (alive works : ℕ → Bool) where
  abbrev pub run : Operation → Manager → Manager
  run (adds now pool_key connection) m =
      after_add (add_connection_to_pool alive now pool_key connection m) m
  run (cleans_host pool_key) m = cleanup_host_connections pool_key m
  run (cleans_idle now) m = cleanup_idle_connections now m
  run (checks now) m = check_connections_health alive works now m

  abbrev pub run_all : List Operation → Manager → Manager
  run_all [] m = m
  run_all (o ∷ os) m = run_all os (run o m)

  add-full :
      (now : ℕ) (pool_key : String) (connection : ℕ) (m : Manager)
      → 100 ≤ m.current
      → add_connection_to_pool alive now pool_key connection m ≡ none
  unfolding add_connection_to_pool
  add-full now pool_key connection m h = let e = (leb_iff 100 m.current).1 h in rw e

  cleanup_entries-current :
      (now : ℕ) (entries : List (String × ℕ)) (m : Manager)
      → (cleanup_entries now entries m).current ≡ m.current
  unfolding cleanup_entries cleanup_host_connections
  cleanup_entries-current now [] m = refl
  cleanup_entries-current now ((key, last_used) ∷ entries) m =
      elim (Bool-cases (ltb 1800 (now - last_used))) [
        | inl e ↦
            rw (e, cleanup_entries)
              (cleanup_entries-current now entries (cleanup_host_connections key m))
        | inr e ↦ rw (e, cleanup_entries) (cleanup_entries-current now entries m)
      ]

  health-current :
      (pool_key : String) (m : Manager)
      → (check_connection_health alive works pool_key m).1.current ≡ m.current
  unfolding check_connection_health
  health-current pool_key m = elim (Option-cases (find (is_key pool_key) m.pool)) [
    | inl e ↦ rw (e, check_connection_health)
    | inr ((key, conn), e) ↦
        rw (e, check_connection_health)
          (elim (Bool-cases (alive conn)) [
            | inr d ↦ rw d
            | inl a ↦ rw a (elim (Bool-cases (works conn)) [ inl w ↦ rw w | inr w ↦ rw w ])
          ])
  ]

  check_entry-full :
      (now : ℕ) (e : String × ConnectionStatus) (m : Manager)
      → 100 ≤ m.current
      → (check_entry alive works now e m).current ≡ m.current
  unfolding check_entry
  check_entry-full now (key, active) m h =
      let m' = (check_connection_health alive works key m).1 in
      let same = health-current key m in
      elim (Option-cases (check_connection_health alive works key m).0) [
        | inl e ↦ rw (e, check_entry) same
        | inr (connection, e) ↦
            rw (e, check_entry) (rw (add-full now key connection m' (rw same h)) same)
      ]
  check_entry-full now (key, idle) m h = refl
  check_entry-full now (key, failed) m h = refl
  check_entry-full now (key, disconnected) m h = refl

  check_entries-full :
      (now : ℕ) (es : List (String × ConnectionStatus)) (m : Manager)
      → 100 ≤ m.current
      → (check_entries alive works now es m).current ≡ m.current
  unfolding check_entries
  check_entries-full now [] m h = refl
  check_entries-full now (e ∷ es) m h =
      let one = check_entry-full now e m h in
      check_entries-full now es (check_entry alive works now e m) (rw one h) ∙ one

  run-full : (o : Operation) (m : Manager) → 100 ≤ m.current → (run o m).current ≡ m.current
  unfolding cleanup_host_connections cleanup_idle_connections check_connections_health
  run-full (adds now pool_key connection) m h = rw (add-full now pool_key connection m h)
  run-full (cleans_host pool_key) m h = refl
  run-full (cleans_idle now) m h = cleanup_entries-current now m.times m
  run-full (checks now) m h = check_entries-full now m.status m h

  run_all-current :
      (os : List Operation) (m : Manager) → 100 ≤ m.current → (run_all os m).current ≡ m.current
  run_all-current [] m h = refl
  run_all-current (o ∷ os) m h =
      let one = run-full o m h in run_all-current os (run o m) (rw one h) ∙ one

  -- Once the counter has reached a hundred, it stays as it is and no connection is added any more,
  -- whatever additions, clean-ups and checks follow, and however few connections are in the pool.
  pub add-run_all :
      (os : List Operation) (m : Manager) (now : ℕ) (pool_key : String) (connection : ℕ)
      → 100 ≤ m.current
      → ((run_all os m).current ≡ m.current)
        × (add_connection_to_pool alive now pool_key connection (run_all os m) ≡ none)
  add-run_all os m now pool_key connection h =
      let same = run_all-current os m h in
      (same, add-full now pool_key connection (run_all os m) (rw same h))

  -- Adding a connection and cleaning its host up leaves a connection counted that is in the pool
  -- no more, if the limit is not reached and the host had none before.
  pub cleanup-add :
      (m m' : Manager) (now : ℕ) (pool_key : String) (connection : ℕ)
      → find (is_key pool_key) m.pool ≡ none
      → add_connection_to_pool alive now pool_key connection m ≡ some m'
      → ((cleanup_host_connections pool_key m').pool ≡ m.pool)
        × ((cleanup_host_connections pool_key m').current ≡ suc m.current)
  unfolding cleanup_host_connections add_connection_to_pool store_connection
  cleanup-add m m' now pool_key connection absent h = elim (Bool-cases (leb 100 m.current)) [
    | inl e ↦ cc (rw (e, add_connection_to_pool) at h)
    | inr e ↦
        let stored : store_connection now pool_key connection m ≡ m' =
          cc (rw absent at (rw e at h)) in
        rw (← stored) (drop-put pool_key connection m.pool absent, refl)
  ]
