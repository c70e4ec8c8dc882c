-- ===== src/Connections/Examples.antt =====
-- The theorems on pools at a pool of one connection.
use net_soc_ops.Prelude.{
  ℕ, suc, ◌+◌, ◌-◌, ◌*◌, ◌^◌, ◌≤◌, ◌≡◌, Bool, refl, none, some, List, [], ◌∷◌, true, arith,
}
use net_soc_ops.Prelude.Results.{ok}
use net_soc_ops.Connections.Devices.{
  Attempt, connected, refused, retry_from, retry_connection, Manager, add_connection_to_pool,
}
use net_soc_ops.Connections.Devices.Retry.{doublings, sum, Tells, retry_connection-bounded}
use net_soc_ops.Connections.Devices.Full.{cleans_idle, checks, run_all, add-run_all}
use net_soc_ops.Connections.Manager.{
  ConnectionPool, Pool, get_or_create, release_connection, cleanup_pool, release_all, Action,
  call_release, acquire, release, remove, loop, clear, free, mine, Running, running, act, acts,
  here, next,
}
use net_soc_ops.Connections.Manager.Counted.{IsCounted, get_or_create-IsCounted}
use net_soc_ops.Connections.Manager.Stuck.{cleanup_pool-IsStuck}

abbrev config : ConnectionPool
config = record { id = 1; ssh_config_id = 1; max_connections = 2 }

abbrev one : Pool
one = record {
  pool_id = 1;
  connections = ("10.0.0.1", 7) ∷ [];
  current_connections = 1;
  total_connections = 1;
  failed_connections = 0;
  last_used = none;
}

get_or_create-IsCounted_example :
    IsCounted (get_or_create 5 config (some 8) "10.0.0.2" one).1
    × ((get_or_create 5 config (some 8) "10.0.0.2" one).1.current_connections ≤ 2)
get_or_create-IsCounted_example =
    get_or_create-IsCounted 5 config (some 8) "10.0.0.2" one refl (omega arith)

abbrev entered : Running
entered = running (loop ∷ clear ∷ release ∷ []) mine one

-- The loop starts, and the release of the first host is called: its task waits for the lock.
abbrev waiting : Running
waiting = running (acquire ∷ remove "10.0.0.1" ∷ release ∷ clear ∷ release ∷ []) mine one

looping : act entered ≡ some (running (call_release "10.0.0.1" ∷ clear ∷ release ∷ []) mine one)
unfolding act release_all
looping = refl

calling : act (running (call_release "10.0.0.1" ∷ clear ∷ release ∷ []) mine one) ≡ some waiting
unfolding act release_connection
calling = refl

enters : act (running cleanup_pool free one) ≡ some entered
unfolding act cleanup_pool
enters = refl

cleanup_pool-IsStuck_example :
    (todo : List Action) × (p : Pool) × (waiting ≡ running todo mine p) × (¬ (todo ≡ []))
cleanup_pool-IsStuck_example =
    cleanup_pool-IsStuck one "10.0.0.1" 7 [] entered waiting refl enters
      (next (next here (acts looping)) (acts calling))

-- The second try succeeds.
second : ℕ → Attempt
second ℕ.zero = refused "timeout"
second (suc n) = connected 7

retry_connection-bounded_example :
    let r = retry_connection second 3 1 in
    (1 ≤ r.attempts)
    × (r.attempts ≤ 3)
    × (r.waits ≡ doublings (r.attempts - 1) 1)
    × (sum r.waits + 1 ≡ 1 * 2 ^ (r.attempts - 1))
    × Tells second 3 r.attempts r.outcome
retry_connection-bounded_example = retry_connection-bounded second 3 1 (omega arith)

retry_connection_test :
    retry_connection second 3 1 ≡ record { outcome = ok 7; attempts = 2; waits = 1 ∷ [] }
unfolding retry_connection retry_from second
retry_connection_test = refl

-- A manager that has counted a hundred connections and has none.
abbrev counted : Manager
counted = record { pool = []; current = 100; total = 100; times = []; status = [] }

is_up : ℕ → Bool
is_up connection = true

add-run_all_example :
    ((run_all is_up is_up (cleans_idle 9 ∷ checks 9 ∷ []) counted).current ≡ 100)
    × (add_connection_to_pool is_up 9 "1:10.0.0.1" 7
          (run_all is_up is_up (cleans_idle 9 ∷ checks 9 ∷ []) counted)
        ≡ none)
add-run_all_example =
    add-run_all is_up is_up (cleans_idle 9 ∷ checks 9 ∷ []) counted 9 "1:10.0.0.1" 7 (omega arith)
