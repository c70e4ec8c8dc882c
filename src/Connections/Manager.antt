-- ===== src/Connections/Manager.antt =====
-- `SSHConnectionManager` of netops-backend/utils/connection_manager.py. The rows of the
-- configuration, the credential and the outcome of `asyncssh.connect` are arguments; connections are
-- numbers. What is done under the lock of a pool is one step. The statistics of a new connection and
-- of a failure are kept, without the time of use; those of a release are left out.
pub mod Counted
pub mod Stuck
use net_soc_ops.Prelude.{
  ◌≡◌, map, ℕ, suc, ◌+◌, ◌-◌, String, Bool, true, false, Option, none, some, List, [], ◌∷◌, ◌++◌,
  any, find, update, is_some, leb, ◌==◌, str_eq, if◌then◌else◌,
}

-- A row of the configuration, with the fields that are read.
pub record ConnectionPool : Type 0 where
  pub id : ℕ
  pub ssh_config_id : ℕ
  pub max_connections : ℕ

-- The row of the statistics of a pool.
pub record ConnectionStats : Type 0 where
  pub pool_id : ℕ
  pub current_connections : ℕ
  pub total_connections : ℕ
  pub failed_connections : ℕ

-- The entries of `_pools` and `_stats` under one key.
pub record Pool : Type 0 where
  pub pool_id : ℕ
  pub connections : List (String × ℕ)
  pub current_connections : ℕ
  pub total_connections : ℕ
  pub failed_connections : ℕ
  pub last_used : Option ℕ

pub record State : Type 0 where
  pub pools : List Pool
  pub connection_stats : List ConnectionStats

-- `d.get(host)`.
abbrev pub lookup : String → List (String × ℕ) → Option ℕ
lookup host [] = none
lookup host ((h, conn) ∷ rest) =
    let later = lookup host rest in if str_eq h host then some conn else later

-- `del d[host]`.
abbrev pub delete : String → List (String × ℕ) → List (String × ℕ)
delete host [] = []
delete host ((h, conn) ∷ rest) = if str_eq h host then rest else (h, conn) ∷ delete host rest

abbrev pub new_pool : ℕ → Pool
new_pool pool_id = record {
  pool_id = pool_id;
  connections = [];
  current_connections = 0;
  total_connections = 0;
  failed_connections = 0;
  last_used = none;
}

abbrev with_new : ℕ → Pool → Pool
with_new now p = record p {
  current_connections = p.current_connections + 1;
  total_connections = p.total_connections + 1;
  last_used = some now;
}

-- The step under the lock: the connection that is there, the limit, a new connection or a failure.
unfoldable pub get_or_create : ℕ → ConnectionPool → Option ℕ → String → Pool → Option ℕ × Pool
get_or_create now config connected host p = elim (lookup host p.connections) [
  | some conn ↦ (some conn, record p { last_used = some now })
  | none ↦ if leb config.max_connections p.current_connections then (none, p) else elim connected [
    | none ↦ (none, record p { failed_connections = p.failed_connections + 1 })
    | some conn ↦
        (some conn, record (with_new now p) { connections = p.connections ++ (host, conn) ∷ [] })
  ]
]

abbrev stats_of : Pool → ConnectionStats
stats_of p = record {
  pool_id = p.pool_id;
  current_connections = p.current_connections;
  total_connections = p.total_connections;
  failed_connections = 0;
}

-- The row of the table after a new connection: added, or brought up to date.
abbrev store_new : Pool → List ConnectionStats → List ConnectionStats
store_new p rows =
    if any (λ r. r.pool_id == p.pool_id) rows
    then update (λ r. r.pool_id == p.pool_id)
        (λ r. record r {
          current_connections = p.current_connections;
          total_connections = p.total_connections;
        })
        rows
    else rows ++ stats_of p ∷ []

abbrev store_failed : Pool → List ConnectionStats → List ConnectionStats
store_failed p rows =
    update (λ r. r.pool_id == p.pool_id)
      (λ r. record r { failed_connections = p.failed_connections }) rows

-- Which of the two the step has to store, by the counters that it has moved.
abbrev store_step : Pool → Pool → List ConnectionStats → List ConnectionStats
store_step old new rows =
    if leb (old.total_connections + 1) new.total_connections
    then store_new new rows
    else if leb (old.failed_connections + 1) new.failed_connections
    then store_failed new rows
    else rows

abbrev ensure : ℕ → List Pool → List Pool
ensure pool_id pools =
    if any (λ p. p.pool_id == pool_id) pools then pools else pools ++ new_pool pool_id ∷ []

abbrev pool_of : ℕ → List Pool → Pool
pool_of pool_id pools = elim (find (λ p. p.pool_id == pool_id) pools) [
  | none ↦ new_pool pool_id
  | some p ↦ p
]

-- The method: without a configuration or a credential there is no connection.
unfoldable pub get_connection :
    ℕ → Option ConnectionPool → Bool → Bool → Option ℕ → ℕ → String → State → Option ℕ × State
unfolding get_or_create
get_connection now pool has_ssh_config has_credential connected pool_id host s = elim pool [
  | none ↦ (none, s)
  | some config ↦
      if has_ssh_config then (if has_credential then locked config else (none, s)) else (none, s)
]
  where
    step : ConnectionPool → Pool → Option ℕ × Pool
    step config p = get_or_create now config connected host p

    locked : ConnectionPool → Option ℕ × State
    locked config =
        let p = pool_of pool_id (ensure pool_id s.pools) in
        (
          (step config p).0,
          record s {
            pools =
                update (λ q. q.pool_id == pool_id) (λ q. (step config q).1)
                  (ensure pool_id s.pools);
            connection_stats = store_step p (step config p).1 s.connection_stats;
          },
        )

-- What a release does to the entries of the pool.
unfoldable pub remove_connection : String → Pool → Pool
remove_connection host p = record p {
  connections = delete host p.connections;
  current_connections = p.current_connections - 1;
}

-- What a task does next: the call of a release, whose test comes before the lock; the entry and the
-- exit of `async with` the lock of the pool; the changes of the pool; and the start of the loop of
-- the clean-up.
pub data Action : Type 0 where
  call_release : String → Action
  acquire release : Action
  remove : String → Action
  loop : Action
  clear : Action

unfoldable pub release_connection : String → Pool → List Action
release_connection host p =
    if is_some (lookup host p.connections) then acquire ∷ remove host ∷ release ∷ [] else []

unfoldable pub cleanup_pool : List Action
cleanup_pool = acquire ∷ loop ∷ clear ∷ release ∷ []

-- The calls of the loop, one for each host that is there.
unfoldable pub release_all : Pool → List Action
release_all p = map (λ c. call_release c.0) p.connections

-- The lock of a pool is free, held by the task, or held by another task. It is an `asyncio.Lock`,
-- which also waits where the task itself holds it.
pub data Lock : Type 0 where
  free mine taken : Lock

-- A task, with the lock and the pool.
pub data Running : Type 0 where
  running : List Action → Lock → Pool → Running

abbrev acquired : List Action → Lock → Pool → Option Running
acquired rest free p = some (running rest mine p)
acquired rest mine p = none
acquired rest taken p = none

-- The next action of the task; `none` where it waits for the lock or has come to its end.
unfoldable pub act : Running → Option Running
unfolding release_connection release_all remove_connection
act (running [] lock p) = none
act (running (call_release host ∷ rest) lock p) =
    some (running (release_connection host p ++ rest) lock p)
act (running (acquire ∷ rest) lock p) = acquired rest lock p
act (running (release ∷ rest) lock p) = some (running rest free p)
act (running (remove host ∷ rest) lock p) = some (running rest lock (remove_connection host p))
act (running (loop ∷ rest) lock p) = some (running (release_all p ++ rest) lock p)
act (running (clear ∷ rest) lock p) =
    some (running rest lock (record p { connections = []; current_connections = 0 }))

-- A step: of the task, or of the others, who take the lock where it is free and change the pool
-- until they give it back.
pub data Step (s t : Running) : Type 0 where
  acts : act s ≡ some t → Step s t
  others_take :
      (todo : List Action) (p : Pool)
      → s ≡ running todo free p
      → t ≡ running todo taken p
      → Step s t
  others_give :
      (todo : List Action) (p p' : Pool)
      → s ≡ running todo taken p
      → t ≡ running todo free p'
      → Step s t

pub data Reach (s : Running) : Running → Type 0 where
  here : Reach s s
  next : {t u : Running} → Reach s t → Step t u → Reach s u
