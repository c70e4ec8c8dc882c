-- ===== src/Connections/Devices.antt =====
-- `DeviceConnectionManager` of netops-backend/utils/device_connection_manager.py where Redis is not
-- there: the pool in memory, and the retries of a connect. Times are seconds.
pub mod Retry
pub mod Full
use net_soc_ops.Prelude.{
  ℕ, zero, suc, ◌+◌, ◌-◌, ◌*◌, String, Bool, true, false, not, Option, none, some, List, [], ◌∷◌,
  find, select, update, any, leb, ltb, str_eq, ◌==◌, if◌then◌else◌,
}
use net_soc_ops.Prelude.Results.{Result, ok, err}

pub data ConnectionStatus : Type 0 where
  active idle failed disconnected : ConnectionStatus

-- A connect succeeds, fails with one of the two exceptions that are retried, or with another.
pub data Attempt : Type 0 where
  connected : ℕ → Attempt
  refused : String → Attempt
  crashed : String → Attempt

-- What is raised; `raise None` is a `TypeError`.
pub data Error : Type 0 where
  refusal crash : String → Error
  type_error : Error

-- The result, the number of attempts, and the seconds waited after each of them.
pub record Tried : Type 0 where
  pub outcome : Result Error ℕ
  pub attempts : ℕ
  pub waits : List ℕ

abbrev raise_last : Option String → Result Error ℕ
raise_last none = err type_error
raise_last (some e) = err (refusal e)

-- The loop from one attempt on, with the number of attempts that are left.
unfoldable pub retry_from : (ℕ → Attempt) → ℕ → ℕ → ℕ → Option String → Tried
retry_from connect zero attempt delay last_exception = record {
  outcome = raise_last last_exception;
  attempts = attempt;
  waits = [];
}
retry_from connect (suc left) attempt delay last_exception = elim (connect attempt) [
  | connected c ↦ record { outcome = ok c; attempts = suc attempt; waits = [] }
  | crashed e ↦ record { outcome = err (crash e); attempts = suc attempt; waits = [] }
  | refused e ↦
      let rest = retry_from connect left (suc attempt) (delay * 2) (some e) in
      let last = retry_from connect left (suc attempt) delay (some e) in
      if left == 0 then last else record rest { waits = delay ∷ rest.waits }
]

unfoldable pub retry_connection : (ℕ → Attempt) → ℕ → ℕ → Tried
unfolding retry_from
retry_connection connect max_retries initial_delay =
    retry_from connect max_retries 0 initial_delay none

-- The fields of the manager; a connection is a number.
pub record Manager : Type 0 where
  pub pool : List (String × ℕ)
  pub current : ℕ
  pub total : ℕ
  pub times : List (String × ℕ)
  pub status : List (String × ConnectionStatus)

abbrev pub is_key {ℓ} : {A : Type ℓ} → String → String × A → Bool
is_key key entry = str_eq entry.0 key

-- `d[key] = value`.
abbrev pub put {ℓ} : {A : Type ℓ} → String → A → List (String × A) → List (String × A)
put key value [] = (key, value) ∷ []
put key value (e ∷ es) =
    let rest = put key value es in if str_eq e.0 key then (key, value) ∷ es else e ∷ rest

-- `del d[key]`.
abbrev pub drop {ℓ} : {A : Type ℓ} → String → List (String × A) → List (String × A)
drop key = select (λ e. not (is_key key e))

abbrev pub set_status : String → ConnectionStatus → Manager → Manager
set_status key s m = record m { status = put key s m.status }

-- The counters and the entries of a connection that is new.
unfoldable pub store_connection : ℕ → String → ℕ → Manager → Manager
store_connection now pool_key connection m = record m {
  pool = put pool_key connection m.pool;
  current = suc m.current;
  total = suc m.total;
  times = put pool_key now m.times;
  status = put pool_key active m.status;
}

-- `alive` is `is_alive` of a connection at the time of the call; `none` is the `ValueError` of a
-- pool that has reached its limit.
unfoldable pub add_connection_to_pool : (ℕ → Bool) → ℕ → String → ℕ → Manager → Option Manager
unfolding store_connection
add_connection_to_pool alive now pool_key connection m =
    if leb 100 m.current then none else elim (find (is_key pool_key) m.pool) [
      | none ↦ some (store_connection now pool_key connection m)
      | some (key, conn) ↦
          if alive conn
          then some (set_status pool_key active m)
          else some
              (store_connection now pool_key connection (record m { pool = drop pool_key m.pool }))
    ]

unfoldable pub cleanup_host_connections : String → Manager → Manager
cleanup_host_connections pool_key m = record m { pool = drop pool_key m.pool }

-- The loop over the times of the connections: those not used for thirty minutes.
unfoldable pub cleanup_entries : ℕ → List (String × ℕ) → Manager → Manager
unfolding cleanup_host_connections
cleanup_entries now [] m = m
cleanup_entries now ((pool_key, last_used) ∷ entries) m =
    cleanup_entries now entries
      (if ltb 1800 (now - last_used) then cleanup_host_connections pool_key m else m)

unfoldable pub cleanup_idle_connections : ℕ → Manager → Manager
unfolding cleanup_entries
cleanup_idle_connections now m = cleanup_entries now m.times m

-- `works` is whether the command of the check runs through. The connection, if it is healthy.
unfoldable pub check_connection_health :
    (ℕ → Bool) → (ℕ → Bool) → String → Manager → Option ℕ × Manager
check_connection_health alive works pool_key m = elim (find (is_key pool_key) m.pool) [
  | none ↦ (none, m)
  | some (key, conn) ↦
      if alive conn
      then (if works conn
          then (some conn, set_status pool_key active m)
          else (none, set_status pool_key failed m))
      else (none, set_status pool_key disconnected m)
]

-- A healthy connection is added again; what that raises marks it as failed.
unfoldable pub check_entry :
    (ℕ → Bool) → (ℕ → Bool) → ℕ → String × ConnectionStatus → Manager → Manager
unfolding check_connection_health add_connection_to_pool
check_entry alive works now (pool_key, active) m =
    let (healthy, m') = check_connection_health alive works pool_key m in
    elim healthy [
      | none ↦ m'
      | some connection ↦ elim (add_connection_to_pool alive now pool_key connection m') [
        | none ↦ set_status pool_key failed m'
        | some m'' ↦ m''
      ]
    ]
check_entry alive works now (pool_key, status) m = m

unfoldable pub check_entries :
    (ℕ → Bool) → (ℕ → Bool) → ℕ → List (String × ConnectionStatus) → Manager → Manager
unfolding check_entry
check_entries alive works now [] m = m
check_entries alive works now (e ∷ es) m =
    check_entries alive works now es (check_entry alive works now e m)

unfoldable pub check_connections_health : (ℕ → Bool) → (ℕ → Bool) → ℕ → Manager → Manager
unfolding check_entries
check_connections_health alive works now m = check_entries alive works now m.status m

unfoldable pub get_connection_status : String → Manager → ConnectionStatus
get_connection_status pool_key m = elim (find (is_key pool_key) m.status) [
  | none ↦ disconnected
  | some (key, s) ↦ s
]
