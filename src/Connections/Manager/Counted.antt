-- ===== src/Connections/Manager/Counted.antt =====
-- The counter of a pool.
use net_soc_ops.Prelude.{
  ℕ, ◌≤◌, String, ◌≡◌, inl, inr, Option, [], ◌∷◌, length, length-append, leb, arith, Bool-cases,
  Option-cases,
}
use net_soc_ops.Connections.Manager.{ConnectionPool, Pool, lookup, get_or_create}

-- The counter is the number of connections.
abbrev pub IsCounted : Pool → Type 0
IsCounted p = p.current_connections ≡ length p.connections

-- From a pool that is counted right and not over its limit, a request for a connection, whatever
-- the outcome of the connect, leads to such a pool.
pub get_or_create-IsCounted :
    (now : ℕ) (config : ConnectionPool) (connected : Option ℕ) (host : String) (p : Pool)
    → IsCounted p
    → p.current_connections ≤ config.max_connections
    → IsCounted (get_or_create now config connected host p).1
      × ((get_or_create now config connected host p).1.current_connections ≤ config.max_connections)
unfolding get_or_create
get_or_create-IsCounted now config connected host p h le =
    elim (Option-cases (lookup host p.connections)) [
      | inr (conn, e) ↦ (rw (e, get_or_create) h, rw (e, get_or_create) le)
      | inl e ↦ elim (Bool-cases (leb config.max_connections p.current_connections)) [
        | inl full ↦ (rw (e, get_or_create) (rw full h), rw (e, get_or_create) (rw full le))
        | inr room ↦ elim (Option-cases connected) [
          | inl k ↦
              (rw (e, get_or_create) (rw room (rw k h)), rw (e, get_or_create) (rw room (rw k le)))
          | inr (conn, k) ↦ (
            rw (e, get_or_create)
                (rw room
                  (rw k (rw (length-append p.connections ((host, conn) ∷ [])) (omega (arith, h))))),
            rw (e, get_or_create) (rw room (rw k (ground arith))),
          )
        ]
      ]
    ]
