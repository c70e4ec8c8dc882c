-- ===== src/Ipam/Requests.antt =====
-- The requests that the endpoints of aggregates and prefixes serve, one after another.
pub mod Kept
pub mod Sound
use net_soc_ops.Prelude.{ℕ, List, [], ◌∷◌}
use net_soc_ops.Prelude.Results.{Result, ok, err}
use net_soc_ops.Ipam.Store.{NetText, Aggregate, Db}
use net_soc_ops.Ipam.AggregateRoutes.{
  Failure, AggregateCreate, AggregateUpdate, create_aggregate, update_aggregate, delete_aggregate,
}
use net_soc_ops.Ipam.PrefixRoutes.{
  PrefixCreate, PrefixUpdate, create_prefix, update_prefix, delete_prefix,
}

pub data Request : Type 0 where
  post_aggregate : AggregateCreate → Request
  put_aggregate : ℕ → AggregateUpdate → Request
  remove_aggregate : ℕ → Request
  post_prefix : PrefixCreate → Request
  put_prefix : ℕ → PrefixUpdate → Request
  remove_prefix : ℕ → Request

-- The tables after a handler: those before it, if it raises.
abbrev pub tables {ℓ} : {A : Type ℓ} → Result Failure (A × Db) → Db → Db
tables (ok (reply, db')) db = db'
tables (err e) db = db

abbrev pub tables_alone : Result Failure Db → Db → Db
tables_alone (ok db') db = db'
tables_alone (err e) db = db

unfoldable pub serve : NetText → (ℕ → ℕ → ℕ) → Request → Db → Db
serve t percent (post_aggregate body) db = tables (create_aggregate t percent body db) db
serve t percent (put_aggregate id body) db = tables (update_aggregate t percent id body db) db
serve t percent (remove_aggregate id) db = tables_alone (delete_aggregate id db) db
serve t percent (post_prefix body) db = tables (create_prefix t body db) db
serve t percent (put_prefix id body) db = tables (update_prefix t id body db) db
serve t percent (remove_prefix id) db = tables_alone (delete_prefix id db) db

unfoldable pub serve_all : NetText → (ℕ → ℕ → ℕ) → List Request → Db → Db
unfolding serve
serve_all t percent [] db = db
serve_all t percent (r ∷ rs) db = serve_all t percent rs (serve t percent r db)
