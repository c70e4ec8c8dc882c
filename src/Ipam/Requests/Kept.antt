-- ===== src/Ipam/Requests/Kept.antt =====
-- What every sequence of requests keeps.
use mathlib.Core.Path.{subst}
use net_soc_ops.Prelude.{ℕ, ◌≡◌, refl, none, List, [], ◌∷◌, All, strip}
use net_soc_ops.Prelude.Results.{Result, ok, ok-inj, err, >>=-eq-ok}
use net_soc_ops.Ipam.Store.{NetText, Db}
use net_soc_ops.Ipam.AggregateRoutes.{
  Failure, AggregateItem, AggregateCreate, AggregateUpdate, parse_cidr, aggregates_overlap,
  require_unique, require_aggregate, check_new_prefix, inserted_aggregate, stored_aggregate,
  removed_aggregate, create_aggregate, update_aggregate, delete_aggregate,
}
use net_soc_ops.Ipam.PrefixRoutes.{create_prefix, update_prefix, delete_prefix}
use net_soc_ops.Ipam.PrefixRoutes.Covers.{
  AreInside, inserted_aggregate-AreInside, stored_aggregate-AreInside, removed_aggregate-AreInside,
}
use net_soc_ops.Ipam.PrefixRoutes.Inside.{
  create_prefix-AreInside, update_prefix-AreInside, delete_prefix-AreInside,
}
use net_soc_ops.Ipam.Requests.{
  Request, post_aggregate, put_aggregate, remove_aggregate, post_prefix, put_prefix, remove_prefix,
  tables, tables_alone, serve, serve_all,
}

-- The tables after a handler have what holds before it and after each success of it.
pub tables-keeps {ℓ} :
    {A : Type ℓ} (P : Db → Type 0) (r : Result Failure (A × Db)) (db : Db)
    → P db
    → ((a : A) (db' : Db) → r ≡ ok (a, db') → P db')
    → P (tables r db)
tables-keeps P (ok (a, db')) db h k = k a db' refl
tables-keeps P (err e) db h k = h

pub tables_alone-keeps :
    (P : Db → Type 0) (r : Result Failure Db) (db : Db)
    → P db
    → ((db' : Db) → r ≡ ok db' → P db')
    → P (tables_alone r db)
tables_alone-keeps P (ok db') db h k = k db' refl
tables_alone-keeps P (err e) db h k = h

module _ (t : NetText) (percent : ℕ → ℕ → ℕ) where
  create_aggregate-AreInside :
      (body : AggregateCreate) (db : Db) (item : AggregateItem) (db' : Db)
      → AreInside t db
      → create_aggregate t percent body db ≡ ok (item, db')
      → AreInside t db'
  unfolding create_aggregate
  create_aggregate-AreInside body db item db' h e =
      let (u, read, e1) = >>=-eq-ok (parse_cidr t body.prefix) _ e in
      let (v, free, e2) = >>=-eq-ok (aggregates_overlap t db body.prefix none) _ e1 in
      let (w, unique, e3) = >>=-eq-ok (require_unique db (strip body.prefix) none) _ e2 in
      let same : inserted_aggregate t db body ≡ db' = cc e3 in
      subst (AreInside t) same (inserted_aggregate-AreInside t body db h)

  update_aggregate-AreInside :
      (agg_id : ℕ) (body : AggregateUpdate) (db : Db) (item : AggregateItem) (db' : Db)
      → body.prefix ≡ none
      → AreInside t db
      → update_aggregate t percent agg_id body db ≡ ok (item, db')
      → AreInside t db'
  unfolding update_aggregate
  update_aggregate-AreInside agg_id body db item db' given h e =
      let (agg, found, e1) = >>=-eq-ok (require_aggregate db agg_id) _ e in
      let (u, checked, e2) = >>=-eq-ok (check_new_prefix t db agg_id body.prefix) _ e1 in
      let same : stored_aggregate t agg_id body db ≡ db' = cc e2 in
      subst (AreInside t) same (stored_aggregate-AreInside t agg_id body db given h)

  delete_aggregate-AreInside :
      (agg_id : ℕ) (db db' : Db)
      → AreInside t db
      → delete_aggregate agg_id db ≡ ok db'
      → AreInside t db'
  unfolding delete_aggregate
  delete_aggregate-AreInside agg_id db db' h e =
      let (agg, found, e1) = >>=-eq-ok (require_aggregate db agg_id) _ e in
      subst (AreInside t) (ok-inj (removed_aggregate agg_id db) db' e1)
        (removed_aggregate-AreInside t agg_id db h)

  -- The requests that leave the network of each aggregate as it is.
  abbrev pub KeepsNetworks : Request → Type 0
  KeepsNetworks (put_aggregate id body) = body.prefix ≡ none
  KeepsNetworks _ = Unit

  serve-AreInside :
      (r : Request) (db : Db)
      → KeepsNetworks r
      → AreInside t db
      → AreInside t (serve t percent r db)
  unfolding serve
  serve-AreInside (post_aggregate body) db k h =
      tables-keeps (AreInside t) (create_aggregate t percent body db) db h
        λ a db' e. create_aggregate-AreInside body db a db' h e
  serve-AreInside (put_aggregate id body) db k h =
      tables-keeps (AreInside t) (update_aggregate t percent id body db) db h
        λ a db' e. update_aggregate-AreInside id body db a db' k h e
  serve-AreInside (remove_aggregate id) db k h =
      tables_alone-keeps (AreInside t) (delete_aggregate id db) db h
        λ db' e. delete_aggregate-AreInside id db db' h e
  serve-AreInside (post_prefix body) db k h =
      tables-keeps (AreInside t) (create_prefix t body db) db h
        λ a db' e. create_prefix-AreInside t body db a db' h e
  serve-AreInside (put_prefix id body) db k h =
      tables-keeps (AreInside t) (update_prefix t id body db) db h
        λ a db' e. update_prefix-AreInside t id body db a db' h e
  serve-AreInside (remove_prefix id) db k h =
      tables_alone-keeps (AreInside t) (delete_prefix id db) db h
        λ db' e. delete_prefix-AreInside t id db db' h e

  -- If each prefix lies in the aggregate that it names, it does so after any sequence of requests
  -- that create, change and delete aggregates and prefixes, refused ones included, as long as no
  -- change of an aggregate sets its network.
  pub serve_all-AreInside :
      (rs : List Request) (db : Db)
      → All KeepsNetworks rs
      → AreInside t db
      → AreInside t (serve_all t percent rs db)
  unfolding serve_all
  serve_all-AreInside [] db k h = h
  serve_all-AreInside (r ∷ rs) db (k, ks) h =
      serve_all-AreInside rs (serve t percent r db) ks (serve-AreInside r db k h)
