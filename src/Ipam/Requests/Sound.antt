-- ===== src/Ipam/Requests/Sound.antt =====
-- The aggregates stay pairwise disjoint under every sequence of requests.
use net_soc_ops.Prelude.{
  ℕ, String, ◌≡◌, ap, none, some, List, [], ◌∷◌, strip, not, select, modify_first, ◌==◌,
}
use net_soc_ops.Prelude.Results.{ok, ok-inj, >>=-eq-ok}
use net_soc_ops.Ipam.Network.{Network}
use net_soc_ops.Ipam.Store.{NetText, Aggregate, Prefix, Db}
use net_soc_ops.Ipam.AggregateRoutes.{
  parse_cidr, create_aggregate, update_aggregate, delete_aggregate,
}
use net_soc_ops.Ipam.AggregateRoutes.Disjoint.{
  IsSound, create_aggregate-IsSound, update_aggregate-IsSound, delete_aggregate-IsSound,
}
use net_soc_ops.Ipam.PrefixRoutes.{
  PrefixCreate, PrefixUpdate, prefix_in_aggregate, inserted_prefix, create_prefix, require_prefix,
  check_prefix_text, check_place, changed_prefix, update_prefix, delete_prefix,
}
use net_soc_ops.Ipam.Requests.{
  Request, post_aggregate, put_aggregate, remove_aggregate, post_prefix, put_prefix, remove_prefix,
  serve, serve_all,
}
use net_soc_ops.Ipam.Requests.Kept.{tables-keeps, tables_alone-keeps}

-- What the table of aggregates is.
abbrev aggregate_table : Db → List Aggregate × ℕ
aggregate_table db = (db.aggregates, db.next_aggregate)

create_prefix-table :
    (t : NetText) (body : PrefixCreate) (db : Db) (p : Prefix) (db' : Db)
    → create_prefix t body db ≡ ok (p, db')
    → aggregate_table db ≡ aggregate_table db'
unfolding create_prefix inserted_prefix
create_prefix-table t body db p db' e =
    let (u, read, e1) = >>=-eq-ok (parse_cidr t body.prefix) _ e in
    let (v, placed, e2) =
      >>=-eq-ok (prefix_in_aggregate t db (strip body.prefix) body.aggregate_id) _ e1 in
    let same : inserted_prefix body db ≡ db' = cc e2 in ap aggregate_table same

update_prefix-table :
    (t : NetText) (pref_id : ℕ) (body : PrefixUpdate) (db : Db) (p : Prefix) (db' : Db)
    → update_prefix t pref_id body db ≡ ok (p, db')
    → aggregate_table db ≡ aggregate_table db'
unfolding update_prefix
update_prefix-table t pref_id body db p db' e =
    let (q, found, e1) = >>=-eq-ok (require_prefix db pref_id) _ e in
    let (u, read, e2) = >>=-eq-ok (check_prefix_text t body.prefix) _ e1 in
    let (v, checked, e3) = >>=-eq-ok (check_place t db body q) _ e2 in
    let changed : Db = record db {
      prefixes = modify_first (λ x. x.id == pref_id) (changed_prefix body) db.prefixes;
    } in
    let same : changed ≡ db' = cc e3 in ap aggregate_table same

delete_prefix-table :
    (pref_id : ℕ) (db db' : Db)
    → delete_prefix pref_id db ≡ ok db'
    → aggregate_table db ≡ aggregate_table db'
unfolding delete_prefix
delete_prefix-table pref_id db db' e =
    let (q, found, e1) = >>=-eq-ok (require_prefix db pref_id) _ e in
    let rest : Db = record db { prefixes = select (λ x. not (x.id == pref_id)) db.prefixes } in
    ap aggregate_table (ok-inj rest db' e1)

module _ (t : NetText) (nil : t.parse "" ≡ none)
    (trimmed : (s : String) (n : Network) → t.parse s ≡ some n → t.parse (strip s) ≡ some n)
    (percent : ℕ → ℕ → ℕ) where
  same_table-IsSound :
      (db db' : Db)
      → aggregate_table db ≡ aggregate_table db'
      → IsSound t nil trimmed db
      → IsSound t nil trimmed db'
  same_table-IsSound db db' same h = record {
    keys = rw (← ap (λ x. x.0) same) (rw (← ap (λ x. x.1) same) h.keys);
    disjoint = rw (← ap (λ x. x.0) same) h.disjoint;
  }

  serve-IsSound :
      (r : Request) (db : Db)
      → IsSound t nil trimmed db
      → IsSound t nil trimmed (serve t percent r db)
  unfolding serve
  serve-IsSound (post_aggregate body) db h =
      tables-keeps (IsSound t nil trimmed) (create_aggregate t percent body db) db h
        λ a db' e. create_aggregate-IsSound t nil trimmed percent body db a db' h e
  serve-IsSound (put_aggregate id body) db h =
      tables-keeps (IsSound t nil trimmed) (update_aggregate t percent id body db) db h
        λ a db' e. update_aggregate-IsSound t nil trimmed percent id body db a db' h e
  serve-IsSound (remove_aggregate id) db h =
      tables_alone-keeps (IsSound t nil trimmed) (delete_aggregate id db) db h
        λ db' e. delete_aggregate-IsSound t nil trimmed id db db' h e
  serve-IsSound (post_prefix body) db h =
      tables-keeps (IsSound t nil trimmed) (create_prefix t body db) db h
        λ a db' e. same_table-IsSound db db' (create_prefix-table t body db a db' e) h
  serve-IsSound (put_prefix id body) db h =
      tables-keeps (IsSound t nil trimmed) (update_prefix t id body db) db h
        λ a db' e. same_table-IsSound db db' (update_prefix-table t id body db a db' e) h
  serve-IsSound (remove_prefix id) db h =
      tables_alone-keeps (IsSound t nil trimmed) (delete_prefix id db) db h
        λ db' e. same_table-IsSound db db' (delete_prefix-table id db db' e) h

  -- If the aggregates have distinct keys, all below the next key, and pairwise disjoint networks,
  -- they have so after any sequence of requests that create, change and delete aggregates and
  -- prefixes, refused ones included. The empty text must be no network, and a text that is a
  -- network must be the same network without the space around it.
  pub serve_all-IsSound :
      (rs : List Request) (db : Db)
      → IsSound t nil trimmed db
      → IsSound t nil trimmed (serve_all t percent rs db)
  unfolding serve_all
  serve_all-IsSound [] db h = h
  serve_all-IsSound (r ∷ rs) db h =
      serve_all-IsSound rs (serve t percent r db) (serve-IsSound r db h)
