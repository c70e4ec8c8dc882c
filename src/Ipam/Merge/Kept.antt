-- ===== src/Ipam/Merge/Kept.antt =====
-- The first loop of an import and its commit keep the keys of the aggregates distinct and each
-- prefix inside the aggregate that it names.
use mathlib.Core.Path.{subst}
use net_soc_ops.Prelude.{
  String, ◌≡◌, refl, inl, inr, Option, none, some, List, [], ◌∷◌, Bool-cases, Option-cases, elem,
  find, ◌==◌,
}
use net_soc_ops.Prelude.Results.{Result, ok, ok-inj, >>=-eq-ok}
use net_soc_ops.Ipam.Store.{NetText, Db}
use net_soc_ops.Ipam.AggregateImport.{add_aggregate}
use net_soc_ops.Ipam.AggregateRoutes.Rows.{AreKeyed, AreKeyed-append, AreKeyed-modify}
use net_soc_ops.Ipam.PrefixRoutes.Covers.{AreInside, All-Covers, find-changed, find-append_some}
use net_soc_ops.Ipam.Merge.{
  Raised, IncomingAggregate, AggregateLoop, merged_aggregate, has_prefix, merge_aggregate_row,
  read_aggregates, commit_aggregates, aggregate_if,
}

module _ (t : NetText) where
  -- The keys of the aggregates are distinct, and each prefix lies in the aggregate that it names.
  pub record IsKept (db : Db) : Type 0 where
    pub keys : AreKeyed db.next_aggregate db.aggregates
    pub inside : AreInside t db

  merge_aggregate_row-IsKept :
      (s : AggregateLoop) (i : IncomingAggregate)
      → IsKept s.db
      → IsKept (merge_aggregate_row s i).db
  unfolding merge_aggregate_row
  merge_aggregate_row-IsKept s i h =
      elim (Option-cases (find (has_prefix i.prefix) s.db.aggregates)) [
        | inl absent ↦ rw (absent, merge_aggregate_row) h
        | inr (existing, found) ↦
            rw (found, merge_aggregate_row)
              (record {
                keys =
                    AreKeyed-modify (has_prefix i.prefix) (merged_aggregate i) s.db.next_aggregate
                      s.db.aggregates (λ a. refl) h.keys;
                inside =
                    All-Covers t s.db _ s.db.prefixes
                      (λ id agg e.
                        find-changed t (λ a. a.id == id) (has_prefix i.prefix) (merged_aggregate i)
                          s.db.aggregates agg (λ a. refl) (λ a. refl) e)
                      h.inside;
              })
      ]

  add_aggregate-IsKept :
      (i : IncomingAggregate) (db : Db)
      → IsKept db
      → IsKept (add_aggregate i.prefix i.rir i.date_added i.description db)
  unfolding add_aggregate
  add_aggregate-IsKept i db h = record {
    keys = AreKeyed-append db.next_aggregate _ db.aggregates refl h.keys;
    inside =
        All-Covers t db _ db.prefixes
          (λ id agg found.
            (agg, find-append_some (λ a. a.id == id) db.aggregates _ agg found, refl))
          h.inside;
  }

  pub commit_aggregates-IsKept :
      (seen : List String) (is : List IncomingAggregate) (db db' : Db)
      → IsKept db
      → commit_aggregates seen is db ≡ ok db'
      → IsKept db'
  unfolding commit_aggregates
  commit_aggregates-IsKept seen [] db db' h e = subst IsKept (ok-inj db db' e) h
  commit_aggregates-IsKept seen (i ∷ is) db db' h e = elim (Bool-cases (elem i.prefix seen)) [
    | inl twice ↦ cc (rw twice at e)
    | inr fresh ↦
        commit_aggregates-IsKept (i.prefix ∷ seen) is
          (add_aggregate i.prefix i.rir i.date_added i.description db) db'
          (add_aggregate-IsKept i db h) (rw fresh at e)
  ]

  aggregate_if-IsKept :
      (s : AggregateLoop) (o : Option IncomingAggregate)
      → IsKept s.db
      → IsKept (aggregate_if s o).db
  aggregate_if-IsKept s none h = h
  aggregate_if-IsKept s (some i) h = merge_aggregate_row-IsKept s i h

  pub read_aggregates-IsKept {ℓ} :
      {Row : Type ℓ} (read : Row → Result Raised (Option IncomingAggregate)) (rows : List Row)
      (s s' : AggregateLoop)
      → IsKept s.db
      → read_aggregates read s rows ≡ ok s'
      → IsKept s'.db
  unfolding read_aggregates
  read_aggregates-IsKept read [] s s' h e = subst (λ x. IsKept x.db) (ok-inj s s' e) h
  read_aggregates-IsKept read (row ∷ rows) s s' h e =
      let (incoming, done, e1) = >>=-eq-ok (read row) _ e in
      read_aggregates-IsKept read rows (aggregate_if s incoming) s'
        (aggregate_if-IsKept s incoming h) e1
