-- ===== src/Ipam/Merge/Placed.antt =====
-- The imports keep each prefix inside the aggregate that it names.
use mathlib.Core.Path.{subst}
use net_soc_ops.Prelude.{
  ℕ, String, ◌≡◌, refl, sym, ◌∙◌, inl, inr, true, Option, none, some, List, [], ◌∷◌, All,
  All-append, All-modify_first, Option-cases, find, strip, eq_iff,
}
use net_soc_ops.Prelude.Results.{Result, ok, ok-inj, err, >>=-eq-ok, Result-cases}
use net_soc_ops.Ipam.Network.{Network}
use net_soc_ops.Ipam.Store.{NetText, Prefix, Db}
use net_soc_ops.Ipam.AggregateRoutes.Rows.{AreKeyed}
use net_soc_ops.Ipam.PrefixImport.Place.{LiesInOption, check-LiesInOption}
use net_soc_ops.Ipam.PrefixRoutes.Covers.{IsInside, All-Covers}
use net_soc_ops.Ipam.Resolve.{TypeError, resolve_aggregate_id_for_prefix}
use net_soc_ops.Ipam.Resolve.Smallest.{check-resolve}
use net_soc_ops.Ipam.Merge.{
  Raised, IncomingAggregate, IncomingPrefix, AggregateLoop, read_aggregates, commit_aggregates,
  PrefixLoop, merged_prefix, is_text, place_prefix, or_version_mismatch, merge_prefix_row, merge_if,
  row_of, commit_prefixes, read_prefixes, store_prefixes, import_rows,
}
use net_soc_ops.Ipam.Merge.Kept.{IsKept, commit_aggregates-IsKept, read_aggregates-IsKept}

module _ (t : NetText) (nil : t.parse "" ≡ none)
    (trimmed : (s : String) (n : Network) → t.parse s ≡ some n → t.parse (strip s) ≡ some n) where
  module _ (base : Db) (keys : AreKeyed base.next_aggregate base.aggregates) where
    -- The second loop leaves the aggregates, and what it has found lies in place.
    record IsGoing (s : PrefixLoop) : Type 0 where
      same : s.db.aggregates ≡ base.aggregates
      same_next : s.db.next_aggregate ≡ base.next_aggregate
      inside : All (IsInside t base) s.db.prefixes
      placed : All (λ x. LiesInOption t base x.0.prefix x.1) s.added

    resolved-LiesInOption :
        (db : Db) (s : String) (id : Option ℕ)
        → db.aggregates ≡ base.aggregates
        → resolve_aggregate_id_for_prefix t db s ≡ ok id
        → LiesInOption t base s id
    unfolding resolve_aggregate_id_for_prefix
    resolved-LiesInOption db s none same h = tt
    resolved-LiesInOption db s (some id) same h = elim (Option-cases (t.parse s)) [
      | inl bad ↦ cc (rw (bad, resolve_aggregate_id_for_prefix) at h)
      | inr (n, good) ↦
          let here = rw same at h in
          check-LiesInOption t base s (some id)
            (check-resolve t nil base s id keys (trimmed s n good ∙ sym good) here)
    ]

    merged-IsInside :
        (i : IncomingPrefix) (id : Option ℕ) (p : Prefix)
        → is_text i.prefix p ≡ true
        → LiesInOption t base i.prefix id
        → IsInside t base p
        → IsInside t base (merged_prefix i id p)
    merged-IsInside i none p e l h = h
    merged-IsInside i (some id) p e l h = rw ((eq_iff p.prefix i.prefix).0 e) l

    place_prefix-IsGoing :
        (s : PrefixLoop) (i : IncomingPrefix) (id : Option ℕ)
        → IsGoing s
        → LiesInOption t base i.prefix id
        → IsGoing (place_prefix s i id)
    unfolding place_prefix
    place_prefix-IsGoing s i id h l = elim (Option-cases (find (is_text i.prefix) s.db.prefixes)) [
      | inl absent ↦
          rw (absent, place_prefix)
            (record {
              same = h.same;
              same_next = h.same_next;
              inside = h.inside;
              placed = All-append _ s.added ((i, id) ∷ []) h.placed (l, tt);
            })
      | inr (existing, found) ↦
          rw (found, place_prefix)
            (record {
              same = h.same;
              same_next = h.same_next;
              inside =
                  All-modify_first (IsInside t base) (is_text i.prefix) (merged_prefix i id)
                    s.db.prefixes (λ p e k. merged-IsInside i id p e l k) h.inside;
              placed = h.placed;
            })
    ]

    merge_if-IsGoing :
        (s s' : PrefixLoop) (o : Option IncomingPrefix)
        → IsGoing s
        → merge_if t s o ≡ ok s'
        → IsGoing s'
    unfolding merge_prefix_row
    merge_if-IsGoing s s' none h e = subst IsGoing (ok-inj s s' e) h
    merge_if-IsGoing s s' (some i) h e =
        let (id, found, e1) =
          >>=-eq-ok (or_version_mismatch (resolve_aggregate_id_for_prefix t s.db i.prefix)) _ e in
        subst IsGoing (ok-inj (place_prefix s i id) s' e1) (
          place_prefix-IsGoing s i id h
            (resolved-LiesInOption s.db i.prefix id h.same (no_mismatch _ id found)))
      where
        no_mismatch :
            (r : Result TypeError (Option ℕ)) (id : Option ℕ)
            → or_version_mismatch r ≡ ok id
            → r ≡ ok id
        no_mismatch (ok id') id e = cc
        no_mismatch (err x) id e = cc

    read_prefixes-IsGoing {ℓ} :
        {Row : Type ℓ} (read : Row → Result Raised (Option IncomingPrefix)) (rows : List Row)
        (s s' : PrefixLoop)
        → IsGoing s
        → read_prefixes t read s rows ≡ ok s'
        → IsGoing s'
    unfolding read_prefixes
    read_prefixes-IsGoing read [] s s' h e = subst IsGoing (ok-inj s s' e) h
    read_prefixes-IsGoing read (row ∷ rows) s s' h e =
        let (incoming, done, e1) = >>=-eq-ok (read row) _ e in
        let (s1, step, e2) = >>=-eq-ok (merge_if t s incoming) _ e1 in
        read_prefixes-IsGoing read rows s1 s' (merge_if-IsGoing s s1 incoming h step) e2

    -- The tables that the second commit leaves.
    record IsDone (db : Db) : Type 0 where
      same : db.aggregates ≡ base.aggregates
      same_next : db.next_aggregate ≡ base.next_aggregate
      inside : All (IsInside t base) db.prefixes

    commit_prefixes-IsDone :
        (added : List (IncomingPrefix × Option ℕ)) (db : Db)
        → IsDone db
        → All (λ x. LiesInOption t base x.0.prefix x.1) added
        → IsDone (commit_prefixes added db)
    unfolding commit_prefixes
    commit_prefixes-IsDone [] db h k = h
    commit_prefixes-IsDone ((i, id) ∷ added) db h (l, k) =
        commit_prefixes-IsDone added _
          (record {
            same = h.same;
            same_next = h.same_next;
            inside =
                All-append (IsInside t base) db.prefixes (row_of i id db.next_prefix ∷ []) h.inside
                  (l, tt);
          })
          k

    done-IsKept : (db : Db) → IsDone db → IsKept t db
    done-IsKept db h = record {
      keys = rw h.same (rw h.same_next keys);
      inside = All-Covers t base db db.prefixes (λ id agg e. (agg, rw h.same e, refl)) h.inside;
    }

    store_prefixes-IsKept {ℓ} :
        {Row : Type ℓ} (read : Row → Result Raised (Option IncomingPrefix)) (counts : ℕ × ℕ)
        (rows : List Row)
        → IsKept t base
        → IsKept t (store_prefixes t read counts rows base).1
    unfolding store_prefixes
    store_prefixes-IsKept read (created, updated) rows h =
        let begin : PrefixLoop = record { db = base; added = []; created = 0; updated = 0 } in
        elim (Result-cases (read_prefixes t read begin rows)) [
          | inl (e, bad) ↦ rw (bad, store_prefixes) h
          | inr (s, good) ↦
              let going : IsGoing begin = record {
                same = refl;
                same_next = refl;
                inside = h.inside;
                placed = tt;
              } in
              let g = read_prefixes-IsGoing read rows begin s going good in
              rw (good, store_prefixes)
                (done-IsKept (commit_prefixes s.added s.db) (
                  commit_prefixes-IsDone s.added s.db
                    (record { same = g.same; same_next = g.same_next; inside = g.inside })
                    g.placed))
        ]

  -- Whatever rows an import from NetBox or phpIPAM reads, and whether it returns or raises: if the
  -- aggregates have distinct keys and each prefix lies in the aggregate that it names, this holds
  -- of the tables that the import leaves. The empty text must be no network, and a text that is a
  -- network must be the same network without the space around it.
  pub import_rows-IsKept {ℓ} :
      {Row : Type ℓ} (read_aggregate : Row → Result Raised (Option IncomingAggregate))
      (read_prefix : Row → Result Raised (Option IncomingPrefix)) (aggregates prefixes : List Row)
      (db : Db)
      → IsKept t db
      → IsKept t (import_rows t read_aggregate read_prefix aggregates prefixes db).1
  unfolding import_rows
  import_rows-IsKept read_aggregate read_prefix aggregates prefixes db h =
      let begin : AggregateLoop = record { db = db; added = []; created = 0; updated = 0 } in
      elim (Result-cases (read_aggregates read_aggregate begin aggregates)) [
        | inl (e, bad) ↦ rw (bad, import_rows) h
        | inr (s, good) ↦
            rw (good, import_rows)
              (elim (Result-cases (commit_aggregates [] s.added s.db)) [
                | inl (e, bad) ↦ rw bad h
                | inr (db', committed) ↦
                    let k =
                      commit_aggregates-IsKept t [] s.added s.db db'
                        (read_aggregates-IsKept t read_aggregate aggregates begin s h good)
                        committed in
                    rw committed (
                      store_prefixes-IsKept db' k.keys read_prefix (s.created, s.updated) prefixes
                        k)
              ])
      ]
