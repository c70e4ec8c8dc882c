-- ===== src/Ipam/AggregateRoutes/Disjoint.antt =====
-- The endpoints keep the keys of the aggregates distinct and their networks pairwise disjoint.
use mathlib.Core.List.{map-append}
use net_soc_ops.Prelude.{
  ℕ, String, ◌≡◌, refl, sym, ◌∙◌, inl, inr, Bool, false, Option, none, some, List, [], ◌∷◌, All,
  Bool-cases, Option-cases, strip, modify_first, ◌==◌, arith,
}
use net_soc_ops.Prelude.Results.{ok, >>=-eq-ok}
use net_soc_ops.Ipam.Network.{Network}
use net_soc_ops.Ipam.Store.{NetText, Aggregate, Db}
use net_soc_ops.Ipam.Validators.{ipam_aggregate_overlaps_existing}
use net_soc_ops.Ipam.Validators.Overlap.{
  Disjoint, AreDisjoint, AreDisjoint-append, not_overlaps-Disjoint, not_overlaps-excluded,
  prefixes_of,
}
use net_soc_ops.Ipam.AggregateImport.{add_aggregate}
use net_soc_ops.Ipam.AggregateRoutes.{
  AggregateCreate, AggregateUpdate, AggregateItem, parse_cidr, aggregates_overlap, require_unique,
  require_aggregate, inserted_aggregate, create_aggregate, check_new_prefix, changed_aggregate,
  stored_aggregate, update_aggregate, removed_aggregate, delete_aggregate,
}
use net_soc_ops.Ipam.AggregateRoutes.Rows.{
  AreKeyed, AreKeyed-append, AreKeyed-modify, AreKeyed-select, AreDisjoint-select,
  AreDisjoint-modify, AreApart,
}

module _ (t : NetText) (nil : t.parse "" ≡ none)
    (trimmed : (s : String) (n : Network) → t.parse s ≡ some n → t.parse (strip s) ≡ some n) where
  pub record IsSound (db : Db) : Type 0 where
    pub keys : AreKeyed db.next_aggregate db.aggregates
    pub disjoint : AreDisjoint t (prefixes_of db.aggregates)

  not_overlaps-strip :
      (db : Db) (p : String) (exclude_id : Option ℕ)
      → ipam_aggregate_overlaps_existing t db p exclude_id ≡ false
      → t.parse (strip p) ≡ t.parse p
  unfolding ipam_aggregate_overlaps_existing
  not_overlaps-strip db p exclude_id h = elim (Option-cases (t.parse p)) [
    | inl bad ↦ cc (rw (bad, ipam_aggregate_overlaps_existing) at h)
    | inr (n, good) ↦ trimmed p n good ∙ sym good
  ]

  Disjoint-reading : (p p' q : String) → t.parse p' ≡ t.parse p → Disjoint t p q → Disjoint t p' q
  Disjoint-reading p p' q same d m n em en = d m n (sym same ∙ em) en

  All-Disjoint-reading :
      (p p' : String) (qs : List String)
      → t.parse p' ≡ t.parse p
      → All (λ q. Disjoint t q p) qs
      → All (λ q. Disjoint t q p') qs
  All-Disjoint-reading p p' [] same h = tt
  All-Disjoint-reading p p' (q ∷ qs) same (d, h) =
      (λ m n em en. d m n em (sym same ∙ en), All-Disjoint-reading p p' qs same h)

  AreApart-reading :
      (id : ℕ) (p p' : String) (bs : List Aggregate)
      → t.parse p' ≡ t.parse p
      → AreApart t id p bs
      → AreApart t id p' bs
  AreApart-reading id p p' [] same h = tt
  AreApart-reading id p p' (b ∷ bs) same (d, h) =
      (λ e. Disjoint-reading p p' b.prefix same (d e), AreApart-reading id p p' bs same h)

  -- What passes the test of the endpoint.
  not_overlapping :
      (db : Db) (p : String) (exclude_id : Option ℕ)
      → aggregates_overlap t db p exclude_id ≡ ok tt
      → ipam_aggregate_overlaps_existing t db p exclude_id ≡ false
  unfolding aggregates_overlap
  not_overlapping db p exclude_id h =
      elim (Bool-cases (ipam_aggregate_overlaps_existing t db p exclude_id)) [
        | inl e ↦ cc (rw e at h)
        | inr e ↦ e
      ]

  inserted-IsSound :
      (body : AggregateCreate) (db : Db)
      → IsSound db
      → aggregates_overlap t db body.prefix none ≡ ok tt
      → IsSound (inserted_aggregate t db body)
  unfolding inserted_aggregate add_aggregate
  inserted-IsSound body db h free =
      let out = not_overlapping db body.prefix none free in
      record {
        keys = AreKeyed-append db.next_aggregate _ db.aggregates refl h.keys;
        disjoint = rw map-append (
            AreDisjoint-append t _ (strip body.prefix) h.disjoint (
              All-Disjoint-reading body.prefix (strip body.prefix) _
                (not_overlaps-strip db body.prefix none out)
                (not_overlaps-Disjoint t db body.prefix nil out)));
      }

  pub create_aggregate-IsSound :
      (percent : ℕ → ℕ → ℕ) (body : AggregateCreate) (db : Db) (item : AggregateItem) (db' : Db)
      → IsSound db
      → create_aggregate t percent body db ≡ ok (item, db')
      → IsSound db'
  unfolding create_aggregate
  create_aggregate-IsSound percent body db item db' h e =
      let (u, read, e1) = >>=-eq-ok (parse_cidr t body.prefix) _ e in
      let (v, free, e2) = >>=-eq-ok (aggregates_overlap t db body.prefix none) _ e1 in
      let (w, unique, e3) = >>=-eq-ok (require_unique db (strip body.prefix) none) _ e2 in
      let same : inserted_aggregate t db body ≡ db' = cc e3 in
      rw same at (inserted-IsSound body db h free)

  -- A change without a new prefix keeps the networks.
  prefixes_of-modify_first :
      (p : Aggregate → Bool) (f : Aggregate → Aggregate) (as' : List Aggregate)
      → ((a : Aggregate) → (f a).prefix ≡ a.prefix)
      → prefixes_of (modify_first p f as') ≡ prefixes_of as'
  prefixes_of-modify_first p f [] same = refl
  prefixes_of-modify_first p f (a ∷ as') same =
      ground (arith, same a, prefixes_of-modify_first p f as' same)

  stored-AreDisjoint :
      (agg_id : ℕ) (prefix : Option String) (body : AggregateUpdate) (db : Db)
      → body.prefix ≡ prefix
      → IsSound db
      → check_new_prefix t db agg_id prefix ≡ ok tt
      → AreDisjoint t (prefixes_of (stored_aggregate t agg_id body db).aggregates)
  unfolding stored_aggregate changed_aggregate check_new_prefix
  stored-AreDisjoint agg_id none body db given h e =
      rw
        (prefixes_of-modify_first (λ a. a.id == agg_id) (changed_aggregate t body) db.aggregates
          (λ a. rw given))
        h.disjoint
  stored-AreDisjoint agg_id (some p) body db given h e =
      let (u, read, e1) = >>=-eq-ok (parse_cidr t p) _ e in
      let (v, free, e2) = >>=-eq-ok (aggregates_overlap t db p (some agg_id)) _ e1 in
      let out = not_overlapping db p (some agg_id) free in
      AreDisjoint-modify t agg_id db.next_aggregate (strip p) (changed_aggregate t body)
        db.aggregates (λ a. rw given) h.keys
        (AreApart-reading agg_id p (strip p) db.aggregates
          (not_overlaps-strip db p (some agg_id) out) (not_overlaps-excluded t db p agg_id nil out))
        h.disjoint

  stored-AreKeyed :
      (agg_id : ℕ) (body : AggregateUpdate) (db : Db)
      → IsSound db
      → AreKeyed db.next_aggregate (stored_aggregate t agg_id body db).aggregates
  unfolding stored_aggregate changed_aggregate
  stored-AreKeyed agg_id body db h =
      AreKeyed-modify (λ a. a.id == agg_id) (changed_aggregate t body) db.next_aggregate
        db.aggregates (λ a. refl) h.keys

  next_aggregate-stored :
      (agg_id : ℕ) (body : AggregateUpdate) (db : Db)
      → (stored_aggregate t agg_id body db).next_aggregate ≡ db.next_aggregate
  unfolding stored_aggregate
  next_aggregate-stored agg_id body db = refl

  pub update_aggregate-IsSound :
      (percent : ℕ → ℕ → ℕ) (agg_id : ℕ) (body : AggregateUpdate) (db : Db) (item : AggregateItem)
      (db' : Db)
      → IsSound db
      → update_aggregate t percent agg_id body db ≡ ok (item, db')
      → IsSound db'
  unfolding update_aggregate
  update_aggregate-IsSound percent agg_id body db item db' h e =
      let (agg, found, e1) = >>=-eq-ok (require_aggregate db agg_id) _ e in
      let (u, checked, e2) = >>=-eq-ok (check_new_prefix t db agg_id body.prefix) _ e1 in
      let same : stored_aggregate t agg_id body db ≡ db' = cc e2 in
      let sound : IsSound (stored_aggregate t agg_id body db) = record {
        keys = rw (next_aggregate-stored agg_id body db) (stored-AreKeyed agg_id body db h);
        disjoint = stored-AreDisjoint agg_id body.prefix body db refl h checked;
      } in
      rw same at sound

  pub delete_aggregate-IsSound :
      (agg_id : ℕ) (db db' : Db) → IsSound db → delete_aggregate agg_id db ≡ ok db' → IsSound db'
  unfolding delete_aggregate removed_aggregate
  delete_aggregate-IsSound agg_id db db' h e =
      let (agg, found, e1) = >>=-eq-ok (require_aggregate db agg_id) _ e in
      let same : removed_aggregate agg_id db ≡ db' = cc e1 in
      let sound : IsSound (removed_aggregate agg_id db) = record {
        keys = AreKeyed-select _ db.next_aggregate db.aggregates h.keys;
        disjoint = AreDisjoint-select t _ db.aggregates h.disjoint;
      } in
      rw same at sound
