-- ===== src/Ipam/PrefixRoutes/Covers.antt =====
-- Changes of the aggregates that leave each prefix inside the aggregate that it names.
use net_soc_ops.Prelude.{
  ℕ, String, ◌≡◌, refl, ◌∙◌, inl, inr, Bool, true, false, not, Option, none, some, List, [], ◌∷◌,
  ◌++◌, All, Bool-cases, find, select, update, modify_first, ==_iff, ◌==◌, arith, if◌then◌else◌,
}
use net_soc_ops.Ipam.Store.{NetText, Aggregate, Prefix, Db}
use net_soc_ops.Ipam.Validators.{aggregate_by_id}
use net_soc_ops.Ipam.Ranges.{belongs_to}
use net_soc_ops.Ipam.AggregateImport.{add_aggregate}
use net_soc_ops.Ipam.AggregateRoutes.{
  AggregateCreate, AggregateUpdate, inserted_aggregate, changed_aggregate, stored_aggregate,
  removed_aggregate,
}
use net_soc_ops.Ipam.PrefixImport.Place.{LiesIn, LiesInOption}

module _ {ℓ} {A : Type ℓ} where
  pub find-append_some :
      (p : A → Bool) (xs ys : List A) (u : A) → find p xs ≡ some u → find p (xs ++ ys) ≡ some u
  find-append_some p [] ys u h = cc
  find-append_some p (x ∷ xs) ys u h = ground (arith, find-append_some p xs ys u)

  -- The query of one key skips the rows that another selection drops.
  find-select-covered :
      (p q : A → Bool) (xs : List A)
      → ((x : A) → p x ≡ true → q x ≡ true)
      → find p (select q xs) ≡ find p xs
  find-select-covered p q [] covers = refl
  find-select-covered p q (x ∷ xs) covers =
      ground (arith, find-select-covered p q xs covers, covers x)

module _ (t : NetText) where
  abbrev pub IsInside : Db → Prefix → Type 0
  IsInside db p = LiesInOption t db p.prefix p.aggregate_id

  abbrev pub AreInside : Db → Type 0
  AreInside db = All (IsInside db) db.prefixes

  -- The aggregate of the key is found in the new table, with the same network.
  abbrev pub Covers : Db → Db → ℕ → Type 0
  Covers db db' id =
      (agg : Aggregate)
      → aggregate_by_id db id ≡ some agg
      → (agg' : Aggregate) × (aggregate_by_id db' id ≡ some agg') × (agg'.prefix ≡ agg.prefix)

  LiesIn-Covers :
      (db db' : Db) (prefix : String) (id : ℕ)
      → Covers db db' id
      → LiesIn t db prefix id
      → LiesIn t db' prefix id
  LiesIn-Covers db db' prefix id covers l =
      let (agg', found, same) = covers l.agg l.found in
      record {
        agg = agg';
        found = found;
        net = l.net;
        parsed = l.parsed;
        agg_net = l.agg_net;
        agg_parsed = rw same l.agg_parsed;
        inside = l.inside;
      }

  pub LiesInOption-Covers :
      (db db' : Db) (prefix : String) (id : Option ℕ)
      → ((id : ℕ) → Covers db db' id)
      → LiesInOption t db prefix id
      → LiesInOption t db' prefix id
  LiesInOption-Covers db db' prefix none covers l = tt
  LiesInOption-Covers db db' prefix (some id) covers l =
      LiesIn-Covers db db' prefix id (covers id) l

  pub All-Covers :
      (db db' : Db) (ps : List Prefix)
      → ((id : ℕ) → Covers db db' id)
      → All (IsInside db) ps
      → All (IsInside db') ps
  All-Covers db db' [] covers h = tt
  All-Covers db db' (p ∷ ps) covers (k, h) =
      (LiesInOption-Covers db db' p.prefix p.aggregate_id covers k, All-Covers db db' ps covers h)

  pub inserted_aggregate-AreInside :
      (body : AggregateCreate) (db : Db) → AreInside db → AreInside (inserted_aggregate t db body)
  unfolding inserted_aggregate add_aggregate
  inserted_aggregate-AreInside body db h =
      All-Covers db _ db.prefixes
        (λ id agg found. (agg, find-append_some (λ a. a.id == id) db.aggregates _ agg found, refl))
        h

  pub find-changed :
      (p q : Aggregate → Bool) (f : Aggregate → Aggregate) (as' : List Aggregate) (agg : Aggregate)
      → ((a : Aggregate) → p (f a) ≡ p a)
      → ((a : Aggregate) → (f a).prefix ≡ a.prefix)
      → find p as' ≡ some agg
      → (agg' : Aggregate) × (find p (modify_first q f as') ≡ some agg')
        × (agg'.prefix ≡ agg.prefix)
  find-changed p q f [] agg keeps same h = cc
  find-changed p q f (a ∷ as') agg keeps same h = elim (Bool-cases (p a)) [
    | inl e ↦ elim (Bool-cases (q a)) [
      | inl e' ↦ (f a, rw e' (rw (keeps a) (rw e)), same a ∙ cc (rw e at h))
      | inr e' ↦ (a, rw e' (rw e), cc (rw e at h))
    ]
    | inr e ↦ elim (Bool-cases (q a)) [
      | inl e' ↦ (agg, rw e' (rw (keeps a) (rw e (rw e at h))), refl)
      | inr e' ↦
          let (agg', found, k) = find-changed p q f as' agg keeps same (rw e at h) in
          (agg', rw e' (rw e found), k)
    ]
  ]

  -- A change of an aggregate that sets no prefix.
  pub stored_aggregate-AreInside :
      (agg_id : ℕ) (body : AggregateUpdate) (db : Db)
      → body.prefix ≡ none
      → AreInside db
      → AreInside (stored_aggregate t agg_id body db)
  unfolding stored_aggregate changed_aggregate
  stored_aggregate-AreInside agg_id body db given h =
      All-Covers db _ db.prefixes
        (λ id agg found.
          find-changed (λ a. a.id == id) (λ a. a.id == agg_id) (changed_aggregate t body)
            db.aggregates agg (λ a. refl) (λ a. rw given) found)
        h

  released-Covers :
      (agg_id id : ℕ) (db : Db)
      → (id == agg_id) ≡ false
      → Covers db (removed_aggregate agg_id db) id
  unfolding removed_aggregate
  released-Covers agg_id id db other agg found = (
    agg,
    find-select-covered (λ a. a.id == id) (λ a. not (a.id == agg_id)) db.aggregates
          (λ a h. ground (arith, ==_iff a.id id, ==_iff a.id agg_id, ==_iff id agg_id))
        ∙ found,
    refl,
  )

  abbrev release : ℕ → Prefix → Prefix
  release agg_id p = if belongs_to agg_id p then record p { aggregate_id = none } else p

  release-IsInside :
      (agg_id : ℕ) (db : Db) (p : Prefix) (id : Option ℕ)
      → p.aggregate_id ≡ id
      → LiesInOption t db p.prefix id
      → IsInside (removed_aggregate agg_id db) (release agg_id p)
  release-IsInside agg_id db p none given k = rw given tt
  release-IsInside agg_id db p (some id) given k = elim (Bool-cases (id == agg_id)) [
    | inl e ↦ rw given (rw e tt)
    | inr e ↦
        let l =
          LiesIn-Covers db (removed_aggregate agg_id db) p.prefix id
            (released-Covers agg_id id db e) k in
        rw given (rw e l)
  ]

  released-AreInside :
      (agg_id : ℕ) (db : Db) (ps : List Prefix)
      → All (IsInside db) ps
      → All
          (IsInside (removed_aggregate agg_id db))
          (update (belongs_to agg_id) (λ p. record p { aggregate_id = none }) ps)
  released-AreInside agg_id db [] h = tt
  released-AreInside agg_id db (p ∷ ps) (k, h) =
      (release-IsInside agg_id db p p.aggregate_id refl k, released-AreInside agg_id db ps h)

  pub removed_aggregate-AreInside :
      (agg_id : ℕ) (db : Db) → AreInside db → AreInside (removed_aggregate agg_id db)
  removed_aggregate-AreInside agg_id db h =
      unfold removed_aggregate in released-AreInside agg_id db db.prefixes h
