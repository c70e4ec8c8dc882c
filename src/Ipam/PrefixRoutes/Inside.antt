-- ===== src/Ipam/PrefixRoutes/Inside.antt =====
-- The endpoints keep each prefix inside the aggregate that it names.
use net_soc_ops.Prelude.{
  ℕ, String, ◌≡◌, refl, ◌∙◌, inl, inr, not, Option, none, some, List, [], ◌∷◌, All, All-append,
  All-select, Bool-cases, Option-cases, strip, find, select, modify_first, ◌==◌,
}
use mathlib.Core.Path.{subst}
use net_soc_ops.Prelude.Results.{ok, ok-inj, >>=-eq-ok, Result-cases}
use net_soc_ops.Ipam.Store.{NetText, Prefix, Db}
use net_soc_ops.Ipam.Validators.{check_prefix_in_aggregate}
use net_soc_ops.Ipam.AggregateRoutes.{parse_cidr}
use net_soc_ops.Ipam.PrefixImport.Place.{LiesInOption, LiesInOption-transfer, check-LiesInOption}
use net_soc_ops.Ipam.PrefixRoutes.{
  PrefixCreate, PrefixUpdate, prefix_in_aggregate, inserted_prefix, create_prefix, require_prefix,
  check_prefix_text, set_or, changed_prefix, check_place, update_prefix, delete_prefix,
}
use net_soc_ops.Ipam.PrefixRoutes.Covers.{
  IsInside, AreInside, Covers, LiesInOption-Covers, All-Covers,
}

module _ (t : NetText) where
  prefix_in_aggregate-LiesInOption :
      (db : Db) (prefix : String) (id : Option ℕ)
      → prefix_in_aggregate t db prefix id ≡ ok tt
      → LiesInOption t db prefix id
  unfolding prefix_in_aggregate
  prefix_in_aggregate-LiesInOption db prefix id h =
      elim (Result-cases (check_prefix_in_aggregate t db prefix id)) [
        | inl (e, bad) ↦ cc (rw bad at h)
        | inr (u, good) ↦ check-LiesInOption t db prefix id good
      ]

  inserted_prefix-AreInside :
      (body : PrefixCreate) (db : Db)
      → AreInside t db
      → LiesInOption t db (strip body.prefix) body.aggregate_id
      → AreInside t (inserted_prefix body db)
  unfolding inserted_prefix
  inserted_prefix-AreInside body db h l =
      All-append _ db.prefixes _
        (All-Covers t db _ db.prefixes (λ id agg found. (agg, found, refl)) h)
        (LiesInOption-transfer t db _ (strip body.prefix) body.aggregate_id refl l, tt)

  pub create_prefix-AreInside :
      (body : PrefixCreate) (db : Db) (p : Prefix) (db' : Db)
      → AreInside t db
      → create_prefix t body db ≡ ok (p, db')
      → AreInside t db'
  unfolding create_prefix
  create_prefix-AreInside body db p db' h e =
      let (u, read, e1) = >>=-eq-ok (parse_cidr t body.prefix) _ e in
      let (v, placed, e2) =
        >>=-eq-ok (prefix_in_aggregate t db (strip body.prefix) body.aggregate_id) _ e1 in
      let same : inserted_prefix body db ≡ db' = cc e2 in
      subst (AreInside t) same (
        inserted_prefix-AreInside body db h
          (prefix_in_aggregate-LiesInOption db (strip body.prefix) body.aggregate_id placed))

  -- The row that the check was made for, after the assignments.
  check_place-IsInside :
      (prefix : Option String) (id : Option ℕ) (body : PrefixUpdate) (db : Db) (p : Prefix)
      → body.prefix ≡ prefix
      → body.aggregate_id ≡ id
      → IsInside t db p
      → check_place t db body p ≡ ok tt
      → IsInside t db (changed_prefix body p)
  unfolding check_place changed_prefix
  check_place-IsInside none none body db p given given' k h = rw given (rw given' k)
  check_place-IsInside (some s) id body db p given given' k h = rw given (
      prefix_in_aggregate-LiesInOption db (strip s) (set_or body.aggregate_id p.aggregate_id)
        (rw given at h))
  check_place-IsInside none (some id) body db p given given' k h = rw given (
      rw given'
        (prefix_in_aggregate-LiesInOption db p.prefix (some id) (rw given' at (rw given at h))))

  stored_prefix : ℕ → PrefixUpdate → Db → Db
  stored_prefix pref_id body db = record db {
    prefixes = modify_first (λ x. x.id == pref_id) (changed_prefix body) db.prefixes;
  }

  modified-AreInside :
      (pref_id : ℕ) (body : PrefixUpdate) (db db' : Db) (p : Prefix) (ps : List Prefix)
      → db'.aggregates ≡ db.aggregates
      → find (λ x. x.id == pref_id) ps ≡ some p
      → check_place t db body p ≡ ok tt
      → All (IsInside t db) ps
      → All (IsInside t db') (modify_first (λ x. x.id == pref_id) (changed_prefix body) ps)
  modified-AreInside pref_id body db db' p [] same found checked h = cc
  modified-AreInside pref_id body db db' p (x ∷ ps) same found checked (k, h) =
      let covers : (id : ℕ) → Covers t db db' id = λ id agg e. (agg, rw same e, refl) in
      elim (Bool-cases (x.id == pref_id)) [
        | inl e ↦
            let here : x ≡ p = cc (rw e at found) in
            rw e (
              LiesInOption-Covers t db db' (changed_prefix body x).prefix
                  (changed_prefix body x).aggregate_id covers
                  (check_place-IsInside body.prefix body.aggregate_id body db x refl refl k
                    (rw here checked)),
              All-Covers t db db' ps covers h,
            )
        | inr e ↦ rw e (
          LiesInOption-Covers t db db' x.prefix x.aggregate_id covers k,
          modified-AreInside pref_id body db db' p ps same (rw e at found) checked h,
        )
      ]

  found_prefix :
      (db : Db) (pref_id : ℕ) (p : Prefix)
      → require_prefix db pref_id ≡ ok p
      → find (λ x. x.id == pref_id) db.prefixes ≡ some p
  found_prefix db pref_id p h = elim (Option-cases (find (λ x. x.id == pref_id) db.prefixes)) [
    | inl e ↦ cc (rw (e, require_prefix) at h)
    | inr (q, e) ↦ e ∙ cc (rw (e, require_prefix) at h)
  ]

  pub update_prefix-AreInside :
      (pref_id : ℕ) (body : PrefixUpdate) (db : Db) (q : Prefix) (db' : Db)
      → AreInside t db
      → update_prefix t pref_id body db ≡ ok (q, db')
      → AreInside t db'
  unfolding update_prefix stored_prefix
  update_prefix-AreInside pref_id body db q db' h e =
      let (p, found, e1) = >>=-eq-ok (require_prefix db pref_id) _ e in
      let (u, read, e2) = >>=-eq-ok (check_prefix_text t body.prefix) _ e1 in
      let (v, checked, e3) = >>=-eq-ok (check_place t db body p) _ e2 in
      let same : stored_prefix pref_id body db ≡ db' = cc e3 in
      let own : AreInside t (stored_prefix pref_id body db) =
        modified-AreInside pref_id body db (stored_prefix pref_id body db) p db.prefixes refl
          (found_prefix db pref_id p found) checked h in
      subst (AreInside t) same own

  pub delete_prefix-AreInside :
      (pref_id : ℕ) (db db' : Db)
      → AreInside t db
      → delete_prefix pref_id db ≡ ok db'
      → AreInside t db'
  unfolding delete_prefix
  delete_prefix-AreInside pref_id db db' h e =
      let (p, found, e1) = >>=-eq-ok (require_prefix db pref_id) _ e in
      let rest : Db = record db { prefixes = select (λ x. not (x.id == pref_id)) db.prefixes } in
      let own : AreInside t rest =
        All-Covers t db rest _ (λ id agg found. (agg, found, refl))
          (All-select (IsInside t db) _ db.prefixes h) in
      subst (AreInside t) (ok-inj rest db' e1) own
