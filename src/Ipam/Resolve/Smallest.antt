-- ===== src/Ipam/Resolve/Smallest.antt =====
-- The aggregate that is resolved is a smallest one that contains the prefix.
use mathlib.Core.Option
use mathlib.Core.Path.{subst}
use net_soc_ops.Prelude.{
  ℕ, String, ◌≡◌, ap, ◌∙◌, inl, inr, ◌⊎◌, true, false, Option, none, some, List, [], ◌∷◌, All,
  Bool-cases, Option-cases, strip, find, str_eq, eq_iff, ◌==◌, ==_iff, arith,
}
use net_soc_ops.Prelude.Results.{ok, ok-inj, >>=-eq-ok}
use net_soc_ops.Ipam.Network.{Network}
use net_soc_ops.Ipam.Store.{NetText, Aggregate, Db}
use net_soc_ops.Ipam.Validators.{check_prefix_in_aggregate, network_or_fail, require_subnet}
use net_soc_ops.Ipam.AggregateRoutes.Rows.{AreKeyed}
use net_soc_ops.Ipam.Resolve.{Best, best_of, resolve_aggregate_id_for_prefix}
use net_soc_ops.Ipam.Resolve.Rounds.{Any, Contains, Bounds, Picks, Rounds, best_of-Rounds}

-- What the resolved key says of the aggregates: the key of a row whose network contains the prefix
-- and is no larger than that of any other such row; without a key, no row's network contains it.
abbrev pub IsResolved : NetText → Network → List Aggregate → Option ℕ → Type 0
IsResolved t prefix_net as' none =
    All (λ a. (agg_net : Network) → ¬ Contains t prefix_net agg_net a) as'
IsResolved t prefix_net as' (some id) =
    (best_net : Network) × Any (Picks t prefix_net (some (id, best_net))) as'
    × All (Bounds t prefix_net (some (id, best_net))) as'

module _ (t : NetText) (nil : t.parse "" ≡ none) where
  no_key : {A : Type 0} → (A ⊎ ¬ Unit {0}) → A
  no_key (inl a) = a
  no_key (inr f) = absurd (f tt)

  origin_of :
      (prefix_net : Network) (b : ℕ × Network) (as' : List Aggregate)
      → (some b ≡ none) ⊎ Any (Picks t prefix_net (some b)) as'
      → Any (Picks t prefix_net (some b)) as'
  origin_of prefix_net b as' (inl e) = cc
  origin_of prefix_net b as' (inr p) = p

  best-IsResolved :
      (prefix_net : Network) (best : Best) (as' : List Aggregate)
      → Rounds t prefix_net none best as'
      → IsResolved t prefix_net as' (Option.map (λ b. b.0) best)
  best-IsResolved prefix_net none as' h = h.bounds
  best-IsResolved prefix_net (some (id, best_net)) as' h =
      (best_net, origin_of prefix_net (id, best_net) as' h.origin, h.bounds)

  -- The key that is resolved for the text of a network is that of an aggregate that contains the
  -- network, with no smaller such aggregate in the table; if none is resolved, no aggregate
  -- contains it. The empty text must be no network.
  pub resolve-IsResolved :
      (db : Db) (prefix_str : String) (prefix_net : Network) (id : Option ℕ)
      → t.parse prefix_str ≡ some prefix_net
      → resolve_aggregate_id_for_prefix t db prefix_str ≡ ok id
      → IsResolved t prefix_net db.aggregates id
  unfolding resolve_aggregate_id_for_prefix
  resolve-IsResolved db prefix_str prefix_net id parsed h =
      let h1 = rw (parsed, resolve_aggregate_id_for_prefix) at h in
      let (best, found, done) =
        >>=-eq-ok (best_of t prefix_net none db.aggregates) (λ b. ok (Option.map (λ x. x.0) b))
          h1 in
      let same = ok-inj (Option.map (λ x. x.0) best) id done in
      subst (IsResolved t prefix_net db.aggregates) same (
        best-IsResolved prefix_net best db.aggregates
          (best_of-Rounds t prefix_net nil none best db.aggregates found))

  full :
      (prefix_net agg_net : Network) (a : Aggregate)
      → Contains t prefix_net agg_net a
      → str_eq a.prefix "" ≡ false
  full prefix_net agg_net a c = elim (Bool-cases (str_eq a.prefix "")) [
    | inl e ↦ absurd (cc (nil, ap t.parse ((eq_iff a.prefix "").0 e), c.parsed))
    | inr e ↦ e
  ]

  Any-id :
      (prefix_net agg_net : Network) (id key : ℕ) (as' : List Aggregate)
      → All (λ b. (b.id == key) ≡ false) as'
      → Any (Picks t prefix_net (some (id, agg_net))) as'
      → (key == id) ≡ false
  Any-id prefix_net agg_net id key [] fresh h = absurd (h tt)
  Any-id prefix_net agg_net id key (b ∷ bs) (k, fresh) (inl (e, c)) =
      ground (arith, ==_iff b.id key, ==_iff key id)
  Any-id prefix_net agg_net id key (b ∷ bs) (k, fresh) (inr h) =
      Any-id prefix_net agg_net id key bs fresh h

  -- With distinct keys, the row that a key finds is the one that was picked.
  find-picked :
      (prefix_net agg_net : Network) (next id : ℕ) (as' : List Aggregate)
      → AreKeyed next as'
      → Any (Picks t prefix_net (some (id, agg_net))) as'
      → (a : Aggregate) × (find (λ a. a.id == id) as' ≡ some a) × Contains t prefix_net agg_net a
  find-picked prefix_net agg_net next id [] keys h = absurd (h tt)
  find-picked prefix_net agg_net next id (b ∷ bs) keys (inl (e, c)) =
      let here : (b.id == id) ≡ true = (==_iff b.id id).1 e in (b, rw here, c)
  find-picked prefix_net agg_net next id (b ∷ bs) (lt, fresh, keys) (inr h) =
      let (a, found, c) = find-picked prefix_net agg_net next id bs keys h in
      (a, rw (Any-id prefix_net agg_net id b.id bs fresh h) found, c)

  -- What is resolved passes the check of the endpoints, if the keys are distinct and the text is
  -- read in the same way without the space around it. The empty text must be no network.
  pub check-resolve :
      (db : Db) (prefix_str : String) (id : ℕ)
      → AreKeyed db.next_aggregate db.aggregates
      → t.parse (strip prefix_str) ≡ t.parse prefix_str
      → resolve_aggregate_id_for_prefix t db prefix_str ≡ ok (some id)
      → check_prefix_in_aggregate t db prefix_str (some id) ≡ ok tt
  unfolding check_prefix_in_aggregate resolve_aggregate_id_for_prefix
  check-resolve db prefix_str id keys solid h = elim (Option-cases (t.parse prefix_str)) [
    | inl bad ↦ cc (rw (bad, resolve_aggregate_id_for_prefix) at h)
    | inr (prefix_net, parsed) ↦
        let (agg_net, picked, least) =
          resolve-IsResolved db prefix_str prefix_net (some id) parsed h in
        let (a, found, c) =
          find-picked prefix_net agg_net db.next_aggregate id db.aggregates keys picked in
        rw (found, check_prefix_in_aggregate)
          (rw (full prefix_net agg_net a c) (
            rw (solid ∙ parsed, network_or_fail)
              (rw (c.parsed, network_or_fail) (rw (c.inside, require_subnet)))))
  ]
