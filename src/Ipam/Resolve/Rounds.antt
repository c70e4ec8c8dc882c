-- ===== src/Ipam/Resolve/Rounds.antt =====
-- The rounds of the loop that looks for a smallest aggregate around a prefix.
use net_soc_ops.Prelude.{
  ◌≤◌, ◌≡◌, refl, ap, sym, ◌∙◌, inl, inr, ◌⊎◌, Bool, true, false, ◌&&◌, none, some, List, [], ◌∷◌,
  All, Bool-cases, Option-cases, str_eq, eq_iff, arith, if◌then◌else◌,
}
use net_soc_ops.Prelude.Results.{Result, ok, ok-inj, >>=-eq-ok}
use net_soc_ops.Ipam.Network.{Network, num_addresses, subnet_of}
use net_soc_ops.Ipam.Store.{NetText, Aggregate}
use net_soc_ops.Ipam.Resolve.{Best, TypeError, is_smaller, choose, consider, best_of}

-- Some row of the list has the property.
abbrev pub Any : (Aggregate → Type 0) → List Aggregate → Type 0
Any P [] = ¬ Unit {0}
Any P (a ∷ as') = P a ⊎ Any P as'

module _ (t : NetText) (prefix_net : Network) where
  -- The row's network is `agg_net`, and it contains the prefix.
  pub record Contains (agg_net : Network) (a : Aggregate) : Type 0 where
    pub parsed : t.parse a.prefix ≡ some agg_net
    pub inside : subnet_of prefix_net agg_net ≡ some true

  -- No network that the row has and that contains the prefix is smaller than the result.
  abbrev pub Bounds : Best → Aggregate → Type 0
  Bounds none a = (agg_net : Network) → ¬ Contains agg_net a
  Bounds (some (best, best_net)) a =
      (agg_net : Network) → Contains agg_net a → num_addresses best_net ≤ num_addresses agg_net

  -- The result is the row's.
  abbrev pub Picks : Best → Aggregate → Type 0
  Picks none a = ¬ Unit {0}
  Picks (some (best, best_net)) a = (a.id ≡ best) × Contains best_net a

  abbrev pub AtMost : Best → Best → Type 0
  AtMost r none = Unit
  AtMost none (some b) = ¬ Unit {0}
  AtMost (some r) (some b) = num_addresses r.1 ≤ num_addresses b.1

  AtMost-refl : (r : Best) → AtMost r r
  AtMost-refl none = tt
  AtMost-refl (some r) = omega arith

  AtMost-trans : (q r s : Best) → AtMost q r → AtMost r s → AtMost q s
  AtMost-trans q r none h k = tt
  AtMost-trans q none (some s) h k = absurd (k tt)
  AtMost-trans none (some r) (some s) h k = h
  AtMost-trans (some q) (some r) (some s) h k = omega arith

  Bounds-AtMost : (q r : Best) (a : Aggregate) → AtMost q r → Bounds r a → Bounds q a
  Bounds-AtMost none none a h k = k
  Bounds-AtMost (some q) none a h k = λ n c. absurd (k n c)
  Bounds-AtMost none (some r) a h k = absurd (h tt)
  Bounds-AtMost (some q) (some r) a h k = λ n c. let le = k n c in omega arith

  -- What one round does.
  record Round (best best' : Best) (a : Aggregate) : Type 0 where
    least : AtMost best' best
    bounds : Bounds best' a
    origin : (best' ≡ best) ⊎ Picks best' a

  unread : (best : Best) (a : Aggregate) → ((n : Network) → ¬ Contains n a) → Round best best a
  unread none a h = record { least = tt; bounds = h; origin = inl refl }
  unread (some b) a h = record {
    least = omega arith;
    bounds = λ n c. absurd (h n c);
    origin = inl refl;
  }

  kept_smaller :
      (best : Best) (a : Aggregate) (agg_net : Network)
      → t.parse a.prefix ≡ some agg_net
      → is_smaller agg_net best ≡ false
      → Round best best a
  kept_smaller none a agg_net good h = cc
  kept_smaller (some (b, best_net)) a agg_net good h = record {
    least = omega arith;
    bounds = λ n c. at_least n (cc (good, c.parsed));
    origin = inl refl;
  }
    where
      at_least : (n : Network) → agg_net ≡ n → num_addresses best_net ≤ num_addresses n
      at_least n same = rw (← same) (ground arith)

  taken :
      (best : Best) (a : Aggregate) (agg_net : Network)
      → t.parse a.prefix ≡ some agg_net
      → subnet_of prefix_net agg_net ≡ some true
      → is_smaller agg_net best ≡ true
      → Round best (some (a.id, agg_net)) a
  taken best a agg_net good inside h = record {
    least = smaller best h;
    bounds = λ n c. same_size n (cc (good, c.parsed));
    origin = inr (refl, record { parsed = good; inside = inside });
  }
    where
      same_size : (n : Network) → agg_net ≡ n → num_addresses agg_net ≤ num_addresses n
      same_size n same = rw same (omega arith)

      smaller : (b : Best) → is_smaller agg_net b ≡ true → AtMost (some (a.id, agg_net)) b
      smaller none k = tt
      smaller (some b) k = ground arith

  decided :
      (best best' : Best) (a : Aggregate) (agg_net : Network) (inside : Bool)
      → t.parse a.prefix ≡ some agg_net
      → subnet_of prefix_net agg_net ≡ some inside
      → ◌≡◌ {A = Result TypeError Best}
          (ok (if inside && is_smaller agg_net best then some (a.id, agg_net) else best))
          (ok best')
      → Round best best' a
  decided best best' a agg_net false good read k =
      let same : best ≡ best' = cc k in
      rw (← same) (unread best a λ n c. cc (good, read, c.parsed, c.inside))
  decided best best' a agg_net true good read k = elim (Bool-cases (is_smaller agg_net best)) [
    | inl e ↦
        let same : some (a.id, agg_net) ≡ best' = cc (rw e at k) in
        rw same at (taken best a agg_net good read e)
    | inr e ↦
        let same : best ≡ best' = cc (rw e at k) in rw (← same) (kept_smaller best a agg_net good e)
  ]

  chosen :
      (best best' : Best) (a : Aggregate) (agg_net : Network)
      → t.parse a.prefix ≡ some agg_net
      → choose prefix_net a.id agg_net best ≡ ok best'
      → Round best best' a
  chosen best best' a agg_net good k = elim (Option-cases (subnet_of prefix_net agg_net)) [
    | inl bad ↦ cc (rw (bad, choose) at k)
    | inr (inside, read) ↦ decided best best' a agg_net inside good read (rw (read, choose) at k)
  ]

  consider-Round :
      (nil : t.parse "" ≡ none) (best best' : Best) (a : Aggregate)
      → consider t prefix_net best a ≡ ok best'
      → Round best best' a
  unfolding consider
  consider-Round nil best best' a h = elim (Bool-cases (str_eq a.prefix "")) [
    | inl e ↦
        let same : best ≡ best' = cc (rw e at h) in
        rw (← same) (unread best a λ n c. cc (nil, ap t.parse ((eq_iff a.prefix "").0 e), c.parsed))
    | inr e ↦
        let h1 = rw e at h in
        elim (Option-cases (t.parse a.prefix)) [
          | inl bad ↦
              let same : best ≡ best' = cc (rw bad at h1) in
              rw (← same) (unread best a λ n c. cc (bad, c.parsed))
          | inr (agg_net, good) ↦ chosen best best' a agg_net good (rw good at h1)
        ]
  ]

  Bounds-all :
      (q r : Best) (as' : List Aggregate) → AtMost q r → All (Bounds r) as' → All (Bounds q) as'
  Bounds-all q r [] h k = tt
  Bounds-all q r (a ∷ as') h (k, ks) = (Bounds-AtMost q r a h k, Bounds-all q r as' h ks)

  -- The whole loop, from any `best`.
  pub record Rounds (best r : Best) (as' : List Aggregate) : Type 0 where
    pub least : AtMost r best
    pub bounds : All (Bounds r) as'
    pub origin : (r ≡ best) ⊎ Any (Picks r) as'

  pub best_of-Rounds :
      (nil : t.parse "" ≡ none) (best r : Best) (as' : List Aggregate)
      → best_of t prefix_net best as' ≡ ok r
      → Rounds best r as'
  unfolding best_of
  best_of-Rounds nil best r [] h =
      let same = ok-inj best r h in
      record { least = rw same (AtMost-refl r); bounds = tt; origin = inl (sym same) }
  best_of-Rounds nil best r (a ∷ as') h =
      let (best', step, rest) =
        >>=-eq-ok (consider t prefix_net best a) (λ b. best_of t prefix_net b as') h in
      let one = consider-Round nil best best' a step in
      let more = best_of-Rounds nil best' r as' rest in
      record {
        least = AtMost-trans r best' best more.least one.least;
        bounds = (Bounds-AtMost r best' a more.least one.bounds, more.bounds);
        origin = from one.origin more.origin;
      }
    where
      from :
          {b : Best}
          → (b ≡ best) ⊎ Picks b a
          → (r ≡ b) ⊎ Any (Picks r) as'
          → (r ≡ best) ⊎ Any (Picks r) (a ∷ as')
      from (inl e) (inl e') = inl (e' ∙ e)
      from (inr p) (inl e') = inr (inl (rw e' p))
      from o (inr q) = inr (inr q)
