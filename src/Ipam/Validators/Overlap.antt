-- ===== src/Ipam/Validators/Overlap.antt =====
-- What the overlap test of `ipam_aggregate_overlaps_existing` means for the table.
use net_soc_ops.Prelude.{
  ℕ, String, ◌≡◌, refl, ap, sym, inl, inr, Bool, false, Option, none, some, List, [], ◌∷◌, ◌++◌,
  map, All, All-append, Bool-cases, Option-cases, any, update, arith, str_eq, eq_iff,
}
use net_soc_ops.Ipam.Network.{Network, overlaps}
use net_soc_ops.Ipam.Network.Laws.{InNet, overlaps_iff}
use net_soc_ops.Ipam.Store.{NetText, Aggregate, Db}
use net_soc_ops.Ipam.Validators.{row_overlaps, is_excluded, ipam_aggregate_overlaps_existing}

abbrev pub prefixes_of : List Aggregate → List String
prefixes_of = map (λ a. a.prefix)

-- An update that keeps the prefix of each row keeps the list of prefixes.
pub prefixes_of-update :
    (p : Aggregate → Bool) (f : Aggregate → Aggregate) (as' : List Aggregate)
    → ((a : Aggregate) → (f a).prefix ≡ a.prefix)
    → prefixes_of (update p f as') ≡ prefixes_of as'
prefixes_of-update p f [] same = refl
prefixes_of-update p f (a ∷ as') same = ground (arith, same a, prefixes_of-update p f as' same)

module _ (t : NetText) where
  -- The two rows name no networks of one version that share an address.
  abbrev pub Disjoint : String → String → Type 0
  Disjoint p q =
      (m n : Network)
      → t.parse p ≡ some m
      → t.parse q ≡ some n
      → m.version ≡ n.version
      → (x : ℕ) → InNet x m
      → ¬ InNet x n

  -- The texts are pairwise disjoint, as the comment of the model `IpamAggregate` demands.
  abbrev pub AreDisjoint : List String → Type 0
  AreDisjoint [] = Unit
  AreDisjoint (p ∷ ps) = All (Disjoint p) ps × AreDisjoint ps

  pub Disjoint-symm : (p q : String) → Disjoint p q → Disjoint q p
  Disjoint-symm p q h m n em en v x a b = h n m en em (sym v) x b a

  -- A row that passes the test is disjoint.
  row_overlaps-Disjoint :
      (p : String) (new_net : Network) (exclude_id : Option ℕ) (b : Aggregate)
      → t.parse "" ≡ none
      → t.parse p ≡ some new_net
      → is_excluded exclude_id b.id ≡ false
      → row_overlaps t new_net exclude_id b ≡ false
      → Disjoint p b.prefix
  row_overlaps-Disjoint p new_net ex b nil e out h m n em en v x a c =
      let same : new_net ≡ m = cc (e, em) in
      let full : str_eq b.prefix "" ≡ false = elim (Bool-cases (str_eq b.prefix "")) [
        | inl empty ↦ absurd (cc (nil, ap t.parse ((eq_iff b.prefix "").0 empty), en))
        | inr f ↦ f
      ] in
      let apart : overlaps m n ≡ false = rw same at (rw en at (rw full at (rw out at h))) in
      let meet =
        (overlaps_iff m n (t.parse-IsNetwork p m em) (t.parse-IsNetwork b.prefix n en)).1
          (v, (x, a, c)) in
      cc (apart, meet)

  any-false {ℓ} :
      {A : Type ℓ} (f : A → Bool) (xs : List A) → any f xs ≡ false → All (λ x. f x ≡ false) xs
  any-false f [] h = tt
  any-false f (x ∷ xs) h = (ground arith, any-false f xs (ground arith))

  overlap_test-Disjoint :
      (p : String) (new_net : Network) (bs : List Aggregate)
      → t.parse "" ≡ none
      → t.parse p ≡ some new_net
      → All (λ b. row_overlaps t new_net none b ≡ false) bs
      → All (λ q. Disjoint q p) (prefixes_of bs)
  overlap_test-Disjoint p new_net [] nil e h = tt
  overlap_test-Disjoint p new_net (b ∷ bs) nil e (out, h) = (
    Disjoint-symm p b.prefix (row_overlaps-Disjoint p new_net none b nil e refl out),
    overlap_test-Disjoint p new_net bs nil e h,
  )

  -- A prefix that passes the test for all rows is disjoint from each of them.
  pub not_overlaps-Disjoint :
      (db : Db) (p : String)
      → t.parse "" ≡ none
      → ipam_aggregate_overlaps_existing t db p none ≡ false
      → All (λ q. Disjoint q p) (prefixes_of db.aggregates)
  unfolding ipam_aggregate_overlaps_existing
  not_overlaps-Disjoint db p nil h = elim (Option-cases (t.parse p)) [
    | inl bad ↦ cc (rw (bad, ipam_aggregate_overlaps_existing) at h)
    | inr (n, good) ↦
        overlap_test-Disjoint p n db.aggregates nil good
          (any-false _ db.aggregates (rw (good, ipam_aggregate_overlaps_existing) at h))
  ]

  -- The same for the rows that are not excluded.
  pub not_overlaps-excluded :
      (db : Db) (p : String) (id : ℕ)
      → t.parse "" ≡ none
      → ipam_aggregate_overlaps_existing t db p (some id) ≡ false
      → All (λ b. is_excluded (some id) b.id ≡ false → Disjoint p b.prefix) db.aggregates
  unfolding ipam_aggregate_overlaps_existing
  not_overlaps-excluded db p id nil h = elim (Option-cases (t.parse p)) [
    | inl bad ↦ cc (rw (bad, ipam_aggregate_overlaps_existing) at h)
    | inr (n, good) ↦
        apart_from n good db.aggregates
          (any-false _ db.aggregates (rw (good, ipam_aggregate_overlaps_existing) at h))
  ]
    where
      apart_from :
          (n : Network)
          → t.parse p ≡ some n
          → (bs : List Aggregate) → All (λ b. row_overlaps t n (some id) b ≡ false) bs
          → All (λ b. is_excluded (some id) b.id ≡ false → Disjoint p b.prefix) bs
      apart_from n good [] k = tt
      apart_from n good (b ∷ bs) (out, k) =
          (λ e. row_overlaps-Disjoint p n (some id) b nil good e out, apart_from n good bs k)

  pub AreDisjoint-append :
      (ps : List String) (p : String)
      → AreDisjoint ps
      → All (λ q. Disjoint q p) ps
      → AreDisjoint (ps ++ p ∷ [])
  AreDisjoint-append [] p d h = (tt, tt)
  AreDisjoint-append (q ∷ qs) p (first, d) (qp, h) =
      (All-append _ qs (p ∷ []) first (qp, tt), AreDisjoint-append qs p d h)
