-- ===== src/Ipam/Ranges/Available.antt =====
-- `_aggregate_available_ranges` as a whole.
use net_soc_ops.Prelude.{
  ℕ, ◌+◌, ◌^◌, ◌≤◌, ◌<◌, ◌≡◌, ap, sym, ◌∙◌, ◌↔◌, ◌⊎◌, inl, inr, true, none, some, List, [], ◌∷◌,
  arith, Bool-cases, Option-cases, select, eq_iff, str_eq,
}
use net_soc_ops.Ipam.Network.{Network, v4, num_addresses, broadcast_address, subnet_of}
use net_soc_ops.Ipam.Network.Laws.{InNet, num_addresses-pos, subnet_of_iff, same_version_iff}
use net_soc_ops.Ipam.Cidrs.Tiling.{InSome}
use net_soc_ops.Ipam.Store.{NetText, Aggregate, Prefix, Db}
use net_soc_ops.Ipam.Ranges.{
  is_v4_subnet, sort, subnets_of, gaps_from, cidrs_of_gaps, belongs_to, available_networks,
}
use net_soc_ops.Ipam.Ranges.Complement.{gaps_from-Complements}
use net_soc_ops.Ipam.Ranges.Sorting.{
  PairwiseApart, Within, sort-Chain, sort-InSome, cidrs_of_gaps-InSome,
}

skip {κ} : {P Q R : Type κ} → ¬ P → (Q ↔ R) → Q ↔ (P ⊎ R)
skip out h = (λ q. inr (h.0 q), λ e. elim e [ inl p ↦ absurd (out p) | inr r ↦ h.1 r ])

keep {κ} : {O P Q R : Type κ} → (O ↔ P) → (Q ↔ R) → (O ⊎ Q) ↔ (P ⊎ R)
keep f h = (
  λ e. elim e [ inl o ↦ inl (f.0 o) | inr q ↦ inr (h.0 q) ],
  λ e. elim e [ inl p ↦ inl (f.1 p) | inr r ↦ inr (h.1 r) ],
)

module _ (t : NetText) (id : ℕ) (agg_net : Network) where
  -- The row belongs to the aggregate, and its network is an IPv4 subnet of the aggregate's that
  -- has the address.
  pub record Takes (x : ℕ) (p : Prefix) : Type 0 where
    pub owner : p.aggregate_id ≡ some id
    pub net : Network
    pub parsed : t.parse p.prefix ≡ some net
    pub version : net.version ≡ v4
    pub inside : (y : ℕ) → InNet y net → InNet y agg_net
    pub has : InNet x net

  abbrev pub Taken : ℕ → List Prefix → Type 0
  Taken x [] = ⊥
  Taken x (p ∷ ps) = Takes x p ⊎ Taken x ps

module _ (t : NetText) (nil : t.parse "" ≡ none) (id : ℕ) (agg_net : Network)
    (v : agg_net.version ≡ v4) where
  belongs_to_iff : (p : Prefix) → (belongs_to id p ≡ true) ↔ (p.aggregate_id ≡ some id)
  belongs_to_iff p = ground arith

  is_v4_subnet_iff :
      (n : Network)
      → (is_v4_subnet agg_net n ≡ true) ↔ ((n.version ≡ v4) × (subnet_of n agg_net ≡ some true))
  is_v4_subnet_iff n = ground (arith, same_version_iff n.version v4)

  Takes-subnet :
      (x : ℕ) (p : Prefix) (n : Network)
      → t.parse p.prefix ≡ some n
      → Takes t id agg_net x p
      → (is_v4_subnet agg_net n ≡ true) × InNet x n
  Takes-subnet x p n e h =
      let same : h.net ≡ n = cc (e, h.parsed) in
      let held : (is_v4_subnet agg_net h.net ≡ true) × InNet x h.net = (
        (is_v4_subnet_iff h.net).1
            (h.version, (subnet_of_iff h.net agg_net).1 (h.version ∙ sym v, h.inside)),
        h.has,
      ) in
      rw same at held

  subnets_of-InSome :
      (x : ℕ) (ps : List Prefix)
      → InSome x (subnets_of t agg_net (select (belongs_to id) ps)) ↔ Taken t id agg_net x ps
  unfolding subnets_of
  subnets_of-InSome x [] = (λ e. e, λ e. e)
  subnets_of-InSome x (p ∷ ps) =
      let ih = subnets_of-InSome x ps in
      elim (Bool-cases (belongs_to id p)) [
        | inr other ↦ rw other (skip (λ h. cc (other, (belongs_to_iff p).1 h.owner)) ih)
        | inl mine ↦ rw mine (elim (Bool-cases (str_eq p.prefix "")) [
          | inl empty ↦
              rw empty
                (skip (λ h. cc (nil, ap t.parse ((eq_iff p.prefix "").0 empty), h.parsed)) ih)
          | inr full ↦ rw full (elim (Option-cases (t.parse p.prefix)) [
            | inl bad ↦ rw bad (skip (λ h. cc (bad, h.parsed)) ih)
            | inr (n, good) ↦ rw good (elim (Bool-cases (is_v4_subnet agg_net n)) [
              | inr out ↦ rw out (skip (λ h. cc (out, (Takes-subnet x p n good h).0)) ih)
              | inl fits ↦
                  let (four, sub) = (is_v4_subnet_iff n).0 fits in
                  rw fits (
                    keep
                      (
                        λ h. record {
                          owner = (belongs_to_iff p).0 mine;
                          net = n;
                          parsed = good;
                          version = four;
                          inside = ((subnet_of_iff n agg_net).0 sub).1;
                          has = h;
                        },
                        λ h. (Takes-subnet x p n good h).1,
                      )
                      ih)
            ])
          ])
        ])
      ]

is_v4_subnet-inside :
    (agg_net n : Network)
    → is_v4_subnet agg_net n ≡ true
    → (agg_net.network_address ≤ n.network_address)
      × (n.network_address + num_addresses n ≤ broadcast_address agg_net + 1)
unfolding subnet_of
is_v4_subnet-inside agg_net n fits =
    let pos = num_addresses-pos agg_net in let pos' = num_addresses-pos n in ground arith

-- The subnets of the aggregate's rows lie in the aggregate.
subnets_of-Within :
    (t : NetText) (agg_net : Network) (ps : List Prefix)
    → Within agg_net.network_address (broadcast_address agg_net + 1) (subnets_of t agg_net ps)
unfolding subnets_of
subnets_of-Within t agg_net [] = tt
subnets_of-Within t agg_net (p ∷ ps) =
    let ih = subnets_of-Within t agg_net ps in
    elim (Bool-cases (str_eq p.prefix "")) [
      | inl empty ↦ rw empty ih
      | inr full ↦ rw full (elim (Option-cases (t.parse p.prefix)) [
        | inl bad ↦ rw bad ih
        | inr (n, good) ↦ rw good (elim (Bool-cases (is_v4_subnet agg_net n)) [
          | inr out ↦ rw out ih
          | inl fits ↦ rw fits (is_v4_subnet-inside agg_net n fits, ih)
        ])
      ])
    ]

pub available_networks_of_gaps :
    (t : NetText) (db : Db) (agg : Aggregate) (agg_net : Network) (gaps : List (ℕ × ℕ))
    → t.parse agg.prefix ≡ some agg_net
    → agg_net.version ≡ v4
    → gaps_from agg_net.network_address
        (broadcast_address agg_net)
        (sort (subnets_of t agg_net (select (belongs_to agg.id) db.prefixes)))
      ≡ some gaps
    → available_networks t db agg ≡ some (cidrs_of_gaps gaps)
unfolding available_networks
available_networks_of_gaps t db agg agg_net gaps e v found =
    let four = (same_version_iff agg_net.version v4).1 v in
    rw (e, available_networks) (rw (four, found))

-- For an aggregate whose text is an IPv4 network that does not end at the last address, and whose
-- prefixes inside it are pairwise apart, the networks that are returned have exactly the
-- aggregate's addresses that no prefix takes. The empty text must be no network.
pub available_networks-complement :
    (t : NetText) (db : Db) (agg : Aggregate) (agg_net : Network)
    → t.parse "" ≡ none
    → t.parse agg.prefix ≡ some agg_net
    → agg_net.version ≡ v4
    → broadcast_address agg_net + 1 < 2 ^ 32
    → PairwiseApart (subnets_of t agg_net (select (belongs_to agg.id) db.prefixes))
    → (nets : List Network) × (available_networks t db agg ≡ some nets)
      × ((x : ℕ) → InSome x nets ↔ (InNet x agg_net × ¬ Taken t agg.id agg_net x db.prefixes))
available_networks-complement t db agg agg_net nil e v room apart =
    let rows = subnets_of t agg_net (select (belongs_to agg.id) db.prefixes) in
    let top = broadcast_address agg_net in
    let pos = num_addresses-pos agg_net in
    let chain =
      sort-Chain agg_net.network_address (top + 1) rows (omega arith) apart
        (subnets_of-Within t agg_net (select (belongs_to agg.id) db.prefixes)) in
    let (gaps, found, (fits, h)) =
      gaps_from-Complements agg_net.network_address top (sort rows) chain room in
    (
      cidrs_of_gaps gaps,
      available_networks_of_gaps t db agg agg_net gaps e v found,
      λ x.
          let cover = cidrs_of_gaps-InSome x gaps fits in
          let sorted = sort-InSome x rows in
          let taken = subnets_of-InSome t nil agg.id agg_net v x db.prefixes in
          (
            λ y.
                let (lo, hi, out) = (h x).0 (cover.0 y) in
                ((lo, omega arith), λ k. out (sorted.1 (taken.1 k))),
            λ y.
                let ((lo, hi), out) = y in
                cover.1 ((h x).1 (lo, omega arith, λ k. out (taken.0 (sorted.0 k)))),
          ),
    )
