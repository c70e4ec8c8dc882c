-- ===== src/Ipam/Utilization/Bounds.antt =====
-- The addresses that are in use are at most those of the aggregate, if the prefixes do not overlap.
use Prim.Native.Nat.{min}
use net_soc_ops.Prelude.{
  ℕ, zero, suc, ◌+◌, ◌-◌, ◌≤◌, ◌<◌, String, ◌≡◌, refl, sym, ◌∙◌, inl, inr, Bool, true, false, none,
  some, List, [], ◌∷◌, map, length, select, All, Bool-cases, Option-cases, str_eq, arith, leb, ltb,
  ◌==◌, if◌then◌else◌,
}
use net_soc_ops.Ipam.Network.{Network, v4, same_version, num_addresses, subnet_of}
use net_soc_ops.Ipam.Network.Laws.{InNet, num_addresses-pos, same_version_iff}
use net_soc_ops.Ipam.Store.{NetText, Aggregate, Prefix, Db}
use net_soc_ops.Ipam.Validators.Overlap.{Disjoint, AreDisjoint}
use net_soc_ops.Ipam.Ranges.{belongs_to}
use net_soc_ops.Ipam.Utilization.{used_of, aggregate_utilization}

-- The number of the network's addresses below `x`.
below : Network → ℕ → ℕ
below n x = min (num_addresses n) (x - n.network_address)

all_below : List Network → ℕ → ℕ
unfolding below
all_below [] x = 0
all_below (n ∷ ns) x = below n x + all_below ns x

sizes : List Network → ℕ
sizes [] = 0
sizes (n ∷ ns) = num_addresses n + sizes ns

-- No two of the networks share an address.
abbrev AreApart : List Network → Type 0
AreApart [] = Unit
AreApart (n ∷ ns) = All (λ m. (x : ℕ) → InNet x n → ¬ InNet x m) ns × AreApart ns

-- The network begins at `low` at the earliest and ends before `top`.
abbrev IsBetween : ℕ → ℕ → Network → Type 0
IsBetween low top n = (low ≤ n.network_address) × (n.network_address + num_addresses n ≤ top)

inside : Network → ℕ → Bool
inside n x = if leb n.network_address x then ltb x (n.network_address + num_addresses n) else false

inside-InNet : (n : Network) (x : ℕ) → inside n x ≡ true → InNet x n
unfolding inside
inside-InNet n x h = (ground arith, ground arith)

outside-InNet : (n : Network) (x : ℕ) → inside n x ≡ false → ¬ InNet x n
unfolding inside
outside-InNet n x h (lo, hi) = ground arith

below-inside : (n : Network) (x : ℕ) → below n (suc x) ≤ suc (below n x)
unfolding below
below-inside n x = omega arith

below-outside : (n : Network) (x : ℕ) → ¬ InNet x n → below n (suc x) ≡ below n x
unfolding below
below-outside n x h = let pos = num_addresses-pos n in ground arith

all_below-outside :
    (ns : List Network) (x : ℕ) → All (λ n. ¬ InNet x n) ns → all_below ns (suc x) ≡ all_below ns x
unfolding all_below
all_below-outside [] x h = refl
all_below-outside (n ∷ ns) x (k, h) = omega (arith, below-outside n x k, all_below-outside ns x h)

all_outside :
    (n : Network) (ns : List Network) (x : ℕ)
    → InNet x n
    → All (λ m. (x : ℕ) → InNet x n → ¬ InNet x m) ns
    → All (λ m. ¬ InNet x m) ns
all_outside n [] x i h = tt
all_outside n (m ∷ ns) x i (k, h) = (k x i, all_outside n ns x i h)

-- One address more is an address of at most one of the networks.
all_below-suc :
    (ns : List Network) (x : ℕ) → AreApart ns → all_below ns (suc x) ≤ suc (all_below ns x)
unfolding all_below
all_below-suc [] x h = omega arith
all_below-suc (n ∷ ns) x (k, h) = elim (Bool-cases (inside n x)) [
  | inl e ↦
      let rest = all_below-outside ns x (all_outside n ns x (inside-InNet n x e) k) in
      omega (arith, below-inside n x, rest)
  | inr e ↦
      let same = below-outside n x (outside-InNet n x e) in
      omega (arith, same, all_below-suc ns x h)
]

all_below-low :
    (ns : List Network) (low top : ℕ) → All (IsBetween low top) ns → all_below ns low ≡ 0
unfolding all_below below
all_below-low [] low top h = refl
all_below-low (n ∷ ns) low top ((lo, hi), h) = omega (arith, all_below-low ns low top h)

all_below-top :
    (ns : List Network) (low top : ℕ) → All (IsBetween low top) ns → all_below ns top ≡ sizes ns
unfolding all_below below sizes
all_below-top [] low top h = refl
all_below-top (n ∷ ns) low top ((lo, hi), h) = omega (arith, all_below-top ns low top h)

all_below-range :
    (ns : List Network) (low k : ℕ)
    → AreApart ns
    → all_below ns low ≡ 0
    → all_below ns (low + k) ≤ k
all_below-range ns low zero apart h = rw (add_zero low) (omega (arith, h))
  where
    add_zero : (n : ℕ) → n + 0 ≡ n
    add_zero n = omega arith
all_below-range ns low (suc k) apart h =
    rw (add_suc low k)
      (omega (arith, all_below-suc ns (low + k) apart, all_below-range ns low k apart h))
  where
    add_suc : (m n : ℕ) → m + suc n ≡ suc (m + n)
    add_suc m n = omega arith

-- Networks inside a range that share no address have at most its number of addresses.
sizes-fit :
    (ns : List Network) (low k : ℕ) → AreApart ns → All (IsBetween low (low + k)) ns → sizes ns ≤ k
sizes-fit ns low k apart h = omega (
  arith,
  all_below-range ns low k apart (all_below-low ns low (low + k) h),
  all_below-top ns low (low + k) h,
)

-- The networks of version 4 that the texts of the prefixes name.
networks_of : NetText → List String → List Network
networks_of t [] = []
networks_of t (s ∷ ss) =
    let rest = networks_of t ss in
    if str_eq s "" then rest else elim (t.parse s) [
      | none ↦ rest
      | some n ↦ if same_version n.version v4 then n ∷ rest else rest
    ]

abbrev texts_of : List Prefix → List String
texts_of = map (λ p. p.prefix)

module _ (t : NetText) where
  -- The text of a network of version 4, if it names one.
  abbrev IsWithin : Network → String → Type 0
  IsWithin agg_net s = (n : Network) → t.parse s ≡ some n → subnet_of n agg_net ≡ some true

  -- A property of the texts' networks holds for each network.
  All-networks_of :
      (P : Network → Type 0) (ss : List String)
      → All (λ s. (n : Network) → t.parse s ≡ some n → n.version ≡ v4 → P n) ss
      → All P (networks_of t ss)
  unfolding networks_of
  All-networks_of P [] h = tt
  All-networks_of P (s ∷ ss) (k, h) = elim (Bool-cases (str_eq s "")) [
    | inl e ↦ rw e (All-networks_of P ss h)
    | inr e ↦ rw e (elim (Option-cases (t.parse s)) [
      | inl bad ↦ rw bad (All-networks_of P ss h)
      | inr (n, good) ↦ rw good (elim (Bool-cases (same_version n.version v4)) [
        | inl v ↦ rw v (k n good ((same_version_iff n.version v4).0 v), All-networks_of P ss h)
        | inr v ↦ rw v (All-networks_of P ss h)
      ])
    ])
  ]

  used_of-sizes : (ps : List Prefix) → used_of t ps ≡ sizes (networks_of t (texts_of ps))
  unfolding used_of networks_of sizes
  used_of-sizes [] = refl
  used_of-sizes (p ∷ ps) = elim (Bool-cases (str_eq p.prefix "")) [
    | inl e ↦ rw e (used_of-sizes ps)
    | inr e ↦ rw e (elim (Option-cases (t.parse p.prefix)) [
      | inl bad ↦ rw bad (used_of-sizes ps)
      | inr (n, good) ↦ rw good (elim (Bool-cases (same_version n.version v4)) [
        | inl v ↦ rw v (omega (arith, used_of-sizes ps))
        | inr v ↦ rw v (used_of-sizes ps)
      ])
    ])
  ]

  All-Disjoint :
      (s : String) (n : Network) (ss : List String)
      → t.parse s ≡ some n
      → n.version ≡ v4
      → All (Disjoint t s) ss
      → All
          (λ s'.
            (m : Network)
            → t.parse s' ≡ some m
            → m.version ≡ v4
            → (x : ℕ) → InNet x n
            → ¬ InNet x m)
          ss
  All-Disjoint s n [] en vn h = tt
  All-Disjoint s n (s' ∷ ss) en vn (d, h) =
      (λ m em vm. d n m en em (vn ∙ sym vm), All-Disjoint s n ss en vn h)

  networks_of-AreApart : (ss : List String) → AreDisjoint t ss → AreApart (networks_of t ss)
  unfolding networks_of
  networks_of-AreApart [] h = tt
  networks_of-AreApart (s ∷ ss) (k, h) = elim (Bool-cases (str_eq s "")) [
    | inl e ↦ rw e (networks_of-AreApart ss h)
    | inr e ↦ rw e (elim (Option-cases (t.parse s)) [
      | inl bad ↦ rw bad (networks_of-AreApart ss h)
      | inr (n, good) ↦ rw good (elim (Bool-cases (same_version n.version v4)) [
        | inl v ↦ rw v (
          All-networks_of (λ m. (x : ℕ) → InNet x n → ¬ InNet x m) ss
              (All-Disjoint s n ss good ((same_version_iff n.version v4).0 v) k),
          networks_of-AreApart ss h,
        )
        | inr v ↦ rw v (networks_of-AreApart ss h)
      ])
    ])
  ]

  subnet-IsBetween :
      (n agg_net : Network)
      → subnet_of n agg_net ≡ some true
      → IsBetween agg_net.network_address (agg_net.network_address + num_addresses agg_net) n
  unfolding subnet_of
  subnet-IsBetween n agg_net h =
      let p = num_addresses-pos n in
      let q = num_addresses-pos agg_net in (ground arith, ground arith)

  All-IsWithin :
      (agg_net : Network) (ss : List String)
      → All (IsWithin agg_net) ss
      → All
          (λ s.
            (n : Network)
            → t.parse s ≡ some n
            → n.version ≡ v4
            → IsBetween agg_net.network_address (agg_net.network_address + num_addresses agg_net) n)
          ss
  All-IsWithin agg_net [] h = tt
  All-IsWithin agg_net (s ∷ ss) (k, h) =
      (λ n good v. subnet-IsBetween n agg_net (k n good), All-IsWithin agg_net ss h)

  used_of-fits :
      (agg_net : Network) (ps : List Prefix)
      → AreDisjoint t (texts_of ps)
      → All (IsWithin agg_net) (texts_of ps)
      → used_of t ps ≤ num_addresses agg_net
  used_of-fits agg_net ps apart within = rw (used_of-sizes ps) (
      sizes-fit (networks_of t (texts_of ps)) agg_net.network_address (num_addresses agg_net)
        (networks_of-AreApart (texts_of ps) apart)
        (All-networks_of _ (texts_of ps) (All-IsWithin agg_net (texts_of ps) within)))

  -- If the prefixes of an aggregate of version 4 do not overlap and lie in it, the addresses that
  -- they use are at most those of the aggregate, and the utilization is the percentage of them,
  -- not cut off at 100. The library's percentage of a part must be at most 100.
  pub aggregate_utilization-fits :
      (percent : ℕ → ℕ → ℕ) (db : Db) (agg : Aggregate) (agg_net : Network)
      → ((used total : ℕ) → used ≤ total → percent used total ≤ 1000)
      → t.parse agg.prefix ≡ some agg_net
      → agg_net.version ≡ v4
      → AreDisjoint t (texts_of (select (belongs_to agg.id) db.prefixes))
      → All (IsWithin agg_net) (texts_of (select (belongs_to agg.id) db.prefixes))
      → let used = used_of t (select (belongs_to agg.id) db.prefixes) in
        (used ≤ num_addresses agg_net)
        × (aggregate_utilization t percent db agg ≡ (
          length (select (belongs_to agg.id) db.prefixes),
          percent used (num_addresses agg_net),
        ))
  unfolding aggregate_utilization
  aggregate_utilization-fits percent db agg agg_net law parsed version apart within =
      let fits = used_of-fits agg_net (select (belongs_to agg.id) db.prefixes) apart within in
      let v : same_version agg_net.version v4 ≡ true =
        (same_version_iff agg_net.version v4).1 version in
      let small =
        law (used_of t (select (belongs_to agg.id) db.prefixes)) (num_addresses agg_net) fits in
      (
        fits,
        rw (parsed, aggregate_utilization)
            (rw v (cut (num_addresses agg_net) (num_addresses-pos agg_net) _ _ small)),
      )
    where
      cut :
          (total : ℕ)
          → 0 < total
          → (count pct : ℕ) → pct ≤ 1000
          → ◌≡◌ {A = ℕ × ℕ} (if total == 0 then (count, 0) else (count, min 1000 pct)) (count, pct)
      cut total pos count pct le = ground arith
