-- ===== src/Ipam/Ranges/Sorting.antt =====
-- `subnets.sort` of `_aggregate_available_ranges`, and the networks of its gaps.
use net_soc_ops.Prelude.{
  ℕ, ◌+◌, ◌^◌, ◌≤◌, ◌<◌, ◌≡◌, ◌↔◌, ◌⊎◌, inl, inr, true, List, [], ◌∷◌, ◌++◌, All, arith, Bool-cases,
}
use net_soc_ops.Ipam.Network.{Network, num_addresses}
use net_soc_ops.Ipam.Network.Laws.{InNet, num_addresses-pos}
use net_soc_ops.Ipam.Cidrs.{address_range_to_cidrs}
use net_soc_ops.Ipam.Cidrs.Tiling.{InSome, address_range_to_cidrs-InSome}
use net_soc_ops.Ipam.Ranges.{key_le, insert_sorted, sort, cidrs_of_gaps}
use net_soc_ops.Ipam.Ranges.Complement.{InGaps, Chain}

-- The two networks share no address.
abbrev pub Apart : Network → Network → Type 0
Apart a b =
    (a.network_address + num_addresses a ≤ b.network_address)
    ⊎ (b.network_address + num_addresses b ≤ a.network_address)

abbrev pub PairwiseApart : List Network → Type 0
PairwiseApart [] = Unit
PairwiseApart (n ∷ ns) = All (Apart n) ns × PairwiseApart ns

-- Each network lies between the two bounds.
abbrev pub Within : ℕ → ℕ → List Network → Type 0
Within low high ns =
    All (λ n. (low ≤ n.network_address) × (n.network_address + num_addresses n ≤ high)) ns

insert_sorted-All :
    (P : Network → Type 0) (n : Network) (ns : List Network)
    → P n
    → All P ns
    → All P (insert_sorted n ns)
unfolding insert_sorted
insert_sorted-All P n [] p h = (p, tt)
insert_sorted-All P n (m ∷ ms) p (q, h) = elim (Bool-cases (key_le n m)) [
  | inl e ↦ rw e (p, (q, h))
  | inr e ↦ rw e (q, insert_sorted-All P n ms p h)
]

sort-All : (P : Network → Type 0) (ns : List Network) → All P ns → All P (sort ns)
unfolding sort
sort-All P [] h = tt
sort-All P (n ∷ ns) (p, h) = insert_sorted-All P n (sort ns) p (sort-All P ns h)

key_le_address : (n m : Network) → key_le n m ≡ true → n.network_address ≤ m.network_address
key_le_address n m h = ground arith

insert_sorted-Chain :
    (low high : ℕ) (n : Network) (ns : List Network)
    → low ≤ n.network_address
    → n.network_address + num_addresses n ≤ high
    → All (Apart n) ns
    → Chain low high ns
    → Chain low high (insert_sorted n ns)
unfolding insert_sorted
insert_sorted-Chain low high n [] lo hi a c = (lo, hi)
insert_sorted-Chain low high n (m ∷ ms) lo hi (apart, a) (le, c) =
    let pn = num_addresses-pos n in
    let pm = num_addresses-pos m in
    elim (Bool-cases (key_le n m)) [
      | inl e ↦ let first = key_le_address n m e in rw e (lo, (omega arith, c))
      | inr e ↦ rw e (
        le,
        insert_sorted-Chain (m.network_address + num_addresses m) high n ms (ground arith) hi a c,
      )
    ]

pub sort-Chain :
    (low high : ℕ) (ns : List Network)
    → low ≤ high
    → PairwiseApart ns
    → Within low high ns
    → Chain low high (sort ns)
unfolding sort
sort-Chain low high [] le a w = le
sort-Chain low high (n ∷ ns) le (apart, a) ((lo, hi), w) =
    insert_sorted-Chain low high n (sort ns) lo hi (sort-All (Apart n) ns apart)
      (sort-Chain low high ns le a w)

insert_sorted-InSome :
    (x : ℕ) (n : Network) (ns : List Network)
    → InSome x (insert_sorted n ns) ↔ (InNet x n ⊎ InSome x ns)
unfolding insert_sorted
insert_sorted-InSome x n [] = (λ h. h, λ h. h)
insert_sorted-InSome x n (m ∷ ms) =
    let ih = insert_sorted-InSome x n ms in
    elim (Bool-cases (key_le n m)) [
      | inl e ↦ rw e (λ h. h, λ h. h)
      | inr e ↦ rw e (
        λ h. elim h [
          | inl a ↦ inr (inl a)
          | inr b ↦ elim (ih.0 b) [ inl c ↦ inl c | inr c ↦ inr (inr c) ]
        ],
        λ h. elim h [
          | inl a ↦ inr (ih.1 (inl a))
          | inr b ↦ elim b [ inl c ↦ inl c | inr c ↦ inr (ih.1 (inr c)) ]
        ],
      )
    ]

pub sort-InSome : (x : ℕ) (ns : List Network) → InSome x (sort ns) ↔ InSome x ns
unfolding sort
sort-InSome x [] = (λ h. h, λ h. h)
sort-InSome x (n ∷ ns) =
    let ih = sort-InSome x ns in
    let ins = insert_sorted-InSome x n (sort ns) in
    (
      λ h. elim (ins.0 h) [ inl a ↦ inl a | inr b ↦ inr (ih.0 b) ],
      λ h. ins.1 (elim h [ inl a ↦ inl a | inr b ↦ inr (ih.1 b) ]),
    )

InSome-append : (x : ℕ) (ms ns : List Network) → InSome x (ms ++ ns) ↔ (InSome x ms ⊎ InSome x ns)
InSome-append x [] ns = (λ h. inr h, λ h. elim h [ inl e ↦ absurd e | inr e ↦ e ])
InSome-append x (m ∷ ms) ns =
    let ih = InSome-append x ms ns in
    (
      λ h. elim h [
        | inl e ↦ inl (inl e)
        | inr e ↦ elim (ih.0 e) [ inl f ↦ inl (inr f) | inr f ↦ inr f ]
      ],
      λ h. elim h [
        | inl e ↦ elim e [ inl f ↦ inl f | inr f ↦ inr (ih.1 (inl f)) ]
        | inr f ↦ inr (ih.1 (inr f))
      ],
    )

pub cidrs_of_gaps-InSome :
    (x : ℕ) (gaps : List (ℕ × ℕ))
    → All (λ g. g.1 < 2 ^ 32) gaps
    → InSome x (cidrs_of_gaps gaps) ↔ InGaps x gaps
unfolding cidrs_of_gaps
cidrs_of_gaps-InSome x [] h = (λ e. e, λ e. e)
cidrs_of_gaps-InSome x ((a, b) ∷ gaps) (fits, h) =
    let ih = cidrs_of_gaps-InSome x gaps h in
    let here = address_range_to_cidrs-InSome a b x fits in
    let app = InSome-append x (address_range_to_cidrs a b) (cidrs_of_gaps gaps) in
    (
      λ e. elim (app.0 e) [ inl f ↦ inl (here.0 f) | inr f ↦ inr (ih.0 f) ],
      λ e. app.1 (elim e [ inl f ↦ inl (here.1 f) | inr f ↦ inr (ih.1 f) ]),
    )
