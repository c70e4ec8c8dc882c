-- ===== src/Ipam/Ranges/Complement.antt =====
-- The gaps between the subnets of an aggregate: what `_aggregate_available_ranges` returns.
use native.Mathlib.Decide.{dec_lt}
use mathlib.Core.List.{append-nil}
use net_soc_ops.Prelude.{
  ℕ, ◌+◌, ◌^◌, ◌≤◌, ◌<◌, ◌≡◌, refl, ap, sym, ◌↔◌, ◌⊎◌, inl, inr, true, some, List, [], ◌∷◌, ◌++◌,
  All, All-append, arith, leb, ltb, Bool-cases, if◌then◌else◌,
}
use net_soc_ops.Ipam.Network.{Network, num_addresses, broadcast_address}
use net_soc_ops.Ipam.Network.Laws.{num_addresses-pos}
use net_soc_ops.Ipam.Cidrs.Tiling.{InSome}
use net_soc_ops.Ipam.Ranges.{gap_before, gaps_from}

abbrev pub InGaps : ℕ → List (ℕ × ℕ) → Type 0
InGaps x [] = ⊥
InGaps x ((a, b) ∷ gaps) = ((a ≤ x) × (x ≤ b)) ⊎ InGaps x gaps

-- The networks follow one another from `low` on, and end by `high`.
abbrev pub Chain : ℕ → ℕ → List Network → Type 0
Chain low high [] = low ≤ high
Chain low high (n ∷ ns) =
    (low ≤ n.network_address) × Chain (n.network_address + num_addresses n) high ns

Chain-le : (low high : ℕ) (ns : List Network) → Chain low high ns → low ≤ high
Chain-le low high [] c = c
Chain-le low high (n ∷ ns) (le, c) =
    omega (arith, Chain-le (n.network_address + num_addresses n) high ns c)

Chain-InSome :
    (x low high : ℕ) (ns : List Network) → Chain low high ns → InSome x ns → (low ≤ x) × (x < high)
Chain-InSome x low high [] c h = absurd h
Chain-InSome x low high (n ∷ ns) (le, c) (inl here) =
    let end = Chain-le (n.network_address + num_addresses n) high ns c in (omega arith, omega arith)
Chain-InSome x low high (n ∷ ns) (le, c) (inr there) =
    let (lo, hi) = Chain-InSome x (n.network_address + num_addresses n) high ns c there in
    (omega arith, omega arith)

pub InGaps-append :
    (x : ℕ) (gs hs : List (ℕ × ℕ)) → InGaps x (gs ++ hs) ↔ (InGaps x gs ⊎ InGaps x hs)
InGaps-append x [] hs = (λ h. inr h, λ h. elim h [ inl e ↦ absurd e | inr e ↦ e ])
InGaps-append x ((a, b) ∷ gs) hs =
    let ih = InGaps-append x gs hs in
    (
      λ h. elim h [
        | inl e ↦ inl (inl e)
        | inr e ↦ elim (ih.0 e) [ inl f ↦ inl (inr f) | inr f ↦ inr f ]
      ],
      λ h. elim h [
        | inl e ↦ elim e [ inl f ↦ inl f | inr f ↦ inr (ih.1 (inl f)) ]
        | inr f ↦ inr (ih.1 (inr f))
      ],
    )

InGaps-gap_before : (x low start : ℕ) → InGaps x (gap_before low start) ↔ ((low ≤ x) × (x < start))
InGaps-gap_before x low start = elim (Bool-cases (ltb low start)) [
  | inl e ↦ rw e (ground arith)
  | inr e ↦ rw e (ground arith)
]

pub gap_before-fits :
    (low start : ℕ) → start ≤ 2 ^ 32 → All (λ g. g.1 < 2 ^ 32) (gap_before low start)
gap_before-fits low start h = ground arith

-- The addresses that the loop has found: those from `low` to `top` that no network of `ns` has.
abbrev Complements : ℕ → ℕ → List Network → List (ℕ × ℕ) → Type 0
Complements low top ns gaps =
    All (λ g. g.1 < 2 ^ 32) gaps
    × ((x : ℕ) → InGaps x gaps ↔ ((low ≤ x) × (x ≤ top) × ¬ InSome x ns))

-- One round that goes on with the gaps of the rest.
gap_before-Complements :
    (low top : ℕ) (s : Network) (ss : List Network) (gaps : List (ℕ × ℕ))
    → low ≤ s.network_address
    → Chain (s.network_address + num_addresses s) (top + 1) ss
    → top + 1 < 2 ^ 32
    → Complements (s.network_address + num_addresses s) top ss gaps
    → Complements low top (s ∷ ss) (gap_before low s.network_address ++ gaps)
gap_before-Complements low top s ss gaps le c room (fits, h) =
    let end = Chain-le (s.network_address + num_addresses s) (top + 1) ss c in
    let pos = num_addresses-pos s in
    (
      All-append _ (gap_before low s.network_address) gaps
          (gap_before-fits low s.network_address (omega arith)) fits,
      λ x.
          let first = InGaps-gap_before x low s.network_address in
          let later = Chain-InSome x (s.network_address + num_addresses s) (top + 1) ss c in
          let app = InGaps-append x (gap_before low s.network_address) gaps in
          (
            λ e. elim (app.0 e) [
              | inl f ↦
                  let (lo, hi) = first.0 f in
                  (
                    lo,
                    omega arith,
                    λ m. elim m [
                      | inl a ↦ omega arith
                      | inr b ↦ let (l, r) = later b in omega arith
                    ],
                  )
              | inr f ↦
                  let (lo, hi, out) = (h x).0 f in
                  (omega arith, hi, λ m. elim m [ inl a ↦ omega arith | inr b ↦ out b ])
            ],
            λ e.
                let (lo, hi, out) = e in
                app.1 (elim (dec_lt x s.network_address) [
                  | yes before ↦ inl (first.1 (lo, before))
                  | no after ↦ elim (dec_lt x (s.network_address + num_addresses s)) [
                    | yes within ↦ absurd (out (inl (omega arith, within)))
                    | no past ↦ inr ((h x).1 (omega arith, hi, λ m. out (inr m)))
                  ]
                ]),
          ),
    )

-- The last gap, from `low` to `top`.
last-Complements :
    (low top : ℕ)
    → top < 2 ^ 32
    → Complements low top [] (if leb low top then (low, top) ∷ [] else [])
last-Complements low top room = elim (Bool-cases (leb low top)) [
  | inl e ↦ rw e (
    (omega arith, tt),
    λ x. (λ h. elim h [ inl p ↦ (p.0, p.1, λ n. n) | inr p ↦ absurd p ], λ h. inl (h.0, h.1)),
  )
  | inr e ↦ rw e (tt, λ x. (λ h. absurd h, λ h. absurd (ground arith)))
]

-- Nothing lies past the last address.
done-Complements : (low top : ℕ) (ss : List Network) → top < low → Complements low top ss []
done-Complements low top ss h =
    (tt, λ x. (λ e. absurd e, λ e. let (lo, hi, out) = e in omega arith))

pub gaps_from-Complements :
    (low top : ℕ) (ns : List Network)
    → Chain low (top + 1) ns
    → top + 1 < 2 ^ 32
    → (gaps : List (ℕ × ℕ)) × (gaps_from low top ns ≡ some gaps) × Complements low top ns gaps
unfolding gaps_from
gaps_from-Complements low top [] c room = (_, refl, last-Complements low top (omega arith))
gaps_from-Complements low top (s ∷ ss) (le, c) room =
    let next = s.network_address + num_addresses s in
    let pos = num_addresses-pos s in
    let same : broadcast_address s + 1 ≡ next = omega arith in
    let end = Chain-le next (top + 1) ss c in
    let fits : ltb next (2 ^ 32) ≡ true = ground arith in
    elim (Bool-cases (ltb top next)) [
      | inl stop ↦ (
        gap_before low s.network_address ++ [],
        rw (same, fits, stop) (ap some (sym (append-nil _))),
        gap_before-Complements low top s ss [] le c room
            (done-Complements next top ss (ground arith)),
      )
      | inr go ↦
          let (gaps, e, h) = gaps_from-Complements next top ss c room in
          (
            gap_before low s.network_address ++ gaps,
            rw (same, fits, go, e),
            gap_before-Complements low top s ss gaps le c room h,
          )
    ]
