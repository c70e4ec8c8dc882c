-- ===== src/Ipam/Ranges.antt =====
-- `_aggregate_available_ranges` of netops-backend/routes/ipam_router.py.
pub mod Complement
pub mod Sorting
pub mod Available
pub mod Nested
use mathlib.Core.Option
use net_soc_ops.Prelude.{
  ℕ, ◌+◌, ◌-◌, ◌*◌, ◌/◌, ◌^◌, String, Bool, true, false, ◌&&◌, ◌||◌, Option, none, some, List, [],
  ◌∷◌, ◌++◌, map, length, select, str_eq, ltb, leb, ◌==◌, if◌then◌else◌,
}
use net_soc_ops.Ipam.Network.{
  Network, v4, same_version, num_addresses, broadcast_address, subnet_of,
}
use net_soc_ops.Ipam.Cidrs.{address_range_to_cidrs}
use net_soc_ops.Ipam.Store.{NetText, Aggregate, Prefix, Db}

-- `n.version == 4 and n.subnet_of(agg_net)`.
abbrev is_v4_subnet : Network → Network → Bool
is_v4_subnet agg_net n =
    same_version n.version v4 && elim (subnet_of n agg_net) [ some b ↦ b | none ↦ false ]

-- The loop that collects `subnets`.
unfoldable pub subnets_of : NetText → Network → List Prefix → List Network
unfolding subnet_of
subnets_of t agg_net [] = []
subnets_of t agg_net (p ∷ ps) =
    let rest = subnets_of t agg_net ps in
    if str_eq p.prefix "" then rest else elim (t.parse p.prefix) [
      | none ↦ rest
      | some n ↦ if is_v4_subnet agg_net n then n ∷ rest else rest
    ]

-- The key `(network_address, num_addresses)`.
abbrev pub key_le : Network → Network → Bool
key_le a b =
    ltb a.network_address b.network_address
    || (a.network_address == b.network_address && leb (num_addresses a) (num_addresses b))

insert_sorted : Network → List Network → List Network
insert_sorted n [] = n ∷ []
insert_sorted n (m ∷ ms) = if key_le n m then n ∷ m ∷ ms else m ∷ insert_sorted n ms

-- `subnets.sort`, which is stable.
unfoldable pub sort : List Network → List Network
unfolding insert_sorted
sort [] = []
sort (n ∷ ns) = insert_sorted n (sort ns)

-- `if low < s.network_address: gaps.append((low, s.network_address - 1))`.
abbrev pub gap_before : ℕ → ℕ → List (ℕ × ℕ)
gap_before low start = if ltb low start then (low, start - 1) ∷ [] else []

-- The loop over the sorted subnets, from `low` to the last address `top`. `none` is the
-- `AddressValueError` of `IPv4Address` past the last address.
unfoldable pub gaps_from : ℕ → ℕ → List Network → Option (List (ℕ × ℕ))
gaps_from low top [] = some (if leb low top then (low, top) ∷ [] else [])
gaps_from low top (s ∷ ss) =
    let next = broadcast_address s + 1 in
    let gap = gap_before low s.network_address in
    let rest = Option.map (λ gaps. gap ++ gaps) (gaps_from next top ss) in
    if ltb next (2 ^ 32) then (if ltb top next then some gap else rest) else none

unfoldable pub cidrs_of_gaps : List (ℕ × ℕ) → List Network
cidrs_of_gaps [] = []
cidrs_of_gaps ((a, b) ∷ gaps) = address_range_to_cidrs a b ++ cidrs_of_gaps gaps

abbrev pub belongs_to : ℕ → Prefix → Bool
belongs_to id p = elim p.aggregate_id [ none ↦ false | some a ↦ a == id ]

-- The networks; the program returns their texts.
unfoldable pub available_networks : NetText → Db → Aggregate → Option (List Network)
available_networks t db agg = elim (t.parse agg.prefix) [
  | none ↦ some []
  | some agg_net ↦
      if same_version agg_net.version v4
      then Option.map cidrs_of_gaps (
          gaps_from agg_net.network_address (broadcast_address agg_net)
            (sort (subnets_of t agg_net (select (belongs_to agg.id) db.prefixes))))
      else some []
]

unfoldable pub aggregate_available_ranges : NetText → Db → Aggregate → Option (List String)
aggregate_available_ranges t db agg = Option.map (map t.print) (available_networks t db agg)
