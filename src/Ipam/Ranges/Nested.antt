-- ===== src/Ipam/Ranges/Nested.antt =====
-- `_aggregate_available_ranges` where a prefix lies inside another.
use net_soc_ops.Prelude.{
  ℕ, ◌+◌, ◌^◌, ◌≤◌, ◌<◌, ◌≡◌, inl, inr, some, List, [], ◌∷◌, ◌++◌, All-append, arith, select,
}
use net_soc_ops.Ipam.Network.{Network, v4, broadcast_address}
use net_soc_ops.Ipam.Network.Laws.{InNet, num_addresses-pos}
use net_soc_ops.Ipam.Cidrs.Tiling.{InSome}
use net_soc_ops.Ipam.Store.{NetText, Aggregate, Db}
use net_soc_ops.Ipam.Ranges.{
  sort, subnets_of, gaps_from, cidrs_of_gaps, belongs_to, gap_before, available_networks,
}
use net_soc_ops.Ipam.Ranges.Complement.{InGaps-append, gap_before-fits}
use net_soc_ops.Ipam.Ranges.Sorting.{cidrs_of_gaps-InSome}
use net_soc_ops.Ipam.Ranges.Available.{available_networks_of_gaps}

nested_gaps :
    (low top : ℕ) (outer inner : Network)
    → outer.network_address ≤ inner.network_address
    → broadcast_address inner < broadcast_address outer
    → broadcast_address outer < top
    → top + 1 < 2 ^ 32
    → gaps_from low top (outer ∷ inner ∷ [])
      ≡ some (gap_before low outer.network_address ++ (broadcast_address inner + 1, top) ∷ [])
unfolding gaps_from
nested_gaps low top outer inner le before inside room =
    let po = num_addresses-pos outer in let pi = num_addresses-pos inner in ground arith

-- For an IPv4 aggregate that does not end at the last address, whose prefixes inside it are two, in the
-- order in which the function sorts them, of which the first begins no later and ends later than the
-- second
-- and ends before the aggregate, the address after the second is in one of the networks that are
-- returned as free, although the first has it.
pub available_networks-nested :
    (t : NetText) (db : Db) (agg : Aggregate) (agg_net outer inner : Network)
    → t.parse agg.prefix ≡ some agg_net
    → agg_net.version ≡ v4
    → broadcast_address agg_net + 1 < 2 ^ 32
    → sort (subnets_of t agg_net (select (belongs_to agg.id) db.prefixes)) ≡ outer ∷ inner ∷ []
    → outer.network_address ≤ inner.network_address
    → broadcast_address inner < broadcast_address outer
    → broadcast_address outer < broadcast_address agg_net
    → (nets : List Network) × (available_networks t db agg ≡ some nets)
      × InSome (broadcast_address inner + 1) nets
      × InNet (broadcast_address inner + 1) outer
available_networks-nested t db agg agg_net outer inner e v room sorted le before inside =
    let free = broadcast_address inner + 1 in
    let top = broadcast_address agg_net in
    let po = num_addresses-pos outer in
    let pi = num_addresses-pos inner in
    let pa = num_addresses-pos agg_net in
    let before_outer = gap_before agg_net.network_address outer.network_address in
    let gaps : List (ℕ × ℕ) = before_outer ++ (free, top) ∷ [] in
    let found : gaps_from agg_net.network_address top
          (sort (subnets_of t agg_net (select (belongs_to agg.id) db.prefixes)))
        ≡ some gaps =
      rw sorted (nested_gaps agg_net.network_address top outer inner le before inside room) in
    (
      cidrs_of_gaps gaps,
      available_networks_of_gaps t db agg agg_net gaps e v found,
      (cidrs_of_gaps-InSome free gaps (
            All-append _ before_outer ((free, top) ∷ [])
              (gap_before-fits agg_net.network_address outer.network_address (omega arith))
              (omega arith, tt))).1
          ((InGaps-append free before_outer ((free, top) ∷ [])).1
            (inr (inl (omega arith, omega arith)))),
      (omega arith, omega arith),
    )
