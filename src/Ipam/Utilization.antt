-- ===== src/Ipam/Utilization.antt =====
-- `_aggregate_utilization` of netops-backend/routes/ipam_router.py. `percent used total` is the
-- float `round(used / total * 100, 1)`, as a number of tenths.
pub mod Bounds
use Prim.Native.Nat.{min}
use net_soc_ops.Prelude.{
  ℕ, ◌+◌, String, Bool, Option, none, some, List, [], ◌∷◌, length, select, str_eq, ◌==◌,
  if◌then◌else◌,
}
use net_soc_ops.Ipam.Network.{Network, v4, same_version, num_addresses}
use net_soc_ops.Ipam.Store.{NetText, Aggregate, Prefix, Db}
use net_soc_ops.Ipam.Ranges.{belongs_to}

-- The loop that sums the sizes of the prefixes of version 4.
unfoldable pub used_of : NetText → List Prefix → ℕ
used_of t [] = 0
used_of t (p ∷ ps) =
    let rest = used_of t ps in
    if str_eq p.prefix "" then rest else elim (t.parse p.prefix) [
      | none ↦ rest
      | some n ↦ if same_version n.version v4 then num_addresses n + rest else rest
    ]

-- The number of prefixes, and the percentage in tenths.
unfoldable pub aggregate_utilization : NetText → (ℕ → ℕ → ℕ) → Db → Aggregate → ℕ × ℕ
aggregate_utilization t percent db agg =
    let prefixes = select (belongs_to agg.id) db.prefixes in
    elim (t.parse agg.prefix) [
      | none ↦ (length prefixes, 0)
      | some agg_net ↦
          if same_version agg_net.version v4
          then (if num_addresses agg_net == 0 then (length prefixes, 0) else (
            length prefixes,
            min 1000 (percent (used_of t prefixes) (num_addresses agg_net)),
          ))
          else (length prefixes, 0)
    ]
