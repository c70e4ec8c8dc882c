-- ===== src/Ipam/Resolve.antt =====
-- `_resolve_aggregate_id_for_prefix`, which netops-backend/routes/ipam_router.py and
-- netops-backend/services/phpipam_import.py declare alike.
pub mod Rounds
pub mod Smallest
use mathlib.Core.Option
use net_soc_ops.Prelude.{
  ℕ, String, Bool, true, false, ◌&&◌, Option, none, some, List, [], ◌∷◌, str_eq, ltb, if◌then◌else◌,
}
use net_soc_ops.Prelude.Results.{Result, ok, err, ◌>>=◌}
use net_soc_ops.Ipam.Network.{Network, num_addresses, subnet_of}
use net_soc_ops.Ipam.Store.{NetText, Aggregate, Db}

-- `subnet_of` of networks of two versions, which the function does not catch.
pub data TypeError : Type 0 where
  type_error : TypeError

-- `best` and `best_net`.
abbrev pub Best : Type 0
Best = Option (ℕ × Network)

abbrev pub is_smaller : Network → Best → Bool
is_smaller agg_net none = true
is_smaller agg_net (some (best, best_net)) = ltb (num_addresses agg_net) (num_addresses best_net)

-- The choice between `best` and a row whose network is read.
abbrev pub choose : Network → ℕ → Network → Best → Result TypeError Best
choose prefix_net id agg_net best = elim (subnet_of prefix_net agg_net) [
  | none ↦ err type_error
  | some inside ↦ ok (if inside && is_smaller agg_net best then some (id, agg_net) else best)
]

-- One round of the loop.
unfoldable pub consider : NetText → Network → Best → Aggregate → Result TypeError Best
unfolding subnet_of
consider t prefix_net best agg =
    if str_eq agg.prefix "" then ok best else elim (t.parse agg.prefix) [
      | none ↦ ok best
      | some agg_net ↦ choose prefix_net agg.id agg_net best
    ]

unfoldable pub best_of : NetText → Network → Best → List Aggregate → Result TypeError Best
best_of t prefix_net best [] = ok best
best_of t prefix_net best (agg ∷ candidates) = do
  best' ← consider t prefix_net best agg
  best_of t prefix_net best' candidates

unfoldable pub resolve_aggregate_id_for_prefix : NetText → Db → String → Result TypeError (Option ℕ)
resolve_aggregate_id_for_prefix t db prefix_str = elim (t.parse prefix_str) [
  | none ↦ ok none
  | some prefix_net ↦ do
    best ← best_of t prefix_net none db.aggregates
    ok (Option.map (λ b. b.0) best)
]
