-- ===== src/Ipam/Validators.antt =====
-- netops-backend/services/ipam_validators.py. `t` is the library's reading of texts.
pub mod Overlap
use net_soc_ops.Prelude.{
  ℕ, String, Bool, true, false, not, ◌&&◌, Option, none, some, List, [], ◌∷◌, strip, find, str_eq,
  any, ◌==◌, if◌then◌else◌,
}
use net_soc_ops.Prelude.Int.{ℤ}
use net_soc_ops.Prelude.Results.{Result, ok, err, ◌>>=◌}
use net_soc_ops.Ipam.Network.{Network, overlaps, subnet_of}
use net_soc_ops.Ipam.Store.{NetText, Aggregate, Db}

-- The exceptions that the import and the validators raise, and the messages of rejected rows.
pub data Problem : Type 0 where
  empty_prefix bad_cidr aggregate_missing outside_aggregate version_mismatch : Problem
  bad_date bad_bool bad_status aggregate_id_not_int vlan_not_int : Problem
  duplicate_in_file overlaps_existing aggregate_not_found : String → Problem
  aggregate_id_missing : ℤ → Problem

unfoldable pub validate_cidr_format : NetText → String → Result Problem String
unfolding strip
validate_cidr_format t cidr =
    if str_eq (strip cidr) ""
    then err empty_prefix
    else elim (t.parse (strip cidr)) [ none ↦ err bad_cidr | some net ↦ ok (t.print net) ]

abbrev pub is_excluded : Option ℕ → ℕ → Bool
is_excluded none id = false
is_excluded (some x) id = x == id

-- One round of the loop: the row is not excluded, and it overlaps.
abbrev pub row_overlaps : NetText → Network → Option ℕ → Aggregate → Bool
row_overlaps t new_net exclude_id agg =
    not (is_excluded exclude_id agg.id)
    && not (str_eq agg.prefix "")
    && elim (t.parse agg.prefix) [ none ↦ false | some existing ↦ overlaps new_net existing ]

unfoldable pub ipam_aggregate_overlaps_existing : NetText → Db → String → Option ℕ → Bool
ipam_aggregate_overlaps_existing t db prefix_str exclude_id = elim (t.parse prefix_str) [
  | none ↦ true
  | some new_net ↦ any (row_overlaps t new_net exclude_id) db.aggregates
]

abbrev pub network_or_fail : NetText → String → Result Problem Network
network_or_fail t s = elim (t.parse s) [ none ↦ err bad_cidr | some n ↦ ok n ]

-- `subnet_of` raises `TypeError` for two versions.
abbrev pub require_subnet : Option Bool → Result Problem (Unit {0})
require_subnet none = err version_mismatch
require_subnet (some true) = ok tt
require_subnet (some false) = err outside_aggregate

abbrev pub aggregate_by_id : Db → ℕ → Option Aggregate
aggregate_by_id db id = find (λ a. a.id == id) db.aggregates

unfoldable pub check_prefix_in_aggregate :
    NetText → Db → String → Option ℕ → Result Problem (Unit {0})
unfolding strip
check_prefix_in_aggregate t db prefix_str none = ok tt
check_prefix_in_aggregate t db prefix_str (some id) = elim (aggregate_by_id db id) [
  | none ↦ err aggregate_missing
  | some agg ↦ if str_eq agg.prefix "" then err aggregate_missing else do
    prefix_net ← network_or_fail t (strip prefix_str)
    agg_net ← network_or_fail t agg.prefix
    require_subnet (subnet_of prefix_net agg_net)
]
