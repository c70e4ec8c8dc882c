-- ===== src/Ipam/AggregateRoutes.antt =====
-- The endpoints of aggregates in netops-backend/routes/ipam_router.py. A handler that raises
-- commits nothing.
pub mod Rows
pub mod Disjoint
use net_soc_ops.Prelude.{
  ℕ, String, Bool, not, ◌&&◌, Option, none, some, List, strip, find, any, select, update,
  modify_first, str_eq, ◌==◌, if◌then◌else◌,
}
use net_soc_ops.Prelude.Results.{Result, ok, err, ◌>>=◌, ◌>>◌}
use net_soc_ops.Ipam.Store.{NetText, Aggregate, Prefix, Db, Date}
use net_soc_ops.Ipam.Validators.{
  Problem, validate_cidr_format, ipam_aggregate_overlaps_existing, is_excluded, aggregate_by_id,
}
use net_soc_ops.Ipam.AggregateImport.{add_aggregate}
use net_soc_ops.Ipam.Utilization.{aggregate_utilization}
use net_soc_ops.Ipam.Ranges.{aggregate_available_ranges, belongs_to}

-- Status 404; status 400 with the message of a validator or with that of the overlap; what the
-- database raises for a second row of one prefix; Python's own errors.
pub data Failure : Type 0 where
  not_found overlapping integrity_error type_error address_value_error : Failure
  bad_request : Problem → Failure

pub record AggregateCreate : Type 0 where
  pub prefix : String
  pub rir : Option String
  pub date_added : Option String
  pub description : Option String

pub record AggregateUpdate : Type 0 where
  pub prefix : Option String
  pub rir : Option String
  pub date_added : Option String
  pub description : Option String

-- The reply: the row with its number of prefixes and its utilization.
pub record AggregateItem : Type 0 where
  pub row : Aggregate
  pub prefix_count : ℕ
  pub utilization_pct : ℕ

unfoldable pub parse_cidr : NetText → String → Result Failure (Unit {0})
parse_cidr t cidr = elim (validate_cidr_format t cidr) [
  | err e ↦ err (bad_request e)
  | ok norm ↦ ok tt
]

unfoldable pub aggregates_overlap : NetText → Db → String → Option ℕ → Result Failure (Unit {0})
aggregates_overlap t db prefix_str exclude_id =
    if ipam_aggregate_overlaps_existing t db prefix_str exclude_id then err overlapping else ok tt

-- `s.strip() if s else None`.
abbrev pub stripped : Option String → Option String
stripped none = none
stripped (some s) = if str_eq s "" then none else some (strip s)

-- A field that the request sets.
abbrev pub stripped_or : Option String → Option String → Option String
stripped_or none old = old
stripped_or (some s) old = stripped (some s)

-- The date of a new row: `None` for a text that is none.
abbrev first_date : NetText → Option String → Option Date
first_date t none = none
first_date t (some s) = if str_eq s "" then none else t.strptime s

abbrev date_or : NetText → Option String → Option Date → Option Date
date_or t none old = old
date_or t (some s) old = elim (t.strptime s) [ none ↦ old | some d ↦ some d ]

-- The unique index on the prefix, at the commit.
unfoldable pub require_unique : Db → String → Option ℕ → Result Failure (Unit {0})
require_unique db prefix exclude_id =
    if any (λ a. not (is_excluded exclude_id a.id) && str_eq a.prefix prefix) db.aggregates
    then err integrity_error
    else ok tt

abbrev pub item_of : NetText → (ℕ → ℕ → ℕ) → Db → Aggregate → AggregateItem
item_of t percent db agg =
    let (cnt, pct) = aggregate_utilization t percent db agg in
    record { row = agg; prefix_count = cnt; utilization_pct = pct }

-- `IpamAggregate(...)` of the body.
unfoldable pub inserted_aggregate : NetText → Db → AggregateCreate → Db
unfolding strip
inserted_aggregate t db body =
    add_aggregate (strip body.prefix) (stripped body.rir) (first_date t body.date_added)
      (stripped body.description) db

abbrev new_aggregate : NetText → Db → AggregateCreate → Aggregate
unfolding strip
new_aggregate t db body = record {
  id = db.next_aggregate;
  prefix = strip body.prefix;
  rir = stripped body.rir;
  date_added = first_date t body.date_added;
  description = stripped body.description;
}

unfoldable pub create_aggregate :
    NetText → (ℕ → ℕ → ℕ) → AggregateCreate → Db → Result Failure (AggregateItem × Db)
unfolding strip inserted_aggregate
create_aggregate t percent body db = do
  parse_cidr t body.prefix
  aggregates_overlap t db body.prefix none
  require_unique db (strip body.prefix) none
  let db' = inserted_aggregate t db body
  ok (item_of t percent db' (new_aggregate t db body), db')

abbrev pub require_aggregate : Db → ℕ → Result Failure Aggregate
require_aggregate db agg_id = elim (aggregate_by_id db agg_id) [
  | none ↦ err not_found
  | some agg ↦ ok agg
]

unfoldable pub get_aggregate_available_ranges : NetText → ℕ → Db → Result Failure (List String)
get_aggregate_available_ranges t agg_id db = do
  agg ← require_aggregate db agg_id
  elim (aggregate_available_ranges t db agg) [
    | none ↦ err address_value_error
    | some items ↦ ok items
  ]

unfoldable pub get_aggregate : NetText → (ℕ → ℕ → ℕ) → ℕ → Db → Result Failure AggregateItem
get_aggregate t percent agg_id db = do
  agg ← require_aggregate db agg_id
  ok (item_of t percent db agg)

-- The checks of a prefix that the request sets.
unfoldable pub check_new_prefix : NetText → Db → ℕ → Option String → Result Failure (Unit {0})
unfolding strip
check_new_prefix t db agg_id none = ok tt
check_new_prefix t db agg_id (some p) = do
  parse_cidr t p
  aggregates_overlap t db p (some agg_id)
  require_unique db (strip p) (some agg_id)

abbrev pub prefix_or : Option String → String → String
prefix_or none old = old
prefix_or (some p) old = strip p

-- The assignments to `agg`.
unfoldable pub changed_aggregate : NetText → AggregateUpdate → Aggregate → Aggregate
changed_aggregate t body agg = record agg {
  prefix = prefix_or body.prefix agg.prefix;
  rir = stripped_or body.rir agg.rir;
  date_added = date_or t body.date_added agg.date_added;
  description = stripped_or body.description agg.description;
}

unfoldable pub stored_aggregate : NetText → ℕ → AggregateUpdate → Db → Db
stored_aggregate t agg_id body db = record db {
  aggregates = modify_first (λ a. a.id == agg_id) (changed_aggregate t body) db.aggregates;
}

unfoldable pub update_aggregate :
    NetText → (ℕ → ℕ → ℕ) → ℕ → AggregateUpdate → Db → Result Failure (AggregateItem × Db)
update_aggregate t percent agg_id body db = do
  agg ← require_aggregate db agg_id
  check_new_prefix t db agg_id body.prefix
  let db' = stored_aggregate t agg_id body db
  ok (item_of t percent db' (changed_aggregate t body agg), db')

-- `ondelete="SET NULL"` of the prefixes' foreign key.
unfoldable pub removed_aggregate : ℕ → Db → Db
removed_aggregate agg_id db = record db {
  aggregates = select (λ a. not (a.id == agg_id)) db.aggregates;
  prefixes = update (belongs_to agg_id) (λ p. record p { aggregate_id = none }) db.prefixes;
}

unfoldable pub delete_aggregate : ℕ → Db → Result Failure Db
delete_aggregate agg_id db = do agg ← require_aggregate db agg_id; ok (removed_aggregate agg_id db)
