-- ===== src/Ipam/AggregateImport.antt =====
-- `import_aggregates_csv` of netops-backend/services/ipam_csv_import.py.
pub mod Disjoint
pub mod Count
use net_soc_ops.Prelude.{
  ℕ, suc, String, Option, none, some, List, [], ◌∷◌, ◌++◌, strip, elem, update, str_eq, ◌==◌,
  if◌then◌else◌,
}
use net_soc_ops.Prelude.Results.{Result, ok, err, ◌>>=◌}
use net_soc_ops.Ipam.Store.{Aggregate, Db, Date, NetText}
use net_soc_ops.Ipam.CsvRows.{
  Reader, FileError, Row, get, aggregate_csv_headers, validate_and_read_rows,
}
use net_soc_ops.Ipam.CsvImport.{
  Import, start, fail, Saved, inserted, changed, finish, cell_or, or_none, parse_date_optional,
  find_aggregate_by_normalized,
}
use net_soc_ops.Ipam.Validators.{
  Problem, empty_prefix, duplicate_in_file, overlaps_existing, validate_cidr_format,
  ipam_aggregate_overlaps_existing,
}

abbrev pub new_date : Option Date → Option Date → Option Date
new_date none old = old
new_date (some d) old = some d

-- The assignments to `existing`.
merge_aggregate : Row → Option Date → Aggregate → Aggregate
merge_aggregate row date_val a = record a {
  rir = cell_or (get "分配机构" row) a.rir;
  date_added = new_date date_val a.date_added;
  description = cell_or (get "描述" row) a.description;
}

-- `db.add(IpamAggregate(...))`.
unfoldable pub add_aggregate : String → Option String → Option Date → Option String → Db → Db
add_aggregate norm rir date_val desc db = record db {
  aggregates =
      db.aggregates
      ++ record {
        id = db.next_aggregate;
        prefix = norm;
        rir = rir;
        date_added = date_val;
        description = desc;
      }
        ∷ [];
  next_aggregate = suc db.next_aggregate;
}

-- The branch on `existing`, once the date is read.
unfoldable pub save_dated : NetText → Db → Row → String → Option Date → Result Problem Saved
unfolding merge_aggregate add_aggregate
save_dated t db row norm date_val = elim (find_aggregate_by_normalized t db norm) [
  | some existing ↦ ok (
      changed (record db {
        aggregates = update (λ a. a.id == existing.id) (merge_aggregate row date_val) db.aggregates;
      }))
  | none ↦
      if ipam_aggregate_overlaps_existing t db norm none
      then err (overlaps_existing norm)
      else ok (
          inserted
            (add_aggregate norm (or_none (get "分配机构" row)) date_val (or_none (get "描述" row)) db))
]

-- The row from the lookup of `existing` on, for a prefix that the file has not named before.
unfoldable pub save_aggregate : NetText → Db → Row → String → Result Problem Saved
save_aggregate t db row norm = do
  date_val ← parse_date_optional t (get "分配日期" row)
  save_dated t db row norm date_val

-- The row once its prefix is normalised.
unfoldable pub take_aggregate : NetText → Import → ℕ → Row → String → Import
take_aggregate t s row_num row norm =
    if elem norm s.seen_norm
    then fail s row_num (duplicate_in_file norm)
    else finish (record s { seen_norm = norm ∷ s.seen_norm }) row_num
        (save_aggregate t s.db row norm)

unfoldable pub import_aggregate_row : NetText → Import → ℕ × Row → Import
unfolding strip
import_aggregate_row t s (row_num, row) =
    let raw_p = strip (get "网段" row) in
    if str_eq raw_p "" then fail s row_num empty_prefix else elim (validate_cidr_format t raw_p) [
      | err e ↦ fail s row_num e
      | ok norm ↦ take_aggregate t s row_num row norm
    ]

unfoldable pub import_aggregate_rows : NetText → Import → List (ℕ × Row) → Import
import_aggregate_rows t s [] = s
import_aggregate_rows t s (row ∷ rows) = import_aggregate_rows t (import_aggregate_row t s row) rows

unfoldable pub import_aggregates_csv :
    NetText → (String → Reader) → Db → String → Result FileError Import
import_aggregates_csv t csv_reader db content = do
  rows ← validate_and_read_rows csv_reader content aggregate_csv_headers
  ok (import_aggregate_rows t (start db) rows)
