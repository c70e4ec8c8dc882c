-- ===== src/Ipam/PrefixImport.antt =====
-- `import_prefixes_csv` of netops-backend/services/ipam_csv_import.py.
pub mod Place
pub mod Placed
use net_soc_ops.Prelude.{
  ℕ, suc, String, Bool, true, false, not, ◌||◌, Option, none, some, List, [], ◌∷◌, ◌++◌, strip,
  lower, elem, modify_first, str_eq, if◌then◌else◌,
}
use net_soc_ops.Prelude.Int.{ℤ}
use net_soc_ops.Prelude.Results.{Result, ok, err, ◌>>=◌, ◌>>◌}
use net_soc_ops.Ipam.Store.{Prefix, Db, NetText}
use net_soc_ops.Ipam.CsvRows.{
  Reader, FileError, Row, get, prefix_csv_headers, validate_and_read_rows,
}
use net_soc_ops.Ipam.CsvImport.{
  Import, start, fail, Saved, inserted, changed, finish, cell_or, or_none, has_norm,
  find_prefix_by_normalized, parse_bool_cell, resolve_aggregate_id_from_row,
}
use net_soc_ops.Ipam.Validators.{
  Problem, empty_prefix, bad_status, vlan_not_int, duplicate_in_file, validate_cidr_format,
  check_prefix_in_aggregate,
}

abbrev pub allowed_prefix_status : List String
allowed_prefix_status = "active" ∷ "reserved" ∷ "deprecated" ∷ "container" ∷ []

-- `vlan_id`, `None` for a blank cell.
unfoldable pub parse_vlan : NetText → String → Result Problem (Option ℤ)
unfolding strip
parse_vlan t cell =
    if str_eq (strip cell) ""
    then ok none
    else elim (t.int_of (strip cell)) [ none ↦ err vlan_not_int | some v ↦ ok (some v) ]

-- A cell that is not blank replaces the flag.
bool_cell_or : String → Option Bool → Result Problem (Option Bool)
unfolding strip parse_bool_cell
bool_cell_or cell old =
    if str_eq (strip cell) "" then ok old else do b ← parse_bool_cell cell false; ok (some b)

abbrev vlan_or : Option ℤ → Option ℤ → Option ℤ
vlan_or none old = old
vlan_or (some v) old = some v

-- The assignments to `existing`; the flags have been read.
merge_prefix : Row → String → Option ℕ → Option ℤ → Option Bool → Option Bool → Prefix → Prefix
merge_prefix row st_raw agg_id vlan_id is_pool mark_u p = record p {
  status = st_raw;
  description = cell_or (get "描述" row) p.description;
  is_pool = is_pool;
  mark_utilized = mark_u;
  vlan_id = vlan_or vlan_id p.vlan_id;
  location = cell_or (get "位置" row) p.location;
  aggregate_id = agg_id;
}

-- `db.add(IpamPrefix(...))`.
unfoldable pub add_prefix : Row → String → String → Option ℕ → Option ℤ → Bool → Bool → Db → Db
add_prefix row norm st_raw agg_id vlan_id is_pool mark_u db = record db {
  prefixes =
      db.prefixes
      ++ record {
        id = db.next_prefix;
        prefix = norm;
        status = st_raw;
        description = or_none (get "描述" row);
        is_pool = some is_pool;
        mark_utilized = some mark_u;
        vlan_id = vlan_id;
        location = or_none (get "位置" row);
        aggregate_id = agg_id;
      }
        ∷ [];
  next_prefix = suc db.next_prefix;
}

-- The branch on `existing`, once all checks of the row have passed.
unfoldable pub save_checked :
    NetText → Db → Row → String → String → Option ℕ → Option ℤ → Result Problem Saved
unfolding merge_prefix add_prefix bool_cell_or
save_checked t db row norm st_raw agg_id vlan_id = elim (find_prefix_by_normalized t db norm) [
  | some existing ↦ do
    is_pool ← bool_cell_or (get "地址池" row) existing.is_pool
    mark_u ← bool_cell_or (get "标记已用" row) existing.mark_utilized
    ok (
        changed (record db {
          prefixes =
              modify_first (λ p. has_norm t norm p.prefix)
                (merge_prefix row st_raw agg_id vlan_id is_pool mark_u) db.prefixes;
        }))
  | none ↦ do
    is_pool ← parse_bool_cell (get "地址池" row) false
    mark_u ← parse_bool_cell (get "标记已用" row) false
    ok (inserted (add_prefix row norm st_raw agg_id vlan_id is_pool mark_u db))
]

-- The row from the status on, for a prefix that the file has not named before.
unfoldable pub save_prefix : NetText → Db → Row → String → Result Problem Saved
unfolding strip lower parse_vlan
save_prefix t db row norm =
    let st_raw = lower (strip (get "状态" row)) in
    if str_eq st_raw "" || not (elem st_raw allowed_prefix_status) then err bad_status else do
      agg_id ← resolve_aggregate_id_from_row t db row
      check_prefix_in_aggregate t db norm agg_id
      vlan_id ← parse_vlan t (get "VLAN" row)
      save_checked t db row norm st_raw agg_id vlan_id

-- The row once its prefix is normalised.
unfoldable pub take_prefix : NetText → Import → ℕ → Row → String → Import
take_prefix t s row_num row norm =
    if elem norm s.seen_norm
    then fail s row_num (duplicate_in_file norm)
    else finish (record s { seen_norm = norm ∷ s.seen_norm }) row_num (save_prefix t s.db row norm)

unfoldable pub import_prefix_row : NetText → Import → ℕ × Row → Import
unfolding strip
import_prefix_row t s (row_num, row) =
    let raw_p = strip (get "网段" row) in
    if str_eq raw_p "" then fail s row_num empty_prefix else elim (validate_cidr_format t raw_p) [
      | err e ↦ fail s row_num e
      | ok norm ↦ take_prefix t s row_num row norm
    ]

unfoldable pub import_prefix_rows : NetText → Import → List (ℕ × Row) → Import
import_prefix_rows t s [] = s
import_prefix_rows t s (row ∷ rows) = import_prefix_rows t (import_prefix_row t s row) rows

unfoldable pub import_prefixes_csv :
    NetText → (String → Reader) → Db → String → Result FileError Import
import_prefixes_csv t csv_reader db content = do
  rows ← validate_and_read_rows csv_reader content prefix_csv_headers
  ok (import_prefix_rows t (start db) rows)
