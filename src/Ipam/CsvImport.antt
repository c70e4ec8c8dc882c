-- ===== src/Ipam/CsvImport.antt =====
-- netops-backend/services/ipam_csv_import.py: the two imports, a row at a time. `t` is the
-- library's reading of texts. A row that raises leaves the tables as they were.
use net_soc_ops.Prelude.{
  ℕ, suc, String, Bool, true, false, Option, none, some, List, [], ◌∷◌, ◌++◌, strip, lower, elem,
  find, str_eq, if◌then◌else◌,
}
use net_soc_ops.Prelude.Int.{is_key}
use net_soc_ops.Prelude.Results.{Result, ok, err, ◌>>=◌}
use net_soc_ops.Ipam.Store.{Aggregate, Prefix, Db, Date, NetText}
use net_soc_ops.Ipam.CsvRows.{Row, get}
use net_soc_ops.Ipam.Validators.{
  Problem, bad_date, bad_bool, aggregate_id_not_int, aggregate_not_found, aggregate_id_missing,
  validate_cidr_format,
}

-- `s or None` of a stripped cell.
abbrev pub or_none : String → Option String
or_none s = if str_eq (strip s) "" then none else some (strip s)

-- The first ten characters.
abbrev date_part : ℕ → String → String
date_part n String.[] = String.[]
date_part ℕ.zero (String.◌∷◌ c s) = String.[]
date_part (suc n) (String.◌∷◌ c s) = String.◌∷◌ c (date_part n s)

unfoldable pub parse_date_optional : NetText → String → Result Problem (Option Date)
unfolding strip
parse_date_optional t s =
    if str_eq (strip s) ""
    then ok none
    else elim (t.strptime (date_part 10 (strip s))) [ none ↦ err bad_date | some d ↦ ok (some d) ]

-- `validate_cidr_format(prefix) == norm`, with `ValueError` and an empty prefix passed over.
abbrev pub has_norm : NetText → String → String → Bool
has_norm t norm prefix =
    if str_eq prefix ""
    then false
    else elim (validate_cidr_format t prefix) [ ok s ↦ str_eq s norm | err e ↦ false ]

abbrev pub find_aggregate_by_normalized : NetText → Db → String → Option Aggregate
find_aggregate_by_normalized t db norm = find (λ a. has_norm t norm a.prefix) db.aggregates

abbrev pub find_prefix_by_normalized : NetText → Db → String → Option Prefix
find_prefix_by_normalized t db norm = find (λ p. has_norm t norm p.prefix) db.prefixes

unfoldable pub parse_bool_cell : String → Bool → Result Problem Bool
unfolding strip lower
parse_bool_cell val required =
    let s = lower (strip val) in
    if str_eq s ""
    then (if required then err bad_bool else ok false)
    else if elem s ("1" ∷ "true" ∷ "yes" ∷ "是" ∷ "y" ∷ [])
    then ok true
    else if elem s ("0" ∷ "false" ∷ "no" ∷ "否" ∷ "n" ∷ [])
    then ok false
    else err bad_bool

unfoldable pub resolve_aggregate_id_from_row : NetText → Db → Row → Result Problem (Option ℕ)
unfolding strip get validate_cidr_format
resolve_aggregate_id_from_row t db row =
    let id_cell = strip (get "聚合ID" row) in
    let pfx_cell = strip (get "所属聚合网段" row) in
    if str_eq id_cell ""
    then (if str_eq pfx_cell "" then ok none else do
      norm ← validate_cidr_format t pfx_cell
      elim (find_aggregate_by_normalized t db norm) [
        | none ↦ err (aggregate_not_found norm)
        | some a ↦ ok (some a.id)
      ])
    else elim (t.int_of id_cell) [
      | none ↦ err aggregate_id_not_int
      | some aid ↦ elim (find (λ (a : Aggregate). is_key aid a.id) db.aggregates) [
        | none ↦ err (aggregate_id_missing aid)
        | some a ↦ ok (some a.id)
      ]
    ]

-- The variables of an import: the tables, the counters, the messages and `seen_norm`.
pub record Import : Type 0 where
  pub db : Db
  pub imported : ℕ
  pub updated : ℕ
  pub failed : ℕ
  pub errors : List (ℕ × Problem)
  pub seen_norm : List String

abbrev pub start : Db → Import
start db = record { db = db; imported = 0; updated = 0; failed = 0; errors = []; seen_norm = [] }

abbrev pub fail : Import → ℕ → Problem → Import
fail s row_num e = record s { failed = suc s.failed; errors = s.errors ++ (row_num, e) ∷ [] }

pub data Saved : Type 0 where
  inserted changed : Db → Saved

abbrev pub finish : Import → ℕ → Result Problem Saved → Import
finish s row_num (ok (inserted db)) = record s { db = db; imported = suc s.imported }
finish s row_num (ok (changed db)) = record s { db = db; updated = suc s.updated }
finish s row_num (err e) = fail s row_num e

-- A cell that is not blank replaces the field.
abbrev pub cell_or : String → Option String → Option String
cell_or cell old = if str_eq (strip cell) "" then old else some (strip cell)
