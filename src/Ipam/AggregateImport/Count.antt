-- ===== src/Ipam/AggregateImport/Count.antt =====
-- What the counters of the import count.
use net_soc_ops.Prelude.{
  ℕ, ◌+◌, String, ◌≡◌, refl, inl, inr, none, List, [], ◌∷◌, length, length-append, Bool, Option,
  Bool-cases, Option-cases, arith, elem, update, strip, str_eq,
}
use net_soc_ops.Prelude.Results.{Result, ok, err, ◌>>=◌, >>=-eq-ok, Result-cases}
use net_soc_ops.Ipam.Store.{NetText, Aggregate, Db, Date}
use net_soc_ops.Ipam.CsvRows.{Row, Reader, get, aggregate_csv_headers, validate_and_read_rows}
use net_soc_ops.Ipam.CsvImport.{
  Import, start, fail, Saved, inserted, changed, finish, parse_date_optional,
  find_aggregate_by_normalized,
}
use net_soc_ops.Ipam.Validators.{Problem, validate_cidr_format, ipam_aggregate_overlaps_existing}
use net_soc_ops.Ipam.AggregateImport.{
  add_aggregate, merge_aggregate, save_dated, save_aggregate, take_aggregate, import_aggregate_row,
  import_aggregate_rows, import_aggregates_csv,
}

length-update :
    (p : Aggregate → Bool) (f : Aggregate → Aggregate) (xs : List Aggregate)
    → length (update p f xs) ≡ length xs
length-update p f [] = refl
length-update p f (x ∷ xs) = omega (arith, length-update p f xs)

-- Between `s` and `s'` lie `n` rows: each is counted once, each failure has a message, and each
-- insertion a new aggregate.
pub record Counts (s s' : Import) (n : ℕ) : Type 0 where
  pub rows : s'.imported + s'.updated + s'.failed ≡ s.imported + s.updated + s.failed + n
  pub messages : length s'.errors + s.failed ≡ s'.failed + length s.errors
  pub tables : length s'.db.aggregates + s.imported ≡ s'.imported + length s.db.aggregates

abbrev Grows : Db → Result Problem Saved → Type 0
Grows db (ok (inserted db')) = length db'.aggregates ≡ length db.aggregates + 1
Grows db (ok (changed db')) = length db'.aggregates ≡ length db.aggregates
Grows db (err e) = Unit

module _ (t : NetText) where
  fail-Counts : (s : Import) (row_num : ℕ) (e : Problem) → Counts s (fail s row_num e) 1
  fail-Counts s row_num e =
      let more = length-append s.errors ((row_num, e) ∷ []) in
      record { rows = omega arith; messages = omega arith; tables = omega arith }

  finish-Counts :
      (s : Import) (row_num : ℕ) (r : Result Problem Saved)
      → Grows s.db r
      → Counts s (finish s row_num r) 1
  finish-Counts s row_num (ok (inserted db)) g = record {
    rows = omega arith;
    messages = omega arith;
    tables = omega arith;
  }
  finish-Counts s row_num (ok (changed db)) g = record {
    rows = omega arith;
    messages = omega arith;
    tables = omega arith;
  }
  finish-Counts s row_num (err e) g = fail-Counts s row_num e

  add_aggregate-length :
      (db : Db) (norm : String) (rir : Option String) (d : Option Date) (desc : Option String)
      → length (add_aggregate norm rir d desc db).aggregates ≡ length db.aggregates + 1
  unfolding add_aggregate
  add_aggregate-length db norm rir d desc = length-append db.aggregates _

  save_dated-Grows :
      (db : Db) (row : Row) (norm : String) (d : Option Date)
      → Grows db (save_dated t db row norm d)
  unfolding save_dated
  save_dated-Grows db row norm d = elim (Option-cases (find_aggregate_by_normalized t db norm)) [
    | inr (existing, found) ↦
        rw (found, save_dated) (length-update _ (merge_aggregate row d) db.aggregates)
    | inl absent ↦
        rw (absent, save_dated)
          (elim (Bool-cases (ipam_aggregate_overlaps_existing t db norm none)) [
            | inl out ↦ rw out tt
            | inr free ↦ rw free (add_aggregate-length db norm _ d _)
          ])
  ]

  save_aggregate-Grows :
      (db : Db) (row : Row) (norm : String) (m : Result Problem (Option Date))
      → Grows db (m >>= save_dated t db row norm)
  save_aggregate-Grows db row norm (ok d) = save_dated-Grows db row norm d
  save_aggregate-Grows db row norm (err e) = tt

  take_aggregate-Counts :
      (s : Import) (row_num : ℕ) (row : Row) (norm : String)
      → Counts s (take_aggregate t s row_num row norm) 1
  unfolding take_aggregate save_aggregate
  take_aggregate-Counts s row_num row norm = elim (Bool-cases (elem norm s.seen_norm)) [
    | inl seen ↦ rw seen (fail-Counts s row_num _)
    | inr fresh ↦ rw fresh (
        let marked : Import = record s { seen_norm = norm ∷ s.seen_norm } in
        let c =
          finish-Counts marked row_num _
            (save_aggregate-Grows s.db row norm (parse_date_optional t (get "分配日期" row))) in
        record { rows = c.rows; messages = c.messages; tables = c.tables })
  ]

  import_aggregate_row-Counts :
      (s : Import) (row : ℕ × Row) → Counts s (import_aggregate_row t s row) 1
  unfolding import_aggregate_row
  import_aggregate_row-Counts s (row_num, row) =
      let raw_p = strip (get "网段" row) in
      elim (Bool-cases (str_eq raw_p "")) [
        | inl empty ↦ rw empty (fail-Counts s row_num _)
        | inr full ↦ rw full (elim (Result-cases (validate_cidr_format t raw_p)) [
          | inl (e, bad) ↦ rw bad (fail-Counts s row_num e)
          | inr (norm, good) ↦ rw good (take_aggregate-Counts s row_num row norm)
        ])
      ]

  import_aggregate_rows-Counts :
      (s : Import) (rows : List (ℕ × Row)) → Counts s (import_aggregate_rows t s rows) (length rows)
  unfolding import_aggregate_rows
  import_aggregate_rows-Counts s [] = record {
    rows = omega arith;
    messages = omega arith;
    tables = omega arith;
  }
  import_aggregate_rows-Counts s (row ∷ rows) =
      let c = import_aggregate_row-Counts s row in
      let cs = import_aggregate_rows-Counts (import_aggregate_row t s row) rows in
      record { rows = omega arith; messages = omega arith; tables = omega arith }

  -- An import of a file that is not refused counts each of its rows once, as imported, updated or
  -- failed; it has a message for each row that failed, and the table has grown by the rows imported.
  pub import_aggregates_csv-Counts :
      (csv_reader : String → Reader) (db : Db) (content : String) (s : Import)
      → import_aggregates_csv t csv_reader db content ≡ ok s
      → (rows : List (ℕ × Row)) × (validate_and_read_rows csv_reader content aggregate_csv_headers
          ≡ ok rows)
        × (s.imported + s.updated + s.failed ≡ length rows)
        × (length s.errors ≡ s.failed)
        × (length s.db.aggregates ≡ length db.aggregates + s.imported)
  unfolding import_aggregates_csv
  import_aggregates_csv-Counts csv_reader db content s e =
      let (rows, read, done) =
        >>=-eq-ok (validate_and_read_rows csv_reader content aggregate_csv_headers)
          (λ rows. ok (import_aggregate_rows t (start db) rows)) e in
      let same : import_aggregate_rows t (start db) rows ≡ s = cc done in
      let c : Counts (start db) s (length rows) =
        rw same at (import_aggregate_rows-Counts (start db) rows) in
      (rows, read, omega (arith, c.rows), omega (arith, c.messages), omega (arith, c.tables))
