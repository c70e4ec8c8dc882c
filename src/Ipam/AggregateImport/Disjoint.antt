-- ===== src/Ipam/AggregateImport/Disjoint.antt =====
-- The import keeps the aggregates pairwise disjoint.
use mathlib.Core.List.{map-append}
use net_soc_ops.Prelude.{
  ℕ, String, ◌≡◌, refl, inl, inr, false, Option, none, List, [], ◌∷◌, Bool-cases, Option-cases,
  elem, strip, str_eq,
}
use net_soc_ops.Prelude.Results.{Result, ok, err, ◌>>=◌, >>=-eq-ok, Result-cases}
use net_soc_ops.Ipam.Store.{NetText, Aggregate, Db, Date}
use net_soc_ops.Ipam.CsvRows.{Row, Reader, get, aggregate_csv_headers, validate_and_read_rows}
use net_soc_ops.Ipam.CsvImport.{
  Import, start, Saved, inserted, changed, finish, parse_date_optional,
  find_aggregate_by_normalized,
}
use net_soc_ops.Ipam.Validators.{Problem, validate_cidr_format, ipam_aggregate_overlaps_existing}
use net_soc_ops.Ipam.Validators.Overlap.{
  AreDisjoint, AreDisjoint-append, not_overlaps-Disjoint, prefixes_of, prefixes_of-update,
}
use net_soc_ops.Ipam.AggregateImport.{
  merge_aggregate, add_aggregate, save_dated, save_aggregate, take_aggregate, import_aggregate_row,
  import_aggregate_rows, import_aggregates_csv,
}

module _ (t : NetText) (nil : t.parse "" ≡ none) where
  abbrev pub IsDisjointDb : Db → Type 0
  IsDisjointDb db = AreDisjoint t (prefixes_of db.aggregates)

  abbrev Keeps : Result Problem Saved → Type 0
  Keeps (ok (inserted db)) = IsDisjointDb db
  Keeps (ok (changed db)) = IsDisjointDb db
  Keeps (err e) = Unit

  prefix-merge :
      (row : Row) (d : Option Date) (a : Aggregate) → (merge_aggregate row d a).prefix ≡ a.prefix
  unfolding merge_aggregate
  prefix-merge row d a = refl

  add_aggregate-Disjoint :
      (db : Db) (norm : String) (rir : Option String) (d : Option Date) (desc : Option String)
      → IsDisjointDb db
      → ipam_aggregate_overlaps_existing t db norm none ≡ false
      → IsDisjointDb (add_aggregate norm rir d desc db)
  unfolding add_aggregate
  add_aggregate-Disjoint db norm rir d desc h out =
      rw map-append (AreDisjoint-append t _ norm h (not_overlaps-Disjoint t db norm nil out))

  save_dated-Keeps :
      (db : Db) (row : Row) (norm : String) (d : Option Date)
      → IsDisjointDb db
      → Keeps (save_dated t db row norm d)
  unfolding save_dated
  save_dated-Keeps db row norm d h = elim (Option-cases (find_aggregate_by_normalized t db norm)) [
    | inr (existing, found) ↦
        rw (found, save_dated)
          (rw (prefixes_of-update _ (merge_aggregate row d) db.aggregates (prefix-merge row d)) h)
    | inl absent ↦
        rw (absent, save_dated)
          (elim (Bool-cases (ipam_aggregate_overlaps_existing t db norm none)) [
            | inl out ↦ rw out tt
            | inr free ↦ rw free (add_aggregate-Disjoint db norm _ d _ h free)
          ])
  ]

  Keeps-bind {κ} :
      {A : Type κ} (m : Result Problem A) (f : A → Result Problem Saved)
      → ((a : A) → Keeps (f a))
      → Keeps (m >>= f)
  Keeps-bind (ok a) f h = h a
  Keeps-bind (err e) f h = tt

  finish-Disjoint :
      (s : Import) (row_num : ℕ) (r : Result Problem Saved)
      → IsDisjointDb s.db
      → Keeps r
      → IsDisjointDb (finish s row_num r).db
  finish-Disjoint s row_num (ok (inserted db)) h k = k
  finish-Disjoint s row_num (ok (changed db)) h k = k
  finish-Disjoint s row_num (err e) h k = h

  take_aggregate-Disjoint :
      (s : Import) (row_num : ℕ) (row : Row) (norm : String)
      → IsDisjointDb s.db
      → IsDisjointDb (take_aggregate t s row_num row norm).db
  unfolding take_aggregate save_aggregate
  take_aggregate-Disjoint s row_num row norm h = elim (Bool-cases (elem norm s.seen_norm)) [
    | inl seen ↦ rw seen h
    | inr fresh ↦ rw fresh (
        finish-Disjoint _ row_num _ h (
          Keeps-bind (parse_date_optional t (get "分配日期" row)) (save_dated t s.db row norm)
            λ d. save_dated-Keeps s.db row norm d h))
  ]

  import_aggregate_row-Disjoint :
      (s : Import) (row : ℕ × Row)
      → IsDisjointDb s.db
      → IsDisjointDb (import_aggregate_row t s row).db
  unfolding import_aggregate_row
  import_aggregate_row-Disjoint s (row_num, row) h =
      let raw_p = strip (get "网段" row) in
      elim (Bool-cases (str_eq raw_p "")) [
        | inl empty ↦ rw empty h
        | inr full ↦ rw full (elim (Result-cases (validate_cidr_format t raw_p)) [
          | inl (e, bad) ↦ rw bad h
          | inr (norm, good) ↦ rw good (take_aggregate-Disjoint s row_num row norm h)
        ])
      ]

  import_aggregate_rows-Disjoint :
      (s : Import) (rows : List (ℕ × Row))
      → IsDisjointDb s.db
      → IsDisjointDb (import_aggregate_rows t s rows).db
  unfolding import_aggregate_rows
  import_aggregate_rows-Disjoint s [] h = h
  import_aggregate_rows-Disjoint s (row ∷ rows) h =
      import_aggregate_rows-Disjoint (import_aggregate_row t s row) rows
        (import_aggregate_row-Disjoint s row h)

  -- From pairwise disjoint aggregates an import of any file that is not refused, with rows
  -- valid or not, leads to pairwise disjoint aggregates. The empty text must be no network.
  pub import_aggregates_csv-Disjoint :
      (csv_reader : String → Reader) (db : Db) (content : String) (s : Import)
      → IsDisjointDb db
      → import_aggregates_csv t csv_reader db content ≡ ok s
      → IsDisjointDb s.db
  unfolding import_aggregates_csv
  import_aggregates_csv-Disjoint csv_reader db content s h e =
      let (rows, read, done) =
        >>=-eq-ok (validate_and_read_rows csv_reader content aggregate_csv_headers)
          (λ rows. ok (import_aggregate_rows t (start db) rows)) e in
      let same : import_aggregate_rows t (start db) rows ≡ s = cc done in
      rw same at (import_aggregate_rows-Disjoint (start db) rows h)
