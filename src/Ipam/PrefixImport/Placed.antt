-- ===== src/Ipam/PrefixImport/Placed.antt =====
-- The import keeps each prefix inside the aggregate that it names, with a status that is allowed.
use net_soc_ops.Prelude.{
  ℕ, String, ◌≡◌, refl, inl, inr, Bool, true, false, not, ◌||◌, Option, List, [], ◌∷◌, All,
  All-append, All-modify_first, modify_first, Bool-cases, Option-cases, arith, elem, strip, lower,
  str_eq,
}
use net_soc_ops.Prelude.Int.{ℤ}
use net_soc_ops.Prelude.Results.{Result, ok, err, ◌>>=◌, >>=-eq-ok, Result-cases}
use net_soc_ops.Ipam.Store.{NetText, Db}
use net_soc_ops.Ipam.CsvRows.{Row, Reader, get, prefix_csv_headers, validate_and_read_rows}
use net_soc_ops.Ipam.CsvImport.{
  Import, start, Saved, inserted, changed, finish, has_norm, find_prefix_by_normalized,
  parse_bool_cell, resolve_aggregate_id_from_row,
}
use net_soc_ops.Ipam.Validators.{Problem, validate_cidr_format, check_prefix_in_aggregate}
use net_soc_ops.Ipam.PrefixImport.Place.{
  LiesInOption, IsPlaced, ArePlaced, LiesInOption-transfer, IsPlaced-transfer,
  has_norm-LiesInOption, check-LiesInOption,
}
use net_soc_ops.Ipam.PrefixImport.{
  allowed_prefix_status, merge_prefix, add_prefix, save_checked, save_prefix, take_prefix,
  import_prefix_row, import_prefix_rows, import_prefixes_csv, parse_vlan, bool_cell_or,
}

module _ (t : NetText) where
  Keeps : Result Problem Saved → Type 0
  Keeps (ok (inserted db)) = ArePlaced t db
  Keeps (ok (changed db)) = ArePlaced t db
  Keeps (err e) = Unit

  Keeps-bind {κ} :
      {A : Type κ} (m : Result Problem A) (f : A → Result Problem Saved)
      → ((a : A) → m ≡ ok a → Keeps (f a))
      → Keeps (m >>= f)
  unfolding Keeps
  Keeps-bind (ok a) f h = h a refl
  Keeps-bind (err e) f h = tt

  Keeps-changed : (db : Db) → ArePlaced t db → Keeps (ok (changed db))
  unfolding Keeps
  Keeps-changed db h = h

  Keeps-inserted : (db : Db) → ArePlaced t db → Keeps (ok (inserted db))
  unfolding Keeps
  Keeps-inserted db h = h

  module _ (db : Db) (row : Row) (norm st_raw : String) (agg_id : Option ℕ) (vlan_id : Option ℤ)
      (allowed : elem st_raw allowed_prefix_status ≡ true) (checked : LiesInOption t db norm agg_id)
      (h : ArePlaced t db) where
    merged-ArePlaced :
        (is_pool mark_u : Option Bool)
        → All (IsPlaced t db) (
            modify_first
              (λ p. has_norm t norm p.prefix)
              (merge_prefix row st_raw agg_id vlan_id is_pool mark_u)
              db.prefixes)
    unfolding merge_prefix
    merged-ArePlaced is_pool mark_u =
        All-modify_first (IsPlaced t db) _ _ db.prefixes
          (λ p e k. record {
            status = allowed;
            place = has_norm-LiesInOption t db norm p.prefix agg_id e checked;
          })
          h

    added-ArePlaced :
        (is_pool mark_u : Bool)
        → ArePlaced t (add_prefix row norm st_raw agg_id vlan_id is_pool mark_u db)
    unfolding add_prefix
    added-ArePlaced is_pool mark_u =
        All-append _ db.prefixes _ (IsPlaced-transfer t db _ refl db.prefixes h) (
          record {
            status = allowed;
            place = LiesInOption-transfer t db _ norm agg_id refl checked;
          },
          tt,
        )

    save_checked-Keeps : Keeps (save_checked t db row norm st_raw agg_id vlan_id)
    unfolding save_checked
    save_checked-Keeps = elim (Option-cases (find_prefix_by_normalized t db norm)) [
      | inr (existing, found) ↦
          rw (found, save_checked)
            (Keeps-bind (bool_cell_or (get "地址池" row) existing.is_pool) _ λ is_pool _.
              Keeps-bind (bool_cell_or (get "标记已用" row) existing.mark_utilized) _ λ mark_u _.
                Keeps-changed _ (IsPlaced-transfer t db _ refl _ (merged-ArePlaced is_pool mark_u)))
      | inl absent ↦
          rw (absent, save_checked)
            (Keeps-bind (parse_bool_cell (get "地址池" row) false) _ λ is_pool _.
              Keeps-bind (parse_bool_cell (get "标记已用" row) false) _
                λ mark_u _. Keeps-inserted _ (added-ArePlaced is_pool mark_u))
    ]

  allowed_of_test :
      (s : String)
      → (str_eq s "" || not (elem s allowed_prefix_status)) ≡ false
      → elem s allowed_prefix_status ≡ true
  allowed_of_test s h = ground arith

  save_prefix-Keeps :
      (db : Db) (row : Row) (norm : String) → ArePlaced t db → Keeps (save_prefix t db row norm)
  unfolding save_prefix
  save_prefix-Keeps db row norm h =
      let st_raw = lower (strip (get "状态" row)) in
      elim (Bool-cases (str_eq st_raw "" || not (elem st_raw allowed_prefix_status))) [
        | inl bad ↦ rw bad (unfold Keeps in tt)
        | inr good ↦ rw good (
            Keeps-bind (resolve_aggregate_id_from_row t db row) _ λ agg_id _.
              Keeps-bind (check_prefix_in_aggregate t db norm agg_id) _ λ u checked.
                Keeps-bind (parse_vlan t (get "VLAN" row)) _ λ vlan_id _.
                  save_checked-Keeps db row norm st_raw agg_id vlan_id (allowed_of_test st_raw good)
                    (check-LiesInOption t db norm agg_id checked) h)
      ]

  finish-ArePlaced :
      (s : Import) (row_num : ℕ) (r : Result Problem Saved)
      → ArePlaced t s.db
      → Keeps r
      → ArePlaced t (finish s row_num r).db
  unfolding Keeps
  finish-ArePlaced s row_num (ok (inserted db)) h k = k
  finish-ArePlaced s row_num (ok (changed db)) h k = k
  finish-ArePlaced s row_num (err e) h k = h

  import_prefix_row-ArePlaced :
      (s : Import) (row : ℕ × Row) → ArePlaced t s.db → ArePlaced t (import_prefix_row t s row).db
  unfolding import_prefix_row take_prefix
  import_prefix_row-ArePlaced s (row_num, row) h =
      let raw_p = strip (get "网段" row) in
      elim (Bool-cases (str_eq raw_p "")) [
        | inl empty ↦ rw empty h
        | inr full ↦ rw full (elim (Result-cases (validate_cidr_format t raw_p)) [
          | inl (e, bad) ↦ rw bad h
          | inr (norm, good) ↦ rw good (elim (Bool-cases (elem norm s.seen_norm)) [
            | inl seen ↦ rw seen h
            | inr fresh ↦
                rw fresh (finish-ArePlaced _ row_num _ h (save_prefix-Keeps s.db row norm h))
          ])
        ])
      ]

  import_prefix_rows-ArePlaced :
      (s : Import) (rows : List (ℕ × Row))
      → ArePlaced t s.db
      → ArePlaced t (import_prefix_rows t s rows).db
  unfolding import_prefix_rows
  import_prefix_rows-ArePlaced s [] h = h
  import_prefix_rows-ArePlaced s (row ∷ rows) h =
      import_prefix_rows-ArePlaced (import_prefix_row t s row) rows
        (import_prefix_row-ArePlaced s row h)

  -- If each prefix of the table has an allowed status and lies in the aggregate that it names, an
  -- import of any file that is not refused keeps it so.
  pub import_prefixes_csv-ArePlaced :
      (csv_reader : String → Reader) (db : Db) (content : String) (s : Import)
      → ArePlaced t db
      → import_prefixes_csv t csv_reader db content ≡ ok s
      → ArePlaced t s.db
  unfolding import_prefixes_csv
  import_prefixes_csv-ArePlaced csv_reader db content s h e =
      let (rows, read, done) =
        >>=-eq-ok (validate_and_read_rows csv_reader content prefix_csv_headers)
          (λ rows. ok (import_prefix_rows t (start db) rows)) e in
      let same : import_prefix_rows t (start db) rows ≡ s = cc done in
      rw same at (import_prefix_rows-ArePlaced (start db) rows h)
