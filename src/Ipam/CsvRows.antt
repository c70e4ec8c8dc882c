-- ===== src/Ipam/CsvRows.antt =====
-- netops-backend/services/ipam_csv_import.py: the header check and the rows of a file. The reader
-- is `csv.DictReader`, taken by what it yields.
use Prim.Native.Char.{code}
use net_soc_ops.Prelude.{
  ℕ, suc, String, Bool, true, false, ◌&&◌, not, Option, none, some, List, [], ◌∷◌, map, strip,
  str_eq, ◌==◌, if◌then◌else◌,
}
use net_soc_ops.Prelude.Results.{Result, ok, err}

-- A cell of a row: a text, `None` in a short row, or the list of what a long row has too much, by
-- its `str`.
pub data Cell : Type 0 where
  text : String → Cell
  missing : Cell
  surplus : String → Cell

-- `reader.fieldnames`, `None` for a header cell that is missing, and the rows under their keys.
pub record Reader : Type 0 where
  pub fieldnames : List (Option String)
  pub rows : List (List (Option String × Cell))

pub data FileError : Type 0 where
  empty_content no_header wrong_header : FileError

abbrev pub Row : Type 0
Row = List (String × String)

abbrev pub aggregate_csv_headers : List String
aggregate_csv_headers = "网段" ∷ "分配机构" ∷ "分配日期" ∷ "描述" ∷ []

abbrev pub prefix_csv_headers : List String
prefix_csv_headers = "网段" ∷ "状态" ∷ "描述" ∷ "地址池" ∷ "标记已用" ∷ "VLAN" ∷ "位置" ∷ "所属聚合网段" ∷ "聚合ID" ∷ []

-- `str.lstrip` of byte order marks.
unfoldable pub strip_bom : String → String
strip_bom String.[] = String.[]
strip_bom (String.◌∷◌ c s) =
    let rest = strip_bom s in if code c == 0xfeff then rest else String.◌∷◌ c s

-- `k or ""`, stripped.
abbrev key_text : Option String → String
key_text none = ""
key_text (some k) = strip k

abbrev cell_text : Cell → String
cell_text (text s) = strip s
cell_text missing = ""
cell_text (surplus shown) = shown

-- `d[k] = v`.
unfoldable pub put : String → String → Row → Row
put k v [] = (k, v) ∷ []
put k v ((j, w) ∷ row) = if str_eq j k then (k, v) ∷ row else (j, w) ∷ put k v row

-- `(row.get(k) or "")`.
unfoldable pub get : String → Row → String
get k [] = ""
get k ((j, v) ∷ row) = if str_eq j k then v else get k row

unfoldable pub clean : Row → List (Option String × Cell) → Row
unfolding put
clean row [] = row
clean row ((k, v) ∷ cells) = clean (put (key_text k) (cell_text v) row) cells

unfoldable pub all_blank : Row → Bool
all_blank [] = true
all_blank ((k, v) ∷ row) = str_eq (strip v) "" && all_blank row

-- The loop over the rows, numbered from 2 on; blank rows are left out and keep their number.
unfoldable pub number_rows : ℕ → List (List (Option String × Cell)) → List (ℕ × Row)
unfolding clean all_blank
number_rows idx [] = []
number_rows idx ([] ∷ rows) = number_rows (suc idx) rows
number_rows idx ((c ∷ cells) ∷ rows) =
    let rest = number_rows (suc idx) rows in
    let cleaned = clean [] (c ∷ cells) in if all_blank cleaned then rest else (idx, cleaned) ∷ rest

abbrev same_texts : List String → List String → Bool
same_texts [] [] = true
same_texts (a ∷ as') (b ∷ bs) = str_eq a b && same_texts as' bs
same_texts _ _ = false

abbrev is_empty {ℓ} : {A : Type ℓ} → List A → Bool
is_empty [] = true
is_empty (x ∷ xs) = false

unfoldable pub validate_and_read_rows :
    (String → Reader) → String → List String → Result FileError (List (ℕ × Row))
unfolding number_rows strip_bom strip
validate_and_read_rows csv_reader content expected_headers =
    let raw = strip_bom content in
    let reader = csv_reader raw in
    if str_eq (strip raw) ""
    then err empty_content
    else if is_empty reader.fieldnames
    then err no_header
    else if not (same_texts (map key_text reader.fieldnames) expected_headers)
    then err wrong_header
    else ok (number_rows 2 reader.rows)
