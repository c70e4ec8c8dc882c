-- ===== src/Ipam/Phpipam.antt =====
-- netops-backend/services/phpipam_import.py: the reading of phpIPAM's rows, and their import.
use Prim.Native.String.{◌++◌ as ◌<>◌}
use mathlib.Core.Option
use net_soc_ops.Prelude.{
  String, Bool, false, Option, none, some, List, [], ◌∷◌, strip, lower, elem, str_eq, ◌==◌, is_some,
  if◌then◌else◌,
}
use net_soc_ops.Prelude.Int.{ℤ, pos}
use net_soc_ops.Prelude.Results.{Result, ok, err, ◌>>=◌}
use net_soc_ops.Ipam.Store.{NetText, Db}
use net_soc_ops.Ipam.Json.{
  Json, Members, Printer, null, boolean, integer, text, other, object, get, or_else, str_of, int_of,
  sliced, full_or_none,
}
use net_soc_ops.Ipam.Merge.{
  Raised, unsupported, IncomingAggregate, IncomingPrefix, Counts, import_rows,
}

unfoldable pub is_truthy_folder : Json → Bool
unfolding strip lower
is_truthy_folder (boolean b) = b
is_truthy_folder (integer (pos n)) = n == 1
is_truthy_folder (other o) = o.is_one
is_truthy_folder (text s) = elem (lower (strip s)) ("1" ∷ "true" ∷ "yes" ∷ [])
is_truthy_folder _ = false

-- The text of a subnet and a mask that is read.
abbrev cidr_of : NetText → Printer → Json → ℤ → Option String
cidr_of t py subnet mask_int =
    let s = strip (str_of py subnet) in
    if str_eq s "" then none else Option.map t.print (t.parse (s <> ("/" <> py.decimal mask_int)))

abbrev with_mask : NetText → Printer → Json → Option ℤ → Option String
with_mask t py subnet none = none
with_mask t py subnet (some mask_int) = cidr_of t py subnet mask_int

unfoldable pub row_to_cidr : NetText → Printer → Members → Option String
unfolding strip get str_of int_of
row_to_cidr t py row = elim (get "subnet" row) [
  | null ↦ none
  | subnet ↦ with_mask t py subnet (int_of t (get "mask" row))
]

-- `(v or "").strip()[:256]` of the name; `strip` of what is no text raises.
abbrev pub strip_text : Json → Result Raised String
strip_text (text s) = ok (strip s)
strip_text _ = err unsupported

unfoldable pub phpipam_location_to_str : Printer → Json → Result Raised (Option String)
unfolding strip get or_else str_of sliced
phpipam_location_to_str py null = ok none
phpipam_location_to_str py (text s) = ok (full_or_none (sliced 256 (strip s)))
phpipam_location_to_str py (object loc) = do
  s ←
      strip_text (
        or_else (or_else (or_else (get "name" loc) (get "display" loc)) (get "title" loc))
          (text ""))
  ok (full_or_none (sliced 256 s))
phpipam_location_to_str py v = ok (full_or_none (sliced 256 (strip (str_of py v))))

abbrev first_name : Json → Json
first_name (object raw) = or_else (or_else (get "name" raw) (get "value" raw)) (get "label" raw)
first_name raw = raw

-- The text of a status that is given, `""` if none is.
abbrev status_text : Printer → Json → String
status_text py null = ""
status_text py raw = strip (str_of py raw)

unfoldable pub phpipam_status_to_str : Printer → Members → String
unfolding strip get or_else str_of sliced is_truthy_folder
phpipam_status_to_str py row =
    let raw = status_text py (first_name (or_else (get "status" row) (get "state" row))) in
    if str_eq raw ""
    then (if is_truthy_folder (get "disableScan" row) then "deprecated" else "active")
    else sliced 32 raw

abbrev description_of : Printer → Json → Option String
description_of py null = none
description_of py d = full_or_none (strip (str_of py d))

unfoldable pub phpipam_description : Printer → Members → Option String
unfolding strip get str_of
phpipam_description py row = description_of py (get "description" row)

abbrev vlan_number : Json → Json
vlan_number (object vid) = or_else (or_else (get "vlanId" vid) (get "id" vid)) (get "number" vid)
vlan_number vid = vid

unfoldable pub phpipam_vlan_id : NetText → Members → Option ℤ
unfolding get or_else int_of
phpipam_vlan_id t row =
    int_of t
      (vlan_number (or_else (or_else (get "vlanId" row) (get "vlan_id" row)) (get "vlan" row)))

-- `loc or other`, where the second is read only if the first is `None`.
abbrev location_or : Printer → Json → Option String → Result Raised (Option String)
location_or py second none = phpipam_location_to_str py second
location_or py second (some s) = ok (some s)

-- A folder: what is stored of it.
unfoldable pub read_folder : NetText → Printer → Members → Result Raised (Option IncomingAggregate)
unfolding row_to_cidr phpipam_description
read_folder t py row = elim (row_to_cidr t py row) [
  | none ↦ ok none
  | some p ↦
      if is_some (t.parse p)
      then ok (
          some record {
            prefix = p;
            rir = none;
            date_added = none;
            description = phpipam_description py row;
          })
      else ok none
]

-- A row that is no folder.
unfoldable pub read_leaf : NetText → Printer → Members → Result Raised (Option IncomingPrefix)
unfolding row_to_cidr phpipam_description phpipam_status_to_str phpipam_vlan_id
    phpipam_location_to_str get
read_leaf t py row = elim (row_to_cidr t py row) [
  | none ↦ ok none
  | some p ↦
      if is_some (t.parse p)
      then (do
        first ← phpipam_location_to_str py (get "location" row)
        location ← location_or py (get "location_name" row) first
        ok (
            some record {
              prefix = p;
              status = phpipam_status_to_str py row;
              description = phpipam_description py row;
              is_pool = none;
              mark_utilized = none;
              vlan_id = phpipam_vlan_id t row;
              location = location;
            }))
      else ok none
]

-- The rows with a network, in two lists.
unfoldable pub split_rows : NetText → Printer → List Json → List Members × List Members
unfolding row_to_cidr is_truthy_folder get
split_rows t py [] = ([], [])
split_rows t py (object row ∷ items) =
    let (folder_rows, leaf_rows) = split_rows t py items in
    elim (row_to_cidr t py row) [
      | none ↦ (folder_rows, leaf_rows)
      | some cidr ↦
          if is_truthy_folder (get "isFolder" row)
          then (row ∷ folder_rows, leaf_rows)
          else (folder_rows, row ∷ leaf_rows)
    ]
split_rows t py (item ∷ items) = split_rows t py items

unfoldable pub apply_phpipam_subnets_to_db :
    NetText → Printer → List Json → Db → Result Raised Counts × Db
unfolding split_rows read_folder read_leaf
apply_phpipam_subnets_to_db t py raw_items db =
    let (folder_rows, leaf_rows) = split_rows t py raw_items in
    import_rows t (read_folder t py) (read_leaf t py) folder_rows leaf_rows db

-- The replies of the endpoint: status 400, 502 and 500.
pub data PhpipamFailure : Type 0 where
  no_base_url no_credential fetch_failed write_failed : PhpipamFailure

abbrev pub phpipam_reply : Result Raised Counts × Db → Result PhpipamFailure Counts × Db
phpipam_reply (ok counts, db) = (ok counts, db)
phpipam_reply (err e, db) = (err write_failed, db)

-- `api_secret` is that of the credential that the query finds, and `fetch` what
-- `fetch_phpipam_subnets` returns, `none` if it raises.
unfoldable pub phpipam_import :
    NetText
    → Printer
    → (String → String → Option (List Json))
    → String
    → Option String
    → Db
    → Result PhpipamFailure Counts × Db
unfolding strip apply_phpipam_subnets_to_db
phpipam_import t py fetch api_base_url api_secret db =
    let api_base = strip api_base_url in
    if str_eq api_base "" then (err no_base_url, db) else elim api_secret [
      | none ↦ (err no_credential, db)
      | some token ↦
          if str_eq token "" then (err no_credential, db) else elim (fetch api_base token) [
            | none ↦ (err fetch_failed, db)
            | some raw_items ↦ phpipam_reply (apply_phpipam_subnets_to_db t py raw_items db)
          ]
    ]
