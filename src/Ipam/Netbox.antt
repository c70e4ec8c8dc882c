-- ===== src/Ipam/Netbox.antt =====
-- The import from NetBox of netops-backend/routes/ipam_router.py: its configuration, the reading of
-- NetBox's rows, and the endpoint.
use net_soc_ops.Prelude.{
  ℕ, String, Bool, Option, none, some, List, strip, str_eq, get_or, is_some, if◌then◌else◌,
}
use net_soc_ops.Prelude.Int.{ℤ}
use net_soc_ops.Prelude.Results.{Result, ok, err, ◌>>=◌}
use net_soc_ops.Ipam.Store.{NetText, Db, Date}
use net_soc_ops.Ipam.Json.{
  Json, Members, Printer, null, text, object, get, truth, or_else, str_of, int_of, sliced,
  full_or_none,
}
use net_soc_ops.Ipam.Phpipam.{strip_text}
use net_soc_ops.Ipam.Merge.{
  Raised, unsupported, IncomingAggregate, IncomingPrefix, Counts, import_rows,
}

pub record NetboxImportConfig : Type 0 where
  pub base_url : String
  pub api_token : Option String
  pub api_credential_id : Option ℕ

-- The reply to the configuration: no token.
unfoldable pub get_netbox_config : Option NetboxImportConfig → String × Option ℕ
get_netbox_config none = ("", none)
get_netbox_config (some row) = (row.base_url, row.api_credential_id)

unfoldable pub save_netbox_config :
    String → Option ℕ → Option NetboxImportConfig → NetboxImportConfig
unfolding strip
save_netbox_config base_url api_credential_id none = record {
  base_url = strip base_url;
  api_token = none;
  api_credential_id = api_credential_id;
}
save_netbox_config base_url api_credential_id (some row) = record row {
  base_url = strip base_url;
  api_credential_id = api_credential_id;
}

unfoldable pub netbox_rir_to_str : Printer → Json → Result Raised (Option String)
unfolding strip get or_else truth str_of sliced
netbox_rir_to_str py null = ok none
netbox_rir_to_str py (text s) = ok (full_or_none (strip s))
netbox_rir_to_str py (object rir) = do
  s ←
      strip_text (
        or_else (or_else (or_else (get "name" rir) (get "display" rir)) (get "slug" rir)) (text ""))
  ok (full_or_none s)
netbox_rir_to_str py rir = ok (if truth rir then some (sliced 128 (str_of py rir)) else none)

unfoldable pub netbox_date_to_date : NetText → Printer → Json → Option Date
unfolding strip truth str_of sliced
netbox_date_to_date t py value =
    let s = strip (str_of py value) in
    if truth value then (if str_eq s "" then none else t.strptime (sliced 10 s)) else none

-- `v[:256].strip()` of a text.
abbrev slice_text : Json → Result Raised String
slice_text (text s) = ok (strip (sliced 256 s))
slice_text _ = err unsupported

unfoldable pub netbox_scope_to_str : Printer → Json → Result Raised (Option String)
unfolding strip get or_else truth str_of sliced
netbox_scope_to_str py null = ok none
netbox_scope_to_str py (text s) = ok (full_or_none (sliced 256 (strip s)))
netbox_scope_to_str py (object scope) = do
  s ←
      slice_text (
        or_else (or_else (get "display" scope) (get "name" scope))
          (text (str_of py (object scope))))
  ok (full_or_none s)
netbox_scope_to_str py scope =
    ok (if truth scope then some (sliced 256 (str_of py scope)) else none)

-- `desc` of an aggregate or a prefix.
unfoldable pub netbox_description : Printer → Json → Result Raised (Option String)
unfolding strip get or_else str_of
netbox_description py null = ok none
netbox_description py (object desc) = do
  s ←
      strip_text
        (or_else (or_else (get "name" desc) (get "display" desc)) (text (str_of py (object desc))))
  ok (full_or_none s)
netbox_description py desc = ok (full_or_none (strip (str_of py desc)))

-- The prefix of a row, `none` where the loop passes the row over.
unfoldable pub netbox_prefix : NetText → Members → Result Raised (Option String)
unfolding strip get or_else
netbox_prefix t row = do
  p ← strip_text (or_else (get "prefix" row) (text ""))
  ok (if str_eq p "" then none else if is_some (t.parse p) then some p else none)

abbrev aggregate_fields :
    NetText → Printer → Members → Option String → Result Raised (Option IncomingAggregate)
aggregate_fields t py row none = ok none
aggregate_fields t py row (some p) = do
  rir ← netbox_rir_to_str py (get "rir" row)
  desc ← netbox_description py (get "description" row)
  ok (
      some record {
        prefix = p;
        rir = rir;
        date_added = netbox_date_to_date t py (get "date_added" row);
        description = desc;
      })

-- One round of the loop over the aggregates; `get` of a row that is no object raises.
unfoldable pub read_netbox_aggregate :
    NetText → Printer → Json → Result Raised (Option IncomingAggregate)
unfolding netbox_prefix netbox_rir_to_str netbox_description netbox_date_to_date get
read_netbox_aggregate t py (object row) = do p ← netbox_prefix t row; aggregate_fields t py row p
read_netbox_aggregate t py _ = err unsupported

abbrev status_value : Json → Json
status_value (object status) =
    or_else (or_else (get "value" status) (get "label" status)) (text "active")
status_value status = or_else status (text "active")

unfoldable pub netbox_status : Printer → Json → String
unfolding get or_else str_of sliced
netbox_status py status = sliced 32 (str_of py (status_value status))

-- `bool(v) if v is not None else None`.
abbrev flag : Json → Option Bool
flag null = none
flag v = some (truth v)

unfoldable pub netbox_vlan : NetText → Json → Option ℤ
unfolding get or_else int_of
netbox_vlan t (object vlan) = int_of t (or_else (get "vid" vlan) (get "id" vlan))
netbox_vlan t _ = none

-- `(item.get("location") or "").strip()[:256] or None`.
abbrev own_location : Members → Result Raised (Option String)
own_location row = do
  s ← strip_text (or_else (get "location" row) (text ""))
  ok (full_or_none (sliced 256 s))

-- The next place to look, if this one gives nothing.
abbrev or_next : Result Raised (Option String) → Option String → Result Raised (Option String)
or_next next none = next
or_next next (some s) = ok (some s)

unfoldable pub netbox_location : Printer → Members → Result Raised (Option String)
unfolding strip get or_else sliced netbox_scope_to_str
netbox_location py row = do
  scope ← netbox_scope_to_str py (get "scope" row)
  site ← or_next (netbox_scope_to_str py (get "site" row)) scope
  or_next (own_location row) site

abbrev prefix_fields :
    NetText → Printer → Members → Option String → Result Raised (Option IncomingPrefix)
prefix_fields t py row none = ok none
prefix_fields t py row (some p) = do
  desc ← netbox_description py (get "description" row)
  location ← netbox_location py row
  ok (
      some record {
        prefix = p;
        status = netbox_status py (get "status" row);
        description = desc;
        is_pool = flag (get "is_pool" row);
        mark_utilized = flag (get "mark_utilized" row);
        vlan_id = netbox_vlan t (get "vlan" row);
        location = location;
      })

unfoldable pub read_netbox_prefix : NetText → Printer → Json → Result Raised (Option IncomingPrefix)
unfolding netbox_prefix netbox_description netbox_location netbox_status netbox_vlan get truth
read_netbox_prefix t py (object row) = do p ← netbox_prefix t row; prefix_fields t py row p
read_netbox_prefix t py _ = err unsupported

-- The endpoint's own replies, status 400 and 502, and what the loops raise.
pub data NetboxFailure : Type 0 where
  no_base_url no_token fetch_failed : NetboxFailure
  raised : Raised → NetboxFailure

abbrev pub or_url : Option String → Option String
or_url none = none
or_url (some url) = full_or_none (strip url)

abbrev pub config_url : Option NetboxImportConfig → String
config_url none = ""
config_url (some cfg) = cfg.base_url

abbrev pub config_token : Option NetboxImportConfig → String
config_token none = ""
config_token (some cfg) = get_or cfg.api_token ""

abbrev pub credential_id : Option ℕ → Option NetboxImportConfig → Option ℕ
credential_id none none = none
credential_id none (some cfg) = cfg.api_credential_id
credential_id (some id) cfg = some id

-- The secret of the credential, unless it has none.
abbrev pub secret_or : (ℕ → Option String) → Option ℕ → String → String
secret_or api_secret none token = token
secret_or api_secret (some id) token = elim (api_secret id) [
  | none ↦ token
  | some secret ↦ if str_eq secret "" then token else secret
]

abbrev pub netbox_reply : Result Raised Counts × Db → Result NetboxFailure Counts × Db
netbox_reply (ok counts, db) = (ok counts, db)
netbox_reply (err e, db) = (err (raised e), db)

-- `api_secret` is that of the credential of a key, if it is an API key; `fetch` is what the two
-- `_fetch_netbox_...` return, `none` if one raises.
unfoldable pub netbox_import :
    NetText
    → Printer
    → (ℕ → Option String)
    → (String → String → Option (List Json × List Json))
    → Option String
    → Option ℕ
    → Option NetboxImportConfig
    → Db
    → Result NetboxFailure Counts × Db
unfolding strip read_netbox_aggregate read_netbox_prefix
netbox_import t py api_secret fetch base_url api_credential_id cfg db =
    let url = get_or (or_url base_url) (config_url cfg) in
    let token = secret_or api_secret (credential_id api_credential_id cfg) (config_token cfg) in
    if str_eq (strip url) ""
    then (err no_base_url, db)
    else if str_eq token ""
    then (err no_token, db)
    else elim (fetch url token) [
      | none ↦ (err fetch_failed, db)
      | some (raw_aggs, raw_prefixes) ↦ netbox_reply (
          import_rows t (read_netbox_aggregate t py) (read_netbox_prefix t py) raw_aggs raw_prefixes
            db)
    ]
