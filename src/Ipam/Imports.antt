-- ===== src/Ipam/Imports.antt =====
-- The two imports over the network, and what they keep.
use net_soc_ops.Prelude.{
  ℕ, String, ◌≡◌, inl, inr, Option, none, some, List, Bool-cases, Option-cases, strip, str_eq,
  get_or,
}
use net_soc_ops.Prelude.Results.{Result, ok, err}
use net_soc_ops.Ipam.Network.{Network}
use net_soc_ops.Ipam.Store.{NetText, Db}
use net_soc_ops.Ipam.Json.{Json, Printer}
use net_soc_ops.Ipam.Merge.{Raised, Counts}
use net_soc_ops.Ipam.Merge.Kept.{IsKept}
use net_soc_ops.Ipam.Merge.Placed.{import_rows-IsKept}
use net_soc_ops.Ipam.Phpipam.{
  split_rows, read_folder, read_leaf, apply_phpipam_subnets_to_db, phpipam_import, phpipam_reply,
}
use net_soc_ops.Ipam.Netbox.{
  NetboxImportConfig, read_netbox_aggregate, read_netbox_prefix, netbox_import, netbox_reply,
  or_url, config_url, secret_or, credential_id, config_token,
}

module _ (t : NetText) (nil : t.parse "" ≡ none)
    (trimmed : (s : String) (n : Network) → t.parse s ≡ some n → t.parse (strip s) ≡ some n)
    (py : Printer) where
  apply_phpipam-IsKept :
      (raw_items : List Json) (db : Db)
      → IsKept t db
      → IsKept t (apply_phpipam_subnets_to_db t py raw_items db).1
  unfolding apply_phpipam_subnets_to_db
  apply_phpipam-IsKept raw_items db h =
      import_rows-IsKept t nil trimmed (read_folder t py) (read_leaf t py)
        (split_rows t py raw_items).0 (split_rows t py raw_items).1 db h

  phpipam_reply-IsKept :
      (r : Result Raised Counts × Db) → IsKept t r.1 → IsKept t (phpipam_reply r).1
  phpipam_reply-IsKept (ok counts, db) h = h
  phpipam_reply-IsKept (err e, db) h = h

  netbox_reply-IsKept : (r : Result Raised Counts × Db) → IsKept t r.1 → IsKept t (netbox_reply r).1
  netbox_reply-IsKept (ok counts, db) h = h
  netbox_reply-IsKept (err e, db) h = h

  -- Whatever phpIPAM answers, and whether the import succeeds or is refused or fails half-way: if
  -- the aggregates have distinct keys and each prefix lies in the aggregate that it names, this
  -- holds of the tables afterwards. The empty text must be no network, and a text that is a network
  -- must be the same network without the space around it.
  pub phpipam_import-IsKept :
      (fetch : String → String → Option (List Json)) (api_base_url : String)
      (api_secret : Option String) (db : Db)
      → IsKept t db
      → IsKept t (phpipam_import t py fetch api_base_url api_secret db).1
  unfolding phpipam_import
  phpipam_import-IsKept fetch api_base_url none db h =
      elim (Bool-cases (str_eq (strip api_base_url) "")) [ inl e ↦ rw e h | inr e ↦ rw e h ]
  phpipam_import-IsKept fetch api_base_url (some token) db h =
      elim (Bool-cases (str_eq (strip api_base_url) "")) [
        | inl e ↦ rw e h
        | inr e ↦ rw e (elim (Bool-cases (str_eq token "")) [
          | inl e' ↦ rw e' h
          | inr e' ↦ rw e' (elim (Option-cases (fetch (strip api_base_url) token)) [
            | inl failed ↦ rw failed h
            | inr (raw_items, fetched) ↦
                rw fetched (phpipam_reply-IsKept _ (apply_phpipam-IsKept raw_items db h))
          ])
        ])
      ]

  -- Whatever NetBox answers, and whether the import succeeds, is refused or fails half-way: if the
  -- aggregates have distinct keys and each prefix lies in the aggregate that it names, this holds of
  -- the tables afterwards. The empty text must be no network, and a text that is a network must be
  -- the same network without the space around it.
  pub netbox_import-IsKept :
      (api_secret : ℕ → Option String) (fetch : String → String → Option (List Json × List Json))
      (base_url : Option String) (api_credential_id : Option ℕ) (cfg : Option NetboxImportConfig)
      (db : Db)
      → IsKept t db
      → IsKept t (netbox_import t py api_secret fetch base_url api_credential_id cfg db).1
  unfolding netbox_import
  netbox_import-IsKept api_secret fetch base_url api_credential_id cfg db h =
      let url = get_or (or_url base_url) (config_url cfg) in
      let token = secret_or api_secret (credential_id api_credential_id cfg) (config_token cfg) in
      elim (Bool-cases (str_eq (strip url) "")) [
        | inl e ↦ rw e h
        | inr e ↦ rw e (elim (Bool-cases (str_eq token "")) [
          | inl e' ↦ rw e' h
          | inr e' ↦ rw e' (elim (Option-cases (fetch url token)) [
            | inl failed ↦ rw failed h
            | inr ((raw_aggs, raw_prefixes), fetched) ↦ rw fetched (
                netbox_reply-IsKept _ (
                  import_rows-IsKept t nil trimmed (read_netbox_aggregate t py)
                    (read_netbox_prefix t py) raw_aggs raw_prefixes db h))
          ])
        ])
      ]
