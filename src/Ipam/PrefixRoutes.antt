-- ===== src/Ipam/PrefixRoutes.antt =====
-- The endpoints of prefixes in netops-backend/routes/ipam_router.py. A handler that raises commits
-- nothing. The scopes of DHCP, which a reply lists and a deletion releases, are left out.
pub mod Covers
pub mod Inside
use net_soc_ops.Prelude.{
  ℕ, suc, String, Bool, not, Option, none, some, List, [], ◌∷◌, ◌++◌, strip, find, select,
  modify_first, is_some, ◌||◌, ◌==◌, if◌then◌else◌,
}
use net_soc_ops.Prelude.Int.{ℤ}
use net_soc_ops.Prelude.Results.{Result, ok, err, ◌>>=◌, ◌>>◌}
use net_soc_ops.Ipam.Store.{NetText, Prefix, Db}
use net_soc_ops.Ipam.Validators.{Problem, version_mismatch, check_prefix_in_aggregate}
use net_soc_ops.Ipam.AggregateRoutes.{
  Failure, not_found, type_error, bad_request, parse_cidr, stripped, stripped_or, prefix_or,
}

pub record PrefixCreate : Type 0 where
  pub prefix : String
  pub status : String
  pub description : Option String
  pub is_pool : Option Bool
  pub mark_utilized : Option Bool
  pub vlan_id : Option ℤ
  pub location : Option String
  pub aggregate_id : Option ℕ

pub record PrefixUpdate : Type 0 where
  pub prefix : Option String
  pub status : Option String
  pub description : Option String
  pub is_pool : Option Bool
  pub mark_utilized : Option Bool
  pub vlan_id : Option ℤ
  pub location : Option String
  pub aggregate_id : Option ℕ

-- Only `ValueError` becomes status 400.
abbrev pub failure_of : Problem → Failure
failure_of version_mismatch = type_error
failure_of e = bad_request e

abbrev pub or_raise : Result Problem (Unit {0}) → Result Failure (Unit {0})
or_raise (ok u) = ok tt
or_raise (err e) = err (failure_of e)

unfoldable pub prefix_in_aggregate : NetText → Db → String → Option ℕ → Result Failure (Unit {0})
prefix_in_aggregate t db prefix_str aggregate_id =
    or_raise (check_prefix_in_aggregate t db prefix_str aggregate_id)

-- `IpamPrefix(...)` of the body.
abbrev pub new_prefix : Db → PrefixCreate → Prefix
new_prefix db body = record {
  id = db.next_prefix;
  prefix = strip body.prefix;
  status = strip body.status;
  description = stripped body.description;
  is_pool = body.is_pool;
  mark_utilized = body.mark_utilized;
  vlan_id = body.vlan_id;
  location = stripped body.location;
  aggregate_id = body.aggregate_id;
}

unfoldable pub inserted_prefix : PrefixCreate → Db → Db
unfolding strip
inserted_prefix body db = record db {
  prefixes = db.prefixes ++ new_prefix db body ∷ [];
  next_prefix = suc db.next_prefix;
}

unfoldable pub create_prefix : NetText → PrefixCreate → Db → Result Failure (Prefix × Db)
unfolding strip inserted_prefix
create_prefix t body db = do
  parse_cidr t body.prefix
  prefix_in_aggregate t db (strip body.prefix) body.aggregate_id
  ok (new_prefix db body, inserted_prefix body db)

abbrev pub require_prefix : Db → ℕ → Result Failure Prefix
require_prefix db pref_id = elim (find (λ p. p.id == pref_id) db.prefixes) [
  | none ↦ err not_found
  | some p ↦ ok p
]

-- `body.prefix` is read if the request sets it.
unfoldable pub check_prefix_text : NetText → Option String → Result Failure (Unit {0})
check_prefix_text t none = ok tt
check_prefix_text t (some p) = parse_cidr t p

abbrev pub set_or {ℓ} : {A : Type ℓ} → Option A → Option A → Option A
set_or none old = old
set_or (some x) old = some x

abbrev status_or : Option String → String → String
status_or none old = old
status_or (some s) old = strip s

-- The assignments to `p`.
unfoldable pub changed_prefix : PrefixUpdate → Prefix → Prefix
changed_prefix body p = record p {
  prefix = prefix_or body.prefix p.prefix;
  status = status_or body.status p.status;
  description = stripped_or body.description p.description;
  is_pool = set_or body.is_pool p.is_pool;
  mark_utilized = set_or body.mark_utilized p.mark_utilized;
  vlan_id = set_or body.vlan_id p.vlan_id;
  location = stripped_or body.location p.location;
  aggregate_id = set_or body.aggregate_id p.aggregate_id;
}

-- The check of the place, if the request sets the prefix or the aggregate.
unfoldable pub check_place : NetText → Db → PrefixUpdate → Prefix → Result Failure (Unit {0})
check_place t db body p =
    if is_some body.prefix || is_some body.aggregate_id
    then prefix_in_aggregate t db (prefix_or body.prefix p.prefix)
        (set_or body.aggregate_id p.aggregate_id)
    else ok tt

unfoldable pub update_prefix : NetText → ℕ → PrefixUpdate → Db → Result Failure (Prefix × Db)
unfolding check_prefix_text check_place changed_prefix
update_prefix t pref_id body db = do
  p ← require_prefix db pref_id
  check_prefix_text t body.prefix
  check_place t db body p
  ok (
    changed_prefix body p,
    record db { prefixes = modify_first (λ x. x.id == pref_id) (changed_prefix body) db.prefixes },
  )

unfoldable pub delete_prefix : ℕ → Db → Result Failure Db
delete_prefix pref_id db = do
  p ← require_prefix db pref_id
  ok (record db { prefixes = select (λ x. not (x.id == pref_id)) db.prefixes })
