-- ===== src/Ipam/Merge.antt =====
-- How the imports from NetBox (`netbox_import` of netops-backend/routes/ipam_router.py) and from
-- phpIPAM (`apply_phpipam_subnets_to_db` of netops-backend/services/phpipam_import.py) store what
-- they have read. A session flushes at a commit only, so that a query does not see the rows that
-- the same loop has added; they get their keys at the commit.
pub mod Kept
pub mod Placed
use net_soc_ops.Prelude.{
  ℕ, suc, String, Bool, true, false, Option, none, some, List, [], ◌∷◌, ◌++◌, elem, find, get_or,
  modify_first, str_eq, if◌then◌else◌,
}
use net_soc_ops.Prelude.Int.{ℤ}
use net_soc_ops.Prelude.Results.{Result, ok, err, ◌>>=◌}
use net_soc_ops.Ipam.Store.{NetText, Aggregate, Prefix, Db, Date}
use net_soc_ops.Ipam.AggregateImport.{add_aggregate, new_date}
use net_soc_ops.Ipam.PrefixRoutes.{set_or}
use net_soc_ops.Ipam.Resolve.{TypeError, resolve_aggregate_id_for_prefix}

-- What an import raises: an operation that a value does not have, networks of two versions, and the
-- unique index on the prefix of an aggregate.
pub data Raised : Type 0 where
  unsupported version_mismatch integrity_error : Raised

-- The values that are read from one aggregate; a text that is kept is not empty.
pub record IncomingAggregate : Type 0 where
  pub prefix : String
  pub rir : Option String
  pub date_added : Option Date
  pub description : Option String

pub record IncomingPrefix : Type 0 where
  pub prefix : String
  pub status : String
  pub description : Option String
  pub is_pool : Option Bool
  pub mark_utilized : Option Bool
  pub vlan_id : Option ℤ
  pub location : Option String

-- The table, the rows to add, and the counters.
pub record AggregateLoop : Type 0 where
  pub db : Db
  pub added : List IncomingAggregate
  pub created : ℕ
  pub updated : ℕ

-- The assignments to `existing`.
abbrev pub merged_aggregate : IncomingAggregate → Aggregate → Aggregate
merged_aggregate i a = record a {
  rir = set_or i.rir a.rir;
  date_added = new_date i.date_added a.date_added;
  description = set_or i.description a.description;
}

abbrev pub has_prefix : String → Aggregate → Bool
has_prefix p a = str_eq a.prefix p

unfoldable pub merge_aggregate_row : AggregateLoop → IncomingAggregate → AggregateLoop
merge_aggregate_row s i = elim (find (has_prefix i.prefix) s.db.aggregates) [
  | some existing ↦ record s {
    db = record (s.db) {
      aggregates = modify_first (has_prefix i.prefix) (merged_aggregate i) s.db.aggregates;
    };
    updated = suc s.updated;
  }
  | none ↦ record s { added = s.added ++ i ∷ []; created = suc s.created }
]

abbrev pub aggregate_if : AggregateLoop → Option IncomingAggregate → AggregateLoop
aggregate_if s none = s
aggregate_if s (some i) = merge_aggregate_row s i

-- The loop; the reading of a row can raise, and `none` is a row that is passed over.
unfoldable pub read_aggregates {ℓ} :
    {Row : Type ℓ}
    → (Row → Result Raised (Option IncomingAggregate))
    → AggregateLoop
    → List Row
    → Result Raised AggregateLoop
unfolding merge_aggregate_row
read_aggregates read s [] = ok s
read_aggregates read s (row ∷ rows) = do
  incoming ← read row
  read_aggregates read (aggregate_if s incoming) rows

-- `db.commit()`: the new rows one after the other; the second of one prefix violates the index.
unfoldable pub commit_aggregates : List String → List IncomingAggregate → Db → Result Raised Db
unfolding add_aggregate
commit_aggregates seen [] db = ok db
commit_aggregates seen (i ∷ is) db =
    let rest =
      commit_aggregates (i.prefix ∷ seen) is
        (add_aggregate i.prefix i.rir i.date_added i.description db) in
    if elem i.prefix seen then err integrity_error else rest

pub record PrefixLoop : Type 0 where
  pub db : Db
  pub added : List (IncomingPrefix × Option ℕ)
  pub created : ℕ
  pub updated : ℕ

abbrev pub merged_prefix : IncomingPrefix → Option ℕ → Prefix → Prefix
merged_prefix i aggregate_id p = record p {
  status = i.status;
  description = set_or i.description p.description;
  is_pool = set_or i.is_pool p.is_pool;
  mark_utilized = set_or i.mark_utilized p.mark_utilized;
  vlan_id = set_or i.vlan_id p.vlan_id;
  location = set_or i.location p.location;
  aggregate_id = set_or aggregate_id p.aggregate_id;
}

abbrev pub is_text : String → Prefix → Bool
is_text s p = str_eq p.prefix s

-- The row once its aggregate is resolved.
unfoldable pub place_prefix : PrefixLoop → IncomingPrefix → Option ℕ → PrefixLoop
place_prefix s i aggregate_id = elim (find (is_text i.prefix) s.db.prefixes) [
  | some existing ↦ record s {
    db = record (s.db) {
      prefixes = modify_first (is_text i.prefix) (merged_prefix i aggregate_id) s.db.prefixes;
    };
    updated = suc s.updated;
  }
  | none ↦ record s { added = s.added ++ (i, aggregate_id) ∷ []; created = suc s.created }
]

abbrev pub or_version_mismatch {ℓ} : {A : Type ℓ} → Result TypeError A → Result Raised A
or_version_mismatch (ok a) = ok a
or_version_mismatch (err e) = err version_mismatch

unfoldable pub merge_prefix_row : NetText → PrefixLoop → IncomingPrefix → Result Raised PrefixLoop
unfolding place_prefix
merge_prefix_row t s i = do
  aggregate_id ← or_version_mismatch (resolve_aggregate_id_for_prefix t s.db i.prefix)
  ok (place_prefix s i aggregate_id)

-- `IpamPrefix(...)` with the key that the commit gives it.
abbrev pub row_of : IncomingPrefix → Option ℕ → ℕ → Prefix
row_of i aggregate_id id = record {
  id = id;
  prefix = i.prefix;
  status = i.status;
  description = i.description;
  is_pool = some (get_or i.is_pool false);
  mark_utilized = some (get_or i.mark_utilized false);
  vlan_id = i.vlan_id;
  location = i.location;
  aggregate_id = aggregate_id;
}

unfoldable pub commit_prefixes : List (IncomingPrefix × Option ℕ) → Db → Db
commit_prefixes [] db = db
commit_prefixes ((i, aggregate_id) ∷ added) db = commit_prefixes added (record db {
  prefixes = db.prefixes ++ row_of i aggregate_id db.next_prefix ∷ [];
  next_prefix = suc db.next_prefix;
})

-- The counters of the reply.
pub record Counts : Type 0 where
  pub aggregates_created : ℕ
  pub aggregates_updated : ℕ
  pub prefixes_created : ℕ
  pub prefixes_updated : ℕ

abbrev pub merge_if : NetText → PrefixLoop → Option IncomingPrefix → Result Raised PrefixLoop
merge_if t s none = ok s
merge_if t s (some i) = merge_prefix_row t s i

unfoldable pub read_prefixes {ℓ} :
    {Row : Type ℓ}
    → NetText
    → (Row → Result Raised (Option IncomingPrefix))
    → PrefixLoop
    → List Row
    → Result Raised PrefixLoop
unfolding merge_prefix_row
read_prefixes t read s [] = ok s
read_prefixes t read s (row ∷ rows) = do
  incoming ← read row
  s' ← merge_if t s incoming
  read_prefixes t read s' rows

-- The loop over the prefixes, from the tables that the first commit has left.
unfoldable pub store_prefixes {ℓ} :
    {Row : Type ℓ}
    → NetText
    → (Row → Result Raised (Option IncomingPrefix))
    → ℕ × ℕ
    → List Row
    → Db
    → Result Raised Counts × Db
unfolding commit_prefixes
store_prefixes t read (created, updated) rows db =
    elim (read_prefixes t read (record { db = db; added = []; created = 0; updated = 0 }) rows) [
      | err e ↦ (err e, db)
      | ok s ↦ (
        ok (record {
          aggregates_created = created;
          aggregates_updated = updated;
          prefixes_created = s.created;
          prefixes_updated = s.updated;
        }),
        commit_prefixes s.added s.db,
      )
    ]

-- The two loops with their commits. What raises in the second loop leaves the first commit.
unfoldable pub import_rows {ℓ} :
    {Row : Type ℓ}
    → NetText
    → (Row → Result Raised (Option IncomingAggregate))
    → (Row → Result Raised (Option IncomingPrefix))
    → List Row
    → List Row
    → Db
    → Result Raised Counts × Db
unfolding store_prefixes
import_rows t read_aggregate read_prefix aggregates prefixes db =
    elim (read_aggregates read_aggregate (record { db = db; added = []; created = 0; updated = 0 })
      aggregates) [
        | err e ↦ (err e, db)
        | ok s ↦ elim (commit_aggregates [] s.added s.db) [
          | err e ↦ (err e, db)
          | ok db' ↦ store_prefixes t read_prefix (s.created, s.updated) prefixes db'
        ]
      ]
