-- ===== src/Ipam/RouteExamples.antt =====
-- The theorems on the endpoints and on the imports over the network at small tables, and tests.
use net_soc_ops.Prelude.{
  ℕ, suc, ◌*◌, ◌/◌, ◌≤◌, String, ◌≡◌, refl, true, false, none, some, List, [], ◌∷◌, length, Option,
  arith, strip, lower, is_space,
}
use Prim.Native.String as Text
use net_soc_ops.Prelude.Int.{ℤ, pos, negsuc}
use net_soc_ops.Prelude.Results.{ok}
use mathlib.Core.Path.{subst}
use net_soc_ops.Ipam.Network.{v4, Network, num_addresses, overlaps, contains, subnet_of}
use net_soc_ops.Ipam.Store.{Aggregate, Prefix, Db}
use net_soc_ops.Ipam.Sample.{sample, parse, print, parse-strip}
use net_soc_ops.Ipam.Validators.{
  validate_cidr_format, ipam_aggregate_overlaps_existing, check_prefix_in_aggregate,
}
use net_soc_ops.Ipam.AggregateImport.{add_aggregate}
use net_soc_ops.Ipam.AggregateRoutes.{
  AggregateCreate, create_aggregate, update_aggregate, parse_cidr, aggregates_overlap,
  require_unique, inserted_aggregate, check_new_prefix, changed_aggregate, stored_aggregate,
}
use net_soc_ops.Ipam.AggregateRoutes.Disjoint.{IsSound}
use net_soc_ops.Ipam.PrefixRoutes.{PrefixCreate, create_prefix, prefix_in_aggregate}
use net_soc_ops.Ipam.PrefixRoutes.Covers.{AreInside}
use net_soc_ops.Ipam.Requests.{
  Request, post_aggregate, put_aggregate, post_prefix, serve, serve_all,
}
use net_soc_ops.Ipam.Requests.Kept.{serve_all-AreInside}
use net_soc_ops.Ipam.Requests.Sound.{serve_all-IsSound}
use net_soc_ops.Ipam.Utilization.{used_of, aggregate_utilization}
use net_soc_ops.Ipam.Utilization.Bounds.{aggregate_utilization-fits}
use net_soc_ops.Ipam.Resolve.{resolve_aggregate_id_for_prefix, best_of, consider}
use net_soc_ops.Ipam.Resolve.Smallest.{IsResolved, resolve-IsResolved}
use net_soc_ops.Ipam.Json.{
  Json, Printer, integer, text, object, member, no_members, get, int_of, str_of, or_else, truth,
  sliced,
}
use net_soc_ops.Ipam.Merge.{
  import_rows, read_aggregates, commit_aggregates, read_prefixes, store_prefixes,
  merge_aggregate_row, merge_prefix_row, place_prefix, commit_prefixes,
}
use net_soc_ops.Ipam.Merge.Kept.{IsKept}
use net_soc_ops.Ipam.Phpipam.{
  phpipam_import, apply_phpipam_subnets_to_db, split_rows, row_to_cidr, read_folder, read_leaf,
  is_truthy_folder, phpipam_description, phpipam_status_to_str, phpipam_vlan_id,
  phpipam_location_to_str,
}
use net_soc_ops.Ipam.Netbox.{
  netbox_import, read_netbox_aggregate, read_netbox_prefix, netbox_prefix, netbox_rir_to_str,
  netbox_description, netbox_date_to_date, netbox_status, netbox_vlan, netbox_location,
  netbox_scope_to_str,
}
use net_soc_ops.Ipam.Imports.{phpipam_import-IsKept, netbox_import-IsKept}

-- The networks 0.0.0.8/29 and 0.0.0.12/30.
abbrev eight : Network
eight = record { version = v4; network_address = 8; prefixlen = 29 }

abbrev four : Network
four = record { version = v4; network_address = 12; prefixlen = 30 }

nothing : sample.parse "" ≡ none
unfolding sample parse
nothing = refl

solid : (s : String) (n : Network) → sample.parse s ≡ some n → sample.parse (strip s) ≡ some n
unfolding sample
solid = parse-strip

empty : Db
empty = record { aggregates = []; prefixes = []; next_aggregate = 1; next_prefix = 1 }

percent_of : ℕ → ℕ → ℕ
percent_of used total = 1000 * used / total

-- The second aggregate lies in the first, and is refused; the prefix lies in it.
abbrev body_of : Network → AggregateCreate
body_of n = record { prefix = print n; rir = none; date_added = none; description = none }

abbrev prefix_body : PrefixCreate
prefix_body = record {
  prefix = print four;
  status = "active";
  description = none;
  is_pool = some false;
  mark_utilized = some false;
  vlan_id = none;
  location = none;
  aggregate_id = some 1;
}

abbrev requests : List Request
requests =
    post_aggregate (body_of eight)
    ∷ post_aggregate (body_of four)
    ∷ post_prefix prefix_body
    ∷ put_aggregate 1
        (record { prefix = none; rir = some "RIPE"; date_added = none; description = none })
    ∷ []

serve_all-IsSound_example :
    IsSound sample nothing solid (serve_all sample percent_of requests empty)
unfolding empty
serve_all-IsSound_example =
    serve_all-IsSound sample nothing solid percent_of requests empty
      (record { keys = tt; disjoint = tt })

serve_all-AreInside_example : AreInside sample (serve_all sample percent_of requests empty)
unfolding empty
serve_all-AreInside_example =
    serve_all-AreInside sample percent_of requests empty (tt, (tt, (tt, (refl, tt)))) tt

-- The overlapping aggregate is refused, and the prefix is stored.
serve_all_test :
    (length (serve_all sample percent_of requests empty).aggregates ≡ 1)
    × (length (serve_all sample percent_of requests empty).prefixes ≡ 1)
unfolding serve_all serve create_aggregate update_aggregate create_prefix parse_cidr
    aggregates_overlap require_unique inserted_aggregate add_aggregate check_new_prefix
    changed_aggregate stored_aggregate prefix_in_aggregate validate_cidr_format
    ipam_aggregate_overlaps_existing check_prefix_in_aggregate sample parse print strip is_space
    empty aggregate_utilization used_of subnet_of overlaps contains
serve_all_test = (refl, refl)

abbrev pool : Aggregate
pool = record { id = 1; prefix = print eight; rir = none; date_added = none; description = none }

abbrev row : Prefix
row = record {
  id = 1;
  prefix = print four;
  status = "active";
  description = none;
  is_pool = some false;
  mark_utilized = some false;
  vlan_id = none;
  location = none;
  aggregate_id = some 1;
}

abbrev table : Db
table = record { aggregates = pool ∷ []; prefixes = row ∷ []; next_aggregate = 2; next_prefix = 2 }

full : ℕ → ℕ → ℕ
full used total = 1000

full-small : (used total : ℕ) → used ≤ total → full used total ≤ 1000
unfolding full
full-small used total h = omega arith

four-within : (n : Network) → sample.parse (print four) ≡ some n → subnet_of n eight ≡ some true
unfolding sample parse print subnet_of
four-within n h = let same : four ≡ n = cc h in subst (λ m. subnet_of m eight ≡ some true) same refl

aggregate_utilization-fits_example :
    (used_of sample (row ∷ []) ≤ num_addresses eight)
    × (aggregate_utilization sample full table pool
        ≡ (1, full (used_of sample (row ∷ [])) (num_addresses eight)))
unfolding sample parse print
aggregate_utilization-fits_example =
    aggregate_utilization-fits sample full table pool eight full-small refl refl (tt, tt)
      (four-within, tt)

resolve_four : resolve_aggregate_id_for_prefix sample table (print four) ≡ ok (some 1)
unfolding resolve_aggregate_id_for_prefix best_of consider sample parse print subnet_of
resolve_four = refl

resolve-IsResolved_example : IsResolved sample four table.aggregates (some 1)
unfolding sample parse print
resolve-IsResolved_example =
    resolve-IsResolved sample nothing table (print four) four (some 1) refl resolve_four

ones : ℕ → String
ones ℕ.zero = ""
ones (suc n) = Text.◌∷◌ "1" (ones n)

digits : ℤ → String
digits (pos n) = ones n
digits (negsuc n) = "-"

no_text : Json → String
no_text v = ""

printer : Printer
printer = record { str = no_text; decimal = digits }

-- A folder and a subnet in it, as phpIPAM answers them.
items : List Json
items =
    object (
      member "subnet" (text "411111111")
        (member "mask" (integer (pos 29)) (member "isFolder" (integer (pos 1)) no_members)))
    ∷ object (member "subnet" (text "4111111111111") (member "mask" (integer (pos 30)) no_members))
    ∷ []

answer : String → String → Option (List Json)
answer url token = some items

phpipam_import-IsKept_example :
    IsKept sample (phpipam_import sample printer answer "http" (some "token") empty).1
unfolding empty
phpipam_import-IsKept_example =
    phpipam_import-IsKept sample nothing solid printer answer "http" (some "token") empty
      (record { keys = tt; inside = tt })

-- The folder and the subnet are stored, and the subnet names the folder.
phpipam_import_test : phpipam_import sample printer answer "http" (some "token") empty ≡ (
  ok (record {
    aggregates_created = 1;
    aggregates_updated = 0;
    prefixes_created = 1;
    prefixes_updated = 0;
  }),
  table,
)
unfolding phpipam_import apply_phpipam_subnets_to_db split_rows row_to_cidr read_folder read_leaf
    is_truthy_folder phpipam_description phpipam_status_to_str phpipam_vlan_id
    phpipam_location_to_str import_rows read_aggregates merge_aggregate_row commit_aggregates
    add_aggregate read_prefixes store_prefixes merge_prefix_row place_prefix commit_prefixes
    resolve_aggregate_id_for_prefix best_of consider subnet_of sample parse print strip lower
    is_space empty answer items printer digits ones get int_of str_of or_else truth sliced no_text
phpipam_import_test = refl

-- The same rows from NetBox.
raw_aggs : List Json
raw_aggs = object (member "prefix" (text (print eight)) no_members) ∷ []

raw_prefixes : List Json
raw_prefixes = object (member "prefix" (text (print four)) no_members) ∷ []

answers : String → String → Option (List Json × List Json)
answers url token = some (raw_aggs, raw_prefixes)

secrets : ℕ → Option String
secrets id = some "token"

netbox_import-IsKept_example :
    IsKept sample (netbox_import sample printer secrets answers (some "http") (some 1) none empty).1
unfolding empty
netbox_import-IsKept_example =
    netbox_import-IsKept sample nothing solid printer secrets answers (some "http") (some 1) none
      empty (record { keys = tt; inside = tt })

netbox_import_test :
    netbox_import sample printer secrets answers (some "http") (some 1) none empty ≡ (
      ok (record {
        aggregates_created = 1;
        aggregates_updated = 0;
        prefixes_created = 1;
        prefixes_updated = 0;
      }),
      table,
    )
unfolding netbox_import read_netbox_aggregate read_netbox_prefix netbox_prefix netbox_rir_to_str
    netbox_description netbox_date_to_date netbox_status netbox_vlan netbox_location
    netbox_scope_to_str import_rows read_aggregates merge_aggregate_row commit_aggregates
    add_aggregate read_prefixes store_prefixes merge_prefix_row place_prefix commit_prefixes
    resolve_aggregate_id_for_prefix best_of consider subnet_of sample parse print strip lower
    is_space empty answers raw_aggs raw_prefixes secrets printer digits ones get int_of str_of
    or_else truth sliced no_text
netbox_import_test = refl
