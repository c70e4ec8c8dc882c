-- ===== src/Ipam/Examples.antt =====
-- The theorems on addresses and imports at small tables, and tests of the code.
use net_soc_ops.Prelude.{
  ℕ, ◌+◌, ◌≤◌, String, ◌≡◌, refl, true, false, none, some, List, [], ◌∷◌, length, ◌↔◌, arith, strip,
  lower, is_space,
}
use net_soc_ops.Prelude.Results.{ok}
use net_soc_ops.Ipam.Network.{v4, Network, broadcast_address, overlaps, subnet_of, IsNetwork}
use net_soc_ops.Ipam.Network.Laws.{InNet, overlaps_iff, subnet_of_iff}
use net_soc_ops.Ipam.Cidrs.{address_range_to_cidrs}
use net_soc_ops.Ipam.Cidrs.Tiling.{
  Tiles, InSome, address_range_to_cidrs-Tiles, address_range_to_cidrs-InSome,
}
use net_soc_ops.Ipam.Store.{Aggregate, Prefix, Db}
use net_soc_ops.Ipam.Sample.{sample, parse, print}
use net_soc_ops.Ipam.Ranges.{available_networks, sort, subnets_of}
use net_soc_ops.Ipam.Ranges.Available.{available_networks-complement, Taken}
use net_soc_ops.Ipam.Ranges.Nested.{available_networks-nested}
use net_soc_ops.Ipam.Validators.{
  check_prefix_in_aggregate, validate_cidr_format, ipam_aggregate_overlaps_existing,
}
use net_soc_ops.Ipam.CsvRows.{
  Reader, text, Row, aggregate_csv_headers, validate_and_read_rows, number_rows, clean, all_blank,
  put, get, strip_bom,
}
use net_soc_ops.Ipam.CsvImport.{
  Import, parse_date_optional, parse_bool_cell, resolve_aggregate_id_from_row,
}
use net_soc_ops.Ipam.AggregateImport.{
  import_aggregates_csv, import_aggregate_rows, import_aggregate_row, take_aggregate,
  save_aggregate, save_dated, add_aggregate,
}
use net_soc_ops.Ipam.AggregateImport.Disjoint.{IsDisjointDb, import_aggregates_csv-Disjoint}
use net_soc_ops.Ipam.AggregateImport.Count.{import_aggregates_csv-Counts}
use net_soc_ops.Ipam.PrefixImport.{
  import_prefixes_csv, import_prefix_rows, import_prefix_row, take_prefix, save_prefix,
  save_checked, add_prefix, parse_vlan,
}
use net_soc_ops.Ipam.PrefixImport.Place.{ArePlaced}
use net_soc_ops.Ipam.PrefixImport.Placed.{import_prefixes_csv-ArePlaced}

-- The networks 0.0.0.8/29 and 0.0.0.12/30.
abbrev eight : Network
eight = record { version = v4; network_address = 8; prefixlen = 29 }

abbrev four : Network
four = record { version = v4; network_address = 12; prefixlen = 30 }

eight-IsNetwork : IsNetwork eight
eight-IsNetwork = record { len_fits = omega arith; aligned = refl; in_space = omega arith }

four-IsNetwork : IsNetwork four
four-IsNetwork = record { len_fits = omega arith; aligned = refl; in_space = omega arith }

overlaps_iff_example :
    (overlaps eight four ≡ true)
    ↔ ((eight.version ≡ four.version) × ((x : ℕ) × InNet x eight × InNet x four))
overlaps_iff_example = overlaps_iff eight four eight-IsNetwork four-IsNetwork

subnet_of_iff_example :
    (subnet_of four eight ≡ some true)
    ↔ ((four.version ≡ eight.version) × ((x : ℕ) → InNet x four → InNet x eight))
subnet_of_iff_example = subnet_of_iff four eight

address_range_to_cidrs-Tiles_example : Tiles 5 12 (address_range_to_cidrs 5 11)
address_range_to_cidrs-Tiles_example = address_range_to_cidrs-Tiles 5 11 (omega arith) (omega arith)

address_range_to_cidrs-InSome_example :
    InSome 7 (address_range_to_cidrs 5 11) ↔ ((5 ≤ 7) × (7 ≤ 11))
address_range_to_cidrs-InSome_example = address_range_to_cidrs-InSome 5 11 7 (omega arith)

-- The networks 0.0.0.8/30 and 0.0.0.10/32.
abbrev outer : Network
outer = record { version = v4; network_address = 8; prefixlen = 30 }

abbrev inner : Network
inner = record { version = v4; network_address = 10; prefixlen = 32 }

abbrev pool : Aggregate
pool = record { id = 1; prefix = print eight; rir = none; date_added = none; description = none }

abbrev prefix_row : ℕ → Network → Prefix
prefix_row id net = record {
  id = id;
  prefix = print net;
  status = "active";
  description = none;
  is_pool = some false;
  mark_utilized = some false;
  vlan_id = none;
  location = none;
  aggregate_id = some 1;
}

abbrev table : List Prefix → Db
table rows = record { aggregates = pool ∷ []; prefixes = rows; next_aggregate = 2; next_prefix = 9 }

available_networks-complement_example :
    (nets : List Network) × (available_networks sample (table (prefix_row 1 four ∷ [])) pool
      ≡ some nets)
    × ((x : ℕ)
        → InSome x nets ↔ (InNet x eight × ¬ Taken sample 1 eight x (prefix_row 1 four ∷ [])))
unfolding sample parse print subnets_of
available_networks-complement_example =
    available_networks-complement sample (table (prefix_row 1 four ∷ [])) pool eight refl refl refl
      (omega arith) (tt, tt)

available_networks-nested_example :
    (nets : List Network) × (available_networks sample
        (table (prefix_row 1 outer ∷ prefix_row 2 inner ∷ []))
        pool
      ≡ some nets)
    × InSome (broadcast_address inner + 1) nets
    × InNet (broadcast_address inner + 1) outer
unfolding sample parse print subnets_of sort
available_networks-nested_example =
    available_networks-nested sample (table (prefix_row 1 outer ∷ prefix_row 2 inner ∷ [])) pool
      eight outer inner refl refl (omega arith) refl (omega arith) (omega arith) (omega arith)

empty : Db
empty = record { aggregates = []; prefixes = []; next_aggregate = 1; next_prefix = 1 }

-- A file of one row, the same whatever its text.
aggregate_file : String → Reader
aggregate_file content = record {
  fieldnames = some "网段" ∷ some "分配机构" ∷ some "分配日期" ∷ some "描述" ∷ [];
  rows =
      ((some "网段", text (print eight))
        ∷ (some "分配机构", text "RIPE")
        ∷ (some "分配日期", text "")
        ∷ (some "描述", text "")
        ∷ [])
      ∷ [];
}

abbrev with_one : Import
with_one = record {
  db = record {
    aggregates =
        record {
          id = 1;
          prefix = print eight;
          rir = some "RIPE";
          date_added = none;
          description = none;
        }
        ∷ [];
    prefixes = [];
    next_aggregate = 2;
    next_prefix = 1;
  };
  imported = 1;
  updated = 0;
  failed = 0;
  errors = [];
  seen_norm = print eight ∷ [];
}

import_one : import_aggregates_csv sample aggregate_file empty "csv" ≡ ok with_one
unfolding import_aggregates_csv import_aggregate_rows import_aggregate_row take_aggregate
    save_aggregate save_dated add_aggregate validate_and_read_rows number_rows clean all_blank put
    get strip_bom strip parse_date_optional validate_cidr_format ipam_aggregate_overlaps_existing
    sample parse print is_space aggregate_file empty
import_one = refl

nothing_empty : sample.parse "" ≡ none
unfolding sample parse
nothing_empty = refl

import_aggregates_csv-Disjoint_example : IsDisjointDb sample nothing_empty with_one.db
unfolding empty
import_aggregates_csv-Disjoint_example =
    import_aggregates_csv-Disjoint sample nothing_empty aggregate_file empty "csv" with_one tt
      import_one

import_aggregates_csv-Counts_example :
    (rows : List (ℕ × Row)) × (validate_and_read_rows aggregate_file "csv" aggregate_csv_headers
      ≡ ok rows)
    × (with_one.imported + with_one.updated + with_one.failed ≡ length rows)
    × (length with_one.errors ≡ with_one.failed)
    × (length with_one.db.aggregates ≡ length empty.aggregates + with_one.imported)
import_aggregates_csv-Counts_example =
    import_aggregates_csv-Counts sample aggregate_file empty "csv" with_one import_one

prefix_file : String → Reader
prefix_file content = record {
  fieldnames =
      some "网段"
      ∷ some "状态"
      ∷ some "描述"
      ∷ some "地址池"
      ∷ some "标记已用"
      ∷ some "VLAN"
      ∷ some "位置"
      ∷ some "所属聚合网段"
      ∷ some "聚合ID"
      ∷ [];
  rows =
      ((some "网段", text (print four))
        ∷ (some "状态", text "Active")
        ∷ (some "所属聚合网段", text (print eight))
        ∷ [])
      ∷ [];
}

abbrev with_prefix : Import
with_prefix = record {
  db = record {
    aggregates = pool ∷ [];
    prefixes =
        record {
          id = 9;
          prefix = print four;
          status = "active";
          description = none;
          is_pool = some false;
          mark_utilized = some false;
          vlan_id = none;
          location = none;
          aggregate_id = some 1;
        }
        ∷ [];
    next_aggregate = 2;
    next_prefix = 10;
  };
  imported = 1;
  updated = 0;
  failed = 0;
  errors = [];
  seen_norm = print four ∷ [];
}

import_prefix : import_prefixes_csv sample prefix_file (table []) "csv" ≡ ok with_prefix
unfolding import_prefixes_csv import_prefix_rows import_prefix_row take_prefix save_prefix
    save_checked add_prefix parse_vlan validate_and_read_rows number_rows clean all_blank put get
    strip_bom strip lower parse_bool_cell resolve_aggregate_id_from_row check_prefix_in_aggregate
    subnet_of validate_cidr_format sample parse print is_space prefix_file
import_prefix = refl

import_prefixes_csv-ArePlaced_example : ArePlaced sample with_prefix.db
import_prefixes_csv-ArePlaced_example =
    import_prefixes_csv-ArePlaced sample prefix_file (table []) "csv" with_prefix tt import_prefix
