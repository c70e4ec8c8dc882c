-- ===== src/Ipam/Store.antt =====
-- The tables of netops-backend/database/ipam_models.py, and the text of networks.
use net_soc_ops.Prelude.{ℕ, ◌≡◌, String, Bool, Option, some, List, strip}
use net_soc_ops.Prelude.Int.{ℤ}
use net_soc_ops.Ipam.Network.{Network, IsNetwork}

-- A date is a year, a month and a day.
pub record Date : Type 0 where
  pub year : ℕ
  pub month : ℕ
  pub day : ℕ

-- What the program uses of Python's library to read and write texts: `ip_network(_,
-- strict=False)` and `str` of networks, `strptime(_, "%Y-%m-%d").date()` and `int`. `none` is
-- `ValueError`.
pub record NetText : Type 0 where
  pub parse : String → Option Network
  pub print : Network → String
  pub strptime : String → Option Date
  pub int_of : String → Option ℤ
  pub parse-IsNetwork : (s : String) (n : Network) → parse s ≡ some n → IsNetwork n
  pub parse-print : (n : Network) → IsNetwork n → parse (print n) ≡ some n
  pub strip-print : (n : Network) → strip (print n) ≡ print n

pub record Aggregate : Type 0 where
  pub id : ℕ
  pub prefix : String
  pub rir : Option String
  pub date_added : Option Date
  pub description : Option String

pub record Prefix : Type 0 where
  pub id : ℕ
  pub prefix : String
  pub status : String
  pub description : Option String
  pub is_pool : Option Bool
  pub mark_utilized : Option Bool
  pub vlan_id : Option ℤ
  pub location : Option String
  pub aggregate_id : Option ℕ

-- The rows in the order in which a query without `ORDER BY` returns them, and the next key of
-- each table.
pub record Db : Type 0 where
  pub aggregates : List Aggregate
  pub prefixes : List Prefix
  pub next_aggregate : ℕ
  pub next_prefix : ℕ
