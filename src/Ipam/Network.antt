-- ===== src/Ipam/Network.antt =====
-- The networks of Python's `ipaddress`, as far as the program uses them: `ip_network(_,
-- strict=False)`, `num_addresses`, `broadcast_address`, `overlaps` and `subnet_of`.
pub mod Laws
use net_soc_ops.Prelude.{
  ℕ, ◌+◌, ◌-◌, ◌%◌, ◌^◌, ◌≤◌, ◌≡◌, Bool, true, false, ◌&&◌, ◌||◌, Option, none, some, leb, ◌==◌,
  if◌then◌else◌,
}

pub data Version : Type 0 where
  v4 v6 : Version

abbrev pub same_version : Version → Version → Bool
same_version v4 v4 = true
same_version v6 v6 = true
same_version _ _ = false

-- The network address as a number, and `prefixlen`.
pub record Network : Type 0 where
  pub version : Version
  pub network_address : ℕ
  pub prefixlen : ℕ

-- `max_prefixlen`.
abbrev pub width : Version → ℕ
width v4 = 32
width v6 = 128

abbrev pub num_addresses : Network → ℕ
num_addresses n = 2 ^ (width n.version - n.prefixlen)

abbrev pub broadcast_address : Network → ℕ
broadcast_address n = n.network_address + num_addresses n - 1

-- `ip_network(address/prefixlen, strict=False)`: the host bits are masked off.
unfoldable pub network_of : Version → ℕ → ℕ → Network
network_of v address len = record {
  version = v;
  network_address = address - address % 2 ^ (width v - len);
  prefixlen = len;
}

-- `address in network`: the masked address is the network's.
unfoldable pub contains : Network → ℕ → Bool
contains n address = address - address % num_addresses n == n.network_address

unfoldable pub overlaps : Network → Network → Bool
overlaps a b =
    same_version a.version b.version
    && (contains b a.network_address
        || contains b (broadcast_address a)
        || contains a b.network_address
        || contains a (broadcast_address b))

-- `none` is the `TypeError` for two versions.
unfoldable pub subnet_of : Network → Network → Option Bool
subnet_of a b =
    if same_version a.version b.version
    then some
        (leb b.network_address a.network_address && leb (broadcast_address a) (broadcast_address b))
    else none

-- What `ip_network` returns.
pub record IsNetwork (n : Network) : Type 0 where
  pub len_fits : n.prefixlen ≤ width n.version
  pub aligned : n.network_address % num_addresses n ≡ 0
  pub in_space : n.network_address + num_addresses n ≤ 2 ^ width n.version
