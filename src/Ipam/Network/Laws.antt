-- ===== src/Ipam/Network/Laws.antt =====
-- Networks as ranges of addresses.
use Prim.Native.Nat.{max}
use native.Mathlib.Nat.{mod-eq_of_lt, mod-lt, div-add-mod, mul-add-mod_self_left, pow-suc}
use net_soc_ops.Prelude.{
  ℕ, ◌+◌, ◌-◌, ◌*◌, ◌/◌, ◌%◌, ◌^◌, ◌≤◌, ◌<◌, ◌≡◌, ◌∙◌, ap, ◌↔◌, true, some, zero, suc, arith,
  ==_iff,
}
use net_soc_ops.Ipam.Network.{
  Network, Version, v4, v6, width, num_addresses, broadcast_address, same_version, contains,
  overlaps, subnet_of, IsNetwork,
}

-- `address` is one of the network's addresses.
abbrev pub InNet : ℕ → Network → Type 0
InNet address n = (n.network_address ≤ address) × (address < n.network_address + num_addresses n)

pub pow-pos : (k : ℕ) → 0 < 2 ^ k
pow-pos zero = omega arith
pow-pos (suc k) = omega (arith, pow-suc 2 k, pow-pos k)

pub num_addresses-pos : (n : Network) → 0 < num_addresses n
num_addresses-pos n = pow-pos (width n.version - n.prefixlen)

block_mod : (a b s : ℕ) → b % s ≡ 0 → b ≤ a → a < b + s → a % s ≡ a - b
block_mod a b s h lo hi =
    let split : a ≡ s * (b / s) + (a - b) = omega (arith, div-add-mod b s) in
    ap (λ t. t % s) split ∙ mul-add-mod_self_left s (b / s) (a - b) ∙ mod-eq_of_lt (omega arith)

-- Masking off the low bits of `a` gives the aligned `b` exactly if `a` lies in `b`'s block.
pub mask_iff : (a b s : ℕ) → 0 < s → b % s ≡ 0 → (a - a % s ≡ b) ↔ ((b ≤ a) × (a < b + s))
mask_iff a b s pos h = (
  λ e. let lt = mod-lt a pos in let sum = div-add-mod a s in (omega arith, omega arith),
  λ e. let rest = block_mod a b s h e.0 e.1 in omega arith,
)

pub contains_iff :
    (n : Network) (address : ℕ) → IsNetwork n → (contains n address ≡ true) ↔ InNet address n
unfolding contains
contains_iff n address v =
    let mask =
      mask_iff address n.network_address (num_addresses n) (num_addresses-pos n) v.aligned in
    (λ e. mask.0 ((==_iff _ _).0 e), λ e. (==_iff _ _).1 (mask.1 e))

pub same_version_iff : (v w : Version) → (same_version v w ≡ true) ↔ (v ≡ w)
same_version_iff v4 v4 = ground arith
same_version_iff v4 v6 = ground arith
same_version_iff v6 v4 = ground arith
same_version_iff v6 v6 = ground arith

same_version_of_overlaps : (a b : Network) → overlaps a b ≡ true → a.version ≡ b.version
unfolding overlaps
same_version_of_overlaps a b e = ground (arith, same_version_iff a.version b.version)

-- The larger of the two network addresses is shared.
shared_of_overlaps :
    (a b : Network)
    → IsNetwork a
    → IsNetwork b
    → overlaps a b ≡ true
    → (x : ℕ) × InNet x a × InNet x b
unfolding overlaps
shared_of_overlaps a b va vb e =
    let pa = num_addresses-pos a in
    let pb = num_addresses-pos b in
    let t1 = contains_iff b a.network_address vb in
    let t2 = contains_iff b (broadcast_address a) vb in
    let t3 = contains_iff a b.network_address va in
    let t4 = contains_iff a (broadcast_address b) va in
    (max a.network_address b.network_address, ground arith, ground arith)

-- Two networks overlap, by the four endpoint tests of `ipaddress`, exactly if they are of one
-- version and share an address.
pub overlaps_iff :
    (a b : Network)
    → IsNetwork a
    → IsNetwork b
    → (overlaps a b ≡ true) ↔ ((a.version ≡ b.version) × ((x : ℕ) × InNet x a × InNet x b))
unfolding overlaps
overlaps_iff a b va vb = (
  λ e. (same_version_of_overlaps a b e, shared_of_overlaps a b va vb e),
  λ e. ground (
    arith,
    same_version_iff a.version b.version,
    contains_iff b a.network_address vb,
    contains_iff a b.network_address va,
  ),
)

-- `a` is a subnet of `b` exactly if they are of one version and each address of `a` is one of `b`.
pub subnet_of_iff :
    (a b : Network)
    → (subnet_of a b ≡ some true) ↔ ((a.version ≡ b.version) × ((x : ℕ) → InNet x a → InNet x b))
unfolding subnet_of
subnet_of_iff a b =
    let pa = num_addresses-pos a in
    let pb = num_addresses-pos b in
    (
      λ e. (ground (arith, same_version_iff a.version b.version), λ x h. ground arith),
      λ e. ground (
        arith,
        same_version_iff a.version b.version,
        e.1 a.network_address,
        e.1 (broadcast_address a),
      ),
    )
