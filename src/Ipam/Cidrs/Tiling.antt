-- ===== src/Ipam/Cidrs/Tiling.antt =====
-- The blocks of `_address_range_to_cidrs` cover the range, each address once.
use native.Mathlib.Decide.{dec_le, dec_lt}
use net_soc_ops.Prelude.{
  ℕ, zero, suc, ◌+◌, ◌-◌, ◌%◌, ◌^◌, ◌≤◌, ◌<◌, ◌≡◌, ◌∙◌, sym, ◌↔◌, ◌⊎◌, inl, inr, refl, ap, leb,
  leb_iff, Bool-cases, List, [], ◌∷◌, arith,
}
use net_soc_ops.Ipam.Network.{Network, v4, num_addresses, network_of, IsNetwork}
use net_soc_ops.Ipam.Network.Laws.{InNet, pow-pos}
use net_soc_ops.Ipam.Cidrs.{bit_length, block_size, cidrs_from, address_range_to_cidrs}
use net_soc_ops.Ipam.Cidrs.Block.{IsBlock, block_size-IsBlock, bit_length_pow, le_of_pow-le-pow}

-- IPv4 networks, one after another, that take the addresses from `low` up to, not with, `high`.
abbrev pub Tiles : ℕ → ℕ → List Network → Type 0
Tiles low high [] = low ≡ high
Tiles low high (n ∷ ns) =
    (n.network_address ≡ low)
    × (n.version ≡ v4)
    × IsNetwork n
    × Tiles (low + num_addresses n) high ns

pub record IsBlockNet (addr size : ℕ) (n : Network) : Type 0 where
  pub address : n.network_address ≡ addr
  pub version : n.version ≡ v4
  pub size_eq : num_addresses n ≡ size
  pub valid : IsNetwork n

-- The network that is built from a block is the block.
block_net :
    (addr remaining size : ℕ)
    → IsBlock addr remaining size
    → addr + remaining ≤ 2 ^ 32
    → IsBlockNet addr size (network_of v4 addr (33 - bit_length size))
unfolding network_of
block_net addr remaining size b room =
    let small : b.exponent ≤ 32 = le_of_pow-le-pow b.exponent 32 (omega arith) in
    let bits : bit_length size ≡ suc b.exponent =
      ap bit_length b.power ∙ bit_length_pow b.exponent in
    let len : 32 - (33 - bit_length size) ≡ b.exponent = omega arith in
    let same : 2 ^ (32 - (33 - bit_length size)) ≡ size = ap (λ k. 2 ^ k) len ∙ sym b.power in
    let start : addr - addr % 2 ^ (32 - (33 - bit_length size)) ≡ addr = rw same (omega arith) in
    record {
      address = start;
      version = refl;
      size_eq = same;
      valid = record {
        len_fits = omega arith;
        aligned = rw (start, same) b.aligned;
        in_space = omega arith;
      };
    }

cidrs_from-Tiles :
    (f addr end : ℕ)
    → addr ≤ end + 1
    → end < 2 ^ 32
    → end + 1 ≤ addr + f
    → Tiles addr (end + 1) (cidrs_from f addr end)
unfolding cidrs_from
cidrs_from-Tiles zero addr end h room enough = omega arith
cidrs_from-Tiles (suc f) addr end h room enough = elim (Bool-cases (leb addr end)) [
  | inr done ↦ rw done (ground arith)
  | inl more ↦
      let le = (leb_iff addr end).0 more in
      let block = block_size-IsBlock addr (end - addr + 1) (omega arith) in
      let net = block_net addr (end - addr + 1) _ block (omega arith) in
      let pos = pow-pos block.exponent in
      rw more (
        net.address,
        net.version,
        net.valid,
        rw net.size_eq (
            cidrs_from-Tiles f (addr + block_size addr (end - addr + 1)) end (omega arith) room
              (omega arith)),
      )
]

-- For any IPv4 range that is not empty, the loop ends with networks that take the addresses from
-- the first to the last one after another, with no gap and no overlap.
pub address_range_to_cidrs-Tiles :
    (start end : ℕ)
    → start ≤ end
    → end < 2 ^ 32
    → Tiles start (end + 1) (address_range_to_cidrs start end)
unfolding address_range_to_cidrs
address_range_to_cidrs-Tiles start end h room =
    let tiles = cidrs_from-Tiles (end - start + 1) start end (omega arith) room (omega arith) in
    ground arith

-- An empty range gives no network.
pub address_range_to_cidrs-nil :
    (start end : ℕ) → end < start → address_range_to_cidrs start end ≡ []
unfolding address_range_to_cidrs
address_range_to_cidrs-nil start end h = ground arith

-- `address` lies in one of the networks.
abbrev pub InSome : ℕ → List Network → Type 0
InSome address [] = ⊥
InSome address (n ∷ ns) = InNet address n ⊎ InSome address ns

Tiles-le : (low high : ℕ) (ns : List Network) → Tiles low high ns → low ≤ high
Tiles-le low high [] t = omega arith
Tiles-le low high (n ∷ ns) (_, _, _, t) = omega (arith, Tiles-le (low + num_addresses n) high ns t)

Tiles-InSome :
    (address low high : ℕ) (ns : List Network)
    → Tiles low high ns
    → InSome address ns ↔ ((low ≤ address) × (address < high))
Tiles-InSome address low high [] t = (λ h. absurd h, λ h. omega arith)
Tiles-InSome address low high (n ∷ ns) (e, _, _, t) =
    let ih = Tiles-InSome address (low + num_addresses n) high ns t in
    let le = Tiles-le (low + num_addresses n) high ns t in
    (
      λ h. elim h [
        | inl here ↦ (omega arith, omega arith)
        | inr there ↦ let (lo, hi) = ih.0 there in (omega arith, omega arith)
      ],
      λ h. elim (dec_lt address (low + num_addresses n)) [
        | yes here ↦ inl (omega arith, omega arith)
        | no there ↦ inr (ih.1 (omega arith, omega arith))
      ],
    )

-- An address lies in one of the networks exactly if it lies in the range.
pub address_range_to_cidrs-InSome :
    (start end address : ℕ)
    → end < 2 ^ 32
    → InSome address (address_range_to_cidrs start end) ↔ ((start ≤ address) × (address ≤ end))
address_range_to_cidrs-InSome start end address room = elim (dec_le start end) [
  | yes h ↦
      let t =
        Tiles-InSome address start (end + 1) _ (address_range_to_cidrs-Tiles start end h room) in
      (λ e. let (lo, hi) = t.0 e in (lo, omega arith), λ e. t.1 (e.0, omega arith))
  | no h ↦ rw (address_range_to_cidrs-nil start end (omega arith)) (λ e. absurd e, λ e. omega arith)
]
