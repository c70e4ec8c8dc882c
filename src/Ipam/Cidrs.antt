-- ===== src/Ipam/Cidrs.antt =====
-- `_address_range_to_cidrs` of netops-backend/routes/ipam_router.py. Addresses are numbers.
pub mod Block
pub mod Tiling
use net_soc_ops.Prelude.{
  ℕ, zero, suc, ◌+◌, ◌-◌, ◌*◌, ◌/◌, ◌%◌, ◌&&◌, List, [], ◌∷◌, ltb, leb, ◌==◌, if◌then◌else◌,
}
use net_soc_ops.Ipam.Network.{Network, v4, network_of}

-- `int.bit_length`, with fuel.
bit_length_from : ℕ → ℕ → ℕ
bit_length_from zero n = 0
bit_length_from (suc f) n = let rest = suc (bit_length_from f (n / 2)) in if n == 0 then 0 else rest

-- The fuel is the number itself.
unfoldable pub bit_length : ℕ → ℕ
unfolding bit_length_from
bit_length n = bit_length_from n n

-- `while size * 2 <= remaining and addr % (size * 2) == 0: size *= 2`, with fuel.
grow : ℕ → ℕ → ℕ → ℕ → ℕ
grow zero addr remaining size = size
grow (suc f) addr remaining size =
    let rest = grow f addr remaining (size * 2) in
    if leb (size * 2) remaining && addr % (size * 2) == 0 then rest else size

-- The size of the next block. It doubles in each round, so `remaining` rounds are enough.
unfoldable pub block_size : ℕ → ℕ → ℕ
unfolding grow
block_size addr remaining = grow remaining addr remaining 1

-- `while addr <= end_int`, with fuel.
cidrs_from : ℕ → ℕ → ℕ → List Network
unfolding bit_length block_size network_of
cidrs_from zero addr end_int = []
cidrs_from (suc f) addr end_int =
    let size = block_size addr (end_int - addr + 1) in
    let net = network_of v4 addr (33 - bit_length size) in
    let rest = net ∷ cidrs_from f (addr + size) end_int in if leb addr end_int then rest else []

-- Each round takes an address at least, so the number of addresses is fuel enough.
unfoldable pub address_range_to_cidrs : ℕ → ℕ → List Network
unfolding cidrs_from
address_range_to_cidrs start end =
    if ltb end start then [] else cidrs_from (end - start + 1) start end
