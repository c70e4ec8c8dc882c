-- ===== src/Ipam/Cidrs/Block.antt =====
-- The inner loop of `_address_range_to_cidrs`: the largest block that starts at an address.
use native.Mathlib.Decide.{dec_le}
use native.Mathlib.Nat.{pow-suc, pow-le-pow_right}
use net_soc_ops.Prelude.{
  ℕ, zero, suc, ◌+◌, ◌*◌, ◌/◌, ◌%◌, ◌^◌, ◌≤◌, ◌<◌, ◌≡◌, refl, ap, inl, inr, ◌&&◌, arith, leb, ◌==◌,
  Bool-cases,
}
use net_soc_ops.Ipam.Network.Laws.{pow-pos}
use net_soc_ops.Ipam.Cidrs.{bit_length, bit_length_from, grow, block_size}

-- `size` is the largest power of two that fits and is aligned at `addr`.
pub record IsBlock (addr remaining size : ℕ) : Type 0 where
  pub exponent : ℕ
  pub power : size ≡ 2 ^ exponent
  pub fits : size ≤ remaining
  pub aligned : addr % size ≡ 0
  pub largest : ¬ ((size * 2 ≤ remaining) × (addr % (size * 2) ≡ 0))

grow-IsBlock :
    (f addr remaining size k : ℕ)
    → size ≡ 2 ^ k
    → remaining < size + f
    → size ≤ remaining
    → addr % size ≡ 0
    → IsBlock addr remaining (grow f addr remaining size)
unfolding grow
grow-IsBlock zero addr remaining size k p enough fits aligned = absurd (omega arith)
grow-IsBlock (suc f) addr remaining size k p enough fits aligned =
    elim (Bool-cases (leb (size * 2) remaining && addr % (size * 2) == 0)) [
      | inl go ↦ rw go (
          grow-IsBlock f addr remaining (size * 2) (suc k) (omega (arith, pow-suc 2 k))
            (omega (arith, pow-pos k)) (ground arith) (ground arith))
      | inr stop ↦ rw stop (record {
        exponent = k;
        power = p;
        fits = fits;
        aligned = aligned;
        largest = λ h. ground arith;
      })
    ]

-- With addresses left, the loop ends by its test, at the largest block.
pub block_size-IsBlock :
    (addr remaining : ℕ) → 0 < remaining → IsBlock addr remaining (block_size addr remaining)
unfolding block_size
block_size-IsBlock addr remaining h =
    grow-IsBlock remaining addr remaining 1 0 refl (omega arith) (omega arith) (omega arith)

bit_length_from_pow : (f k : ℕ) → k < f → bit_length_from f (2 ^ k) ≡ suc k
unfolding bit_length_from
bit_length_from_pow zero k h = elim h [ ]
bit_length_from_pow (suc zero) zero h = refl
bit_length_from_pow (suc (suc f)) zero h = refl
bit_length_from_pow (suc f) (suc k) h =
    ground (arith, pow-pos k, pow-suc 2 k, bit_length_from_pow f k, ap (bit_length_from f) half)
  where
    half : 2 ^ suc k / 2 ≡ 2 ^ k
    half = omega (arith, pow-suc 2 k)

lt-pow : (k : ℕ) → k < 2 ^ k
lt-pow zero = omega arith
lt-pow (suc k) = omega (arith, pow-suc 2 k, lt-pow k)

pub bit_length_pow : (k : ℕ) → bit_length (2 ^ k) ≡ suc k
unfolding bit_length
bit_length_pow k = bit_length_from_pow (2 ^ k) k (lt-pow k)

pub le_of_pow-le-pow : (k m : ℕ) → 2 ^ k ≤ 2 ^ m → k ≤ m
le_of_pow-le-pow k m h = elim (dec_le k m) [
  | yes le ↦ le
  | no gt ↦ absurd (
      omega (
        arith,
        pow-le-pow_right {n = 2} (omega arith) {i = suc m} {j = k} (omega arith),
        pow-suc 2 m,
        pow-pos m,
      ))
]
