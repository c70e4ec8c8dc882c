-- ===== src/Prelude/Int.antt =====
-- Python's integers, as far as the program stores and compares them.
use Prim.Native.Nat.{ℕ}
use mathlib.Core.Bool.{Bool, false}
use net_soc_ops.Prelude.Tests.{◌==◌}

-- `negsuc n` is -(n + 1).
pub data ℤ : Type 0 where
  pos : ℕ → ℤ
  negsuc : ℕ → ℤ

-- A key, which is a natural number, against any integer.
abbrev pub is_key : ℤ → ℕ → Bool
is_key (pos n) key = n == key
is_key (negsuc n) key = false
