-- ===== src/Prelude/Int.antt =====
-- Signed integers over the native numbers: the values of C's `int`, `ssize_t` and `off_t`.
use Prim.Native.Nat.{ℕ}
use workload.Prelude.Tests.{ltb, ◌==◌}
use mathlib.Core.Bool.{Bool, false}

-- `negsuc n` is -(n + 1).
pub data ℤ : Type 0 where
  pos : ℕ → ℤ
  negsuc : ℕ → ℤ

-- `z > 0`
abbrev pub is_pos : ℤ → Bool
is_pos (pos n) = ltb 0 n
is_pos (negsuc n) = false

-- `(unsigned)z` where `z` is known not to be negative
abbrev pub to_nat : ℤ → ℕ
to_nat (pos n) = n
to_nat (negsuc n) = 0

abbrev pub minus_one : ℤ
minus_one = negsuc 0

-- `z == -1`
abbrev pub is_minus_one : ℤ → Bool
is_minus_one (pos n) = false
is_minus_one (negsuc n) = n == 0
