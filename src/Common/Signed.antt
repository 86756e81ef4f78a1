-- ===== src/Common/Signed.antt =====
-- The integers over the native numbers.
use Prim.Native.Nat.{ℕ, ◌-◌, ◌%◌, ◌^◌}
use mathlib.Core.Bool.{Bool, true, false}
use zbc_go.Common.Tests.{ltb, if◌then◌else◌}

pub data ℤ : Type 0 where
  pos negsuc : ℕ → ℤ

abbrev pub lt_int : ℤ → ℤ → Bool
lt_int (pos m) (pos n) = ltb m n
lt_int (pos m) (negsuc n) = false
lt_int (negsuc m) (pos n) = true
lt_int (negsuc m) (negsuc n) = ltb n m

-- The int32 of 32 bits.
abbrev pub int32_of_bits : ℕ → ℤ
int32_of_bits m = if ltb m (2 ^ 31) then pos m else negsuc (2 ^ 32 - 1 - m)

-- int32(n)
abbrev pub int32 : ℤ → ℤ
int32 (pos n) = int32_of_bits (n % 2 ^ 32)
int32 (negsuc n) = int32_of_bits (2 ^ 32 - 1 - n % 2 ^ 32)
