-- ===== src/Prelude/Int.antt =====
-- Integers over the native numbers, for `BigInt`.
use Prim.Native.Nat.{ℕ, ◌-◌, ◌/◌, ◌%◌}
use mathlib.Core.Bool.{Bool, false}
use zkredit.Prelude.Tests.{◌==◌}

-- `negsuc n` is -(n + 1).
pub data ℤ : Type 0 where
  pos : ℕ → ℤ
  negsuc : ℕ → ℤ

-- `n & 0xffn`, in two's complement.
abbrev pub low_byte : ℤ → ℕ
low_byte (pos n) = n % 256
low_byte (negsuc n) = 255 - n % 256

-- `n >> 8n`, rounding down.
abbrev pub shift_8 : ℤ → ℤ
shift_8 (pos n) = pos (n / 256)
shift_8 (negsuc n) = negsuc (n / 256)

abbrev pub is_zero : ℤ → Bool
is_zero (pos n) = n == 0
is_zero (negsuc n) = false
