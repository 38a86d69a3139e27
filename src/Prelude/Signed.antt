-- ===== src/Prelude/Signed.antt =====
-- Go's signed integers, as far as the program compares them with bounds. Configured values stand
-- far inside the range of int32 and int64.
use Prim.Native.Nat.{ℕ, ◌-◌, ◌+◌}
use mathlib.Core.Bool.{Bool, false}
use k8_highlander.Prelude.Tests.{ltb, leb, if◌then◌else◌}

-- `negsuc n` is -1 - n.
pub data ℤ : Type 0 where
  pos : ℕ → ℤ
  negsuc : ℕ → ℤ

-- n < z
unfoldable pub exceeds : ℕ → ℤ → Bool
exceeds n (pos m) = ltb n m
exceeds n (negsuc m) = false

-- z == 0
unfoldable pub is_zero : ℤ → Bool
is_zero (pos m) = ltb m 1
is_zero (negsuc m) = false

-- a - b
unfoldable pub difference : ℕ → ℕ → ℤ
difference a b = if leb b a then pos (a - b) else negsuc (b - a - 1)

-- -z
unfoldable pub negate : ℤ → ℤ
negate (pos m) = difference 0 m
negate (negsuc m) = pos (m + 1)

-- n + z
unfoldable pub shift : ℕ → ℤ → ℤ
shift n (pos m) = pos (n + m)
shift n (negsuc m) = difference n (m + 1)
