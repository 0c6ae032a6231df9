-- ===== src/Prelude/Integers.antt =====
-- Go's signed integers: a value, and the wrap-around of int64.
use Prim.Native.Nat.{ℕ, zero, suc, ◌-◌, ◌*◌, ◌%◌}
use cogni_gate.Prelude.Tests.{ltb, if◌then◌else◌}

pub data ℤ : Type 0 where
  pos : ℕ → ℤ
  negsuc : ℕ → ℤ

abbrev pub two_to_63 : ℕ
two_to_63 = 9223372036854775808

abbrev pub two_to_64 : ℕ
two_to_64 = 18446744073709551616

wrap_pos : ℕ → ℤ
wrap_pos r = if ltb r two_to_63 then pos r else negsuc (two_to_64 - 1 - r)

wrap_neg : ℕ → ℤ
wrap_neg r = if ltb r two_to_63 then negsuc r else pos (two_to_64 - 1 - r)

-- The int64 congruent to an integer.
unfoldable pub int64 : ℤ → ℤ
unfolding wrap_pos wrap_neg
int64 (pos n) = wrap_pos (n % two_to_64)
int64 (negsuc n) = wrap_neg (n % two_to_64)

-- The product with a natural number.
unfoldable pub scale : ℤ → ℕ → ℤ
scale (pos n) m = pos (n * m)
scale (negsuc n) zero = pos zero
scale (negsuc n) (suc m) = negsuc (suc n * suc m - 1)
