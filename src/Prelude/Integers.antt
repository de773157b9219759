-- ===== src/Prelude/Integers.antt =====
-- The integers over the native natural numbers, for what may be negative.
use Prim.Native.Nat.{ℕ, zero, suc}
use mathlib.Core.Bool.{Bool, true, false}
use vibe_alfa_gen.Prelude.Tests.{ltb}
use vibe_alfa_gen.Prelude.Equality.{nat_eq, ◌==◌}

pub data ℤ : Type 0 where
  pos : ℕ → ℤ
  negsuc : ℕ → ℤ

-- x > 0
abbrev pub is_positive : ℤ → Bool
is_positive (pos zero) = false
is_positive (pos (suc n)) = true
is_positive (negsuc n) = false

-- x < 0
abbrev pub is_negative : ℤ → Bool
is_negative (pos n) = false
is_negative (negsuc n) = true

-- x < y
abbrev pub is_less : ℤ → ℤ → Bool
is_less (pos m) (pos n) = ltb m n
is_less (pos m) (negsuc n) = false
is_less (negsuc m) (pos n) = true
is_less (negsuc m) (negsuc n) = ltb n m

abbrev pub same_integer : ℤ → ℤ → Bool
same_integer (pos m) (pos n) = m == n
same_integer (negsuc m) (negsuc n) = m == n
same_integer _ _ = false

-- The number, and 0 for a negative one.
abbrev pub to_nat : ℤ → ℕ
to_nat (pos n) = n
to_nat (negsuc n) = 0
