-- ===== src/Base/Int.antt =====
-- Go's signed `int`, `int64` and durations where a negative value takes a branch of its own.
use Prim.Native.Nat.{ℕ}
use mathlib.Core.Bool.{Bool, true}
use digcore.Base.Tests.{leb}

-- `negsuc n` is -(n + 1).
pub data ℤ : Type 0 where
  pos : ℕ → ℤ
  negsuc : ℕ → ℤ

-- x <= 0
abbrev pub is_nonpos : ℤ → Bool
is_nonpos (pos n) = leb n 0
is_nonpos (negsuc n) = true

-- The value where it is not negative, and 0 elsewhere.
abbrev pub to_nat : ℤ → ℕ
to_nat (pos n) = n
to_nat (negsuc n) = 0

-- n >= x, for a number n that is not negative.
abbrev pub reaches : ℕ → ℤ → Bool
reaches n (pos m) = leb m n
reaches n (negsuc m) = true

-- time.Second, in nanoseconds
abbrev pub second : ℕ
second = 1000000000
