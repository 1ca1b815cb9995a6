-- ===== src/Base/Ints.antt =====
-- Go's signed integers, as far as the program reads them from its configuration.
use Prim.Native.Nat.{ℕ, zero, suc}
use mathlib.Core.Bool.{Bool, true, false}

-- `negsuc n` is -(n + 1).
pub data ℤ : Type 0 where
  pos : ℕ → ℤ
  negsuc : ℕ → ℤ

-- The value if it is positive, else the default: Go's `if x <= 0 { x = d }`.
abbrev pub positive_or : ℕ → ℤ → ℕ
positive_or d (pos zero) = d
positive_or d (pos (suc n)) = suc n
positive_or d (negsuc n) = d

-- The value unless it is negative: Go's `if x < 0 { x = d }`.
abbrev pub nonnegative_or : ℕ → ℤ → ℕ
nonnegative_or d (pos n) = n
nonnegative_or d (negsuc n) = d

abbrev pub is_zero : ℤ → Bool
is_zero (pos zero) = true
is_zero (pos (suc n)) = false
is_zero (negsuc n) = false

abbrev pub is_positive : ℤ → Bool
is_positive (pos zero) = false
is_positive (pos (suc n)) = true
is_positive (negsuc n) = false
