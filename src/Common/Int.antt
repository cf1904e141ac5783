-- ===== src/Common/Int.antt =====
-- Go's `int` where the code tests its sign. The values here are small configuration numbers, so no
-- wrap-around is modelled.
use Prim.Native.Nat.{ℕ, zero, suc}
use mathlib.Core.Bool.{Bool, true, false}

-- `negsuc n` is -(n + 1).
pub data ℤ : Type 0 where
  pos : ℕ → ℤ
  negsuc : ℕ → ℤ

-- n > 0
abbrev pub is_positive : ℤ → Bool
is_positive (pos (suc n)) = true
is_positive (pos zero) = false
is_positive (negsuc n) = false

-- n < 0
abbrev pub is_negative : ℤ → Bool
is_negative (pos n) = false
is_negative (negsuc n) = true

-- n == 0
abbrev pub is_zero : ℤ → Bool
is_zero (pos (suc n)) = false
is_zero (pos zero) = true
is_zero (negsuc n) = false

-- max(n, 0)
abbrev pub nat_of : ℤ → ℕ
nat_of (pos n) = n
nat_of (negsuc n) = 0
