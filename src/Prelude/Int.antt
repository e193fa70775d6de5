-- ===== src/Prelude/Int.antt =====
-- Integers over the native numbers, for the counts that can fall below zero.
use Prim.Native.Nat.{ℕ, suc, ◌-◌}
use subscription_be.Prelude.Tests.{leb, if◌then◌else◌}

-- `negsuc n` is -(n + 1)
pub data ℤ : Type 0 where
  pos : ℕ → ℤ
  negsuc : ℕ → ℤ

abbrev pub pos_part : ℤ → ℕ
pos_part (pos n) = n
pos_part (negsuc n) = 0

abbrev pub neg_part : ℤ → ℕ
neg_part (pos n) = 0
neg_part (negsuc n) = suc n

-- a - b, as an integer
abbrev pub sub_ℕ : ℕ → ℕ → ℤ
sub_ℕ a b = if leb b a then pos (a - b) else negsuc (b - a - 1)

-- `UNLIMITED_QUOTA` is written as -1
abbrev pub minus_one : ℤ
minus_one = negsuc 0
