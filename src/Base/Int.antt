-- ===== src/Base/Int.antt =====
-- Signed integers over the native numbers, under the library's names: versions and durations.
use Prim.Native.Nat.{ℕ, suc, ◌+◌, ◌-◌, ◌*◌, ◌%◌, ◌≤◌}
use mathlib.Core.Bool.{Bool}
use curator_go.Base.Tests.{ltb, if◌then◌else◌}

-- `negsuc n` is -(n + 1).
pub data ℤ : Type 0 where
  pos : ℕ → ℤ
  negsuc : ℕ → ℤ

abbrev pub pos_part : ℤ → ℕ
pos_part (pos n) = n
pos_part (negsuc n) = 0

abbrev pub neg_part : ℤ → ℕ
neg_part (pos n) = 0
neg_part (negsuc n) = suc n

infix 50 ◌≤ℤ◌
abbrev pub ◌≤ℤ◌ : ℤ → ℤ → Type 0
a ≤ℤ b = pos_part a + neg_part b ≤ pos_part b + neg_part a

abbrev pub ltb_ℤ : ℤ → ℤ → Bool
ltb_ℤ a b = ltb (pos_part a + neg_part b) (pos_part b + neg_part a)

abbrev two_64 : ℕ
two_64 = 18446744073709551616

-- The int64 with this residue modulo 2^64.
abbrev pub int64_of : ℕ → ℤ
int64_of n =
    if ltb (n % two_64) 9223372036854775808
    then pos (n % two_64)
    else negsuc (two_64 - 1 - n % two_64)

-- The product of two int64 values, the second not negative, with the wrap of Go.
abbrev pub mul_int64 : ℤ → ℕ → ℤ
mul_int64 (pos a) b = int64_of (a * b)
mul_int64 (negsuc a) b = int64_of (two_64 - suc a * b % two_64)
