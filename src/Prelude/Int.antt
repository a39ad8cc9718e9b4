-- ===== src/Prelude/Int.antt =====
-- Signed integers over the native numbers, and Go's `int64` with its wrap-around.
use Prim.Native.Nat.{ℕ, suc, ◌+◌, ◌-◌, ◌≤◌}
use mathlib.Core.Bool.{Bool}
use distributed_payment_mana.Prelude.Tests.{ltb, leb, if◌then◌else◌}

-- `negsuc n` is -(n + 1).
pub data ℤ : Type 0 where
  pos : ℕ → ℤ
  negsuc : ℕ → ℤ

abbrev pub pos_part : ℤ → ℕ
pos_part (pos n) = n
pos_part (negsuc n) = 0

abbrev pub neg_part : ℤ → ℕ
neg_part (pos n) = 0
neg_part (negsuc n) = suc n

-- a - b, as an integer.
abbrev pub sub_ℕ : ℕ → ℕ → ℤ
sub_ℕ a b = if leb b a then pos (a - b) else negsuc (b - a - 1)

infixl 65 ◌+ℤ◌ ◌-ℤ◌
infix 50 ◌≤ℤ◌
unfoldable pub ◌+ℤ◌ : ℤ → ℤ → ℤ
a +ℤ b = sub_ℕ (pos_part a + pos_part b) (neg_part a + neg_part b)

unfoldable pub ◌-ℤ◌ : ℤ → ℤ → ℤ
a -ℤ b = sub_ℕ (pos_part a + neg_part b) (neg_part a + pos_part b)

abbrev pub ◌≤ℤ◌ : ℤ → ℤ → Type 0
a ≤ℤ b = pos_part a + neg_part b ≤ pos_part b + neg_part a

abbrev pub ltb_ℤ : ℤ → ℤ → Bool
ltb_ℤ a b = ltb (pos_part a + neg_part b) (pos_part b + neg_part a)

abbrev pub leb_ℤ : ℤ → ℤ → Bool
leb_ℤ a b = leb (pos_part a + neg_part b) (pos_part b + neg_part a)

abbrev pub max_int64 : ℕ
max_int64 = 9223372036854775807

-- The value of a 64-bit sum: one turn of 2 ^ 64 brings back what lies outside the range.
abbrev pub wrap64 : ℤ → ℤ
wrap64 (pos n) = if leb n max_int64 then pos n else sub_ℕ n 18446744073709551616
wrap64 (negsuc n) = if leb n max_int64 then negsuc n else sub_ℕ 18446744073709551615 n

-- Go's `+` and `-` on `int64`.
infixl 65 ◌+i64◌ ◌-i64◌
unfoldable pub ◌+i64◌ : ℤ → ℤ → ℤ
unfolding ◌+ℤ◌
a +i64 b = wrap64 (a +ℤ b)

unfoldable pub ◌-i64◌ : ℤ → ℤ → ℤ
unfolding ◌-ℤ◌
a -i64 b = wrap64 (a -ℤ b)

-- The values of the Go type `int64`.
abbrev pub IsInt64 : ℤ → Type 0
IsInt64 a = (pos_part a ≤ max_int64) × (neg_part a ≤ suc max_int64)
