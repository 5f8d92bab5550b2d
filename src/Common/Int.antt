-- ===== src/Common/Int.antt =====
-- Signed integers, and `std::to_string` of them.
use Prim.Native.Nat.{ℕ, suc, ◌≤◌, ◌+◌, ◌-◌, ◌%◌}
use mathlib.Core.List.{◌∷◌}
use mathlib.Core.Path.{◌≡◌}
use native.Mathlib.Omega.{arith}
use star_base.Common.Tests.{ltb, leb, if◌then◌else◌}
use star_base.Common.Text.{Bytes}
use star_base.Common.Decimal.{decimal}

-- `negsuc n` is -(n + 1).
pub data ℤ : Type 0 where
  pos : ℕ → ℤ
  negsuc : ℕ → ℤ

abbrev pub pos_part : ℤ → ℕ
pos_part (pos n) = n
pos_part (negsuc n) = 0

abbrev pub neg_part : ℤ → ℕ
neg_part (pos n) = 0
neg_part (negsuc n) = suc n

infix 50 ◌≤ℤ◌
abbrev pub ◌≤ℤ◌ : ℤ → ℤ → Type 0
a ≤ℤ b = pos_part a + neg_part b ≤ pos_part b + neg_part a

unfoldable pub decimal_int : ℤ → Bytes
unfolding decimal
decimal_int (pos n) = decimal n
decimal_int (negsuc n) = b'-' ∷ decimal (suc n)

unfoldable pub sub_nat : ℕ → ℕ → ℤ
sub_nat a b = if leb b a then pos (a - b) else negsuc (b - a - 1)

infixl 65 ◌+ℤ◌
unfoldable pub ◌+ℤ◌ : ℤ → ℤ → ℤ
unfolding sub_nat
a +ℤ b = sub_nat (pos_part a + pos_part b) (neg_part a + neg_part b)

-- The 32 bits of a number, as an `int`.
unfoldable pub int_of_bits : ℕ → ℤ
int_of_bits n =
    let m = n % 4294967296 in if ltb m 2147483648 then pos m else negsuc (4294967295 - m)

-- `static_cast<int>` of a `long`: -(n + 1) has the bits of 2 ^ 32 - 1 - n.
unfoldable pub int_of_long : ℤ → ℤ
unfolding int_of_bits
int_of_long (pos n) = int_of_bits n
int_of_long (negsuc n) = int_of_bits (4294967295 - n % 4294967296)

-- What `omega` needs to know of a sum.
pub +ℤ_parts :
    (a b : ℤ)
    → pos_part (a +ℤ b) + neg_part a + neg_part b ≡ neg_part (a +ℤ b) + pos_part a + pos_part b
unfolding ◌+ℤ◌ sub_nat
+ℤ_parts a b = ground arith

pub eq_of_parts : (a b : ℤ) → pos_part a + neg_part b ≡ pos_part b + neg_part a → a ≡ b
eq_of_parts a b h = ground arith
