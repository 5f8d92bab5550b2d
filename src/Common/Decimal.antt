-- ===== src/Common/Decimal.antt =====
-- `std::to_string` of a value that is not negative.
use Prim.Native.Nat.{ℕ, zero, suc, ◌+◌, ◌/◌, ◌%◌}
use mathlib.Core.Path.{◌≡◌, refl}
use mathlib.Core.Bool.{true, false}
use mathlib.Core.List.{[], ◌∷◌}
use native.Mathlib.Omega.{arith}
use star_base.Common.Ascii.{is_digit}
use star_base.Common.Lists.{all, is_empty}
use star_base.Common.Tests.{ltb}
use star_base.Common.Text.{Bytes, codes}

-- The digits of `n` before `out`; one round of fuel for each digit.
digits : ℕ → ℕ → Bytes → Bytes
digits zero n out = out
digits (suc f) n out = elim (ltb n 10) [
  | true ↦ (b'0' + n) ∷ out
  | false ↦ digits f (n / 10) ((b'0' + n % 10) ∷ out)
]

unfoldable pub decimal : ℕ → Bytes
unfolding digits
decimal n = digits (suc n) n []

digits-digits :
    (f n : ℕ) (out : Bytes) → all is_digit out ≡ true → all is_digit (digits f n out) ≡ true
unfolding digits is_digit
digits-digits zero n out h = h
digits-digits (suc f) n out h = ground (arith, digits-digits f (n / 10) ((b'0' + n % 10) ∷ out))

pub decimal-digits : (n : ℕ) → all is_digit (decimal n) ≡ true
unfolding decimal
decimal-digits n = digits-digits (suc n) n [] refl

digits-filled : (f n : ℕ) (out : Bytes) → is_empty out ≡ false → is_empty (digits f n out) ≡ false
unfolding digits
digits-filled zero n out h = h
digits-filled (suc f) n out h = ground (arith, digits-filled f (n / 10) ((b'0' + n % 10) ∷ out))

pub decimal-filled : (n : ℕ) → is_empty (decimal n) ≡ false
unfolding decimal digits
decimal-filled n = ground (arith, digits-filled n (n / 10) ((b'0' + n % 10) ∷ []))

decimal_224 : decimal 224 ≡ codes "224"
unfolding decimal
decimal_224 = refl
