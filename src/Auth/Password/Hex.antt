-- ===== src/Auth/Password/Hex.antt =====
-- The hexadecimal text of src/auth/password.cpp.
use star_base.Auth.Password.{
  to_hex, from_hex, from_pairs, hex_digit, hex_byte, hex_value, two_digits,
}
use star_base.Common.Below.{all_below, all_below_sound}
use star_base.Common.{
  ℕ, ◌+◌, ◌*◌, ◌/◌, ◌%◌, ◌<◌, ◌≡◌, refl, false, ◌||◌, some, [], ◌∷◌, arith, ltb, ◌==◌,
  if◌then◌else◌, ==→eq, length, All, Bytes,
}
use star_base.Common.Ascii.{is_space, is_digit}

digit_char : ℕ → ℕ
digit_char n = if ltb n 10 then n + 48 else n + 87

hex_digit-char : (n : ℕ) → n < 16 → hex_digit n ≡ digit_char n
unfolding all_below hex_digit digit_char
hex_digit-char n h =
    ==→eq (hex_digit n) (digit_char n)
      (all_below_sound (λ k. hex_digit k == digit_char k) 16 n refl h)

hex_value-char : (n : ℕ) → n < 16 → hex_value (digit_char n) ≡ some n
unfolding hex_value digit_char is_digit
hex_value-char n h = ground arith

char-plain :
    (n : ℕ)
    → n < 16
    → ((is_space (digit_char n) || digit_char n == b'+') ≡ false) × ((digit_char n == b'-') ≡ false)
unfolding digit_char is_space
char-plain n h = (ground arith, ground arith)

hex_byte-digits : (c : ℕ) → c < 256 → hex_byte (hex_digit (c / 16)) (hex_digit (c % 16)) ≡ some c
unfolding hex_byte two_digits
hex_byte-digits c h =
    rw (hex_digit-char (c / 16) (omega arith), hex_digit-char (c % 16) (omega arith))
      (ground (
        arith,
        char-plain (c / 16) (omega arith),
        hex_value-char (c / 16) (omega arith),
        hex_value-char (c % 16) (omega arith),
      ))

from_pairs-to_hex : (s : Bytes) → All (λ c. c < 256) s → from_pairs (to_hex s) ≡ some s
unfolding from_pairs to_hex
from_pairs-to_hex [] h = refl
from_pairs-to_hex (c ∷ s) (h, hs) = ground (arith, hex_byte-digits c h, from_pairs-to_hex s hs)

pub length-to_hex : (s : Bytes) → length (to_hex s) ≡ 2 * length s
unfolding to_hex
length-to_hex [] = refl
length-to_hex (c ∷ s) = omega (arith, length-to_hex s)

-- Bytes written as hexadecimal text are read back as they were.
pub from_hex-to_hex : (s : Bytes) → All (λ c. c < 256) s → from_hex (to_hex s) ≡ s
unfolding from_hex
from_hex-to_hex s h = ground (arith, length-to_hex s, from_pairs-to_hex s h)
