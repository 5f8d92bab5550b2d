-- ===== src/Auth/Password.antt =====
-- src/auth/password.cpp: hexadecimal text, hashing and verification. PBKDF2 and the random source are
-- the cryptography library's: they are arguments.
pub mod Bits
pub mod Hex
pub mod Verify
pub mod Examples
use Prim.Native.Nat.{bit_or, bit_xor}
use star_base.Common.{
  ℕ, suc, ◌+◌, ◌-◌, ◌*◌, ◌/◌, ◌%◌, Bool, true, false, not, ◌&&◌, ◌||◌, Option, none, some, [], ◌∷◌,
  ltb, leb, ◌==◌, if◌then◌else◌, ◌>>=◌, value_or, length, is_empty, get_elem?, Bytes, codes,
}
use star_base.Common.Ascii.{is_space, is_digit}
use star_base.Common.Int.{ℤ, pos, negsuc}

abbrev iterations_default : ℕ
iterations_default = 120000

abbrev salt_len : ℕ
salt_len = 16

abbrev hash_len : ℕ
hash_len = 32

hex_digit : ℕ → ℕ
hex_digit n = value_or (get_elem? (codes "0123456789abcdef") n) 0

pub to_hex : Bytes → Bytes
unfolding hex_digit
to_hex [] = []
to_hex (c ∷ s) = hex_digit (c / 16) ∷ hex_digit (c % 16) ∷ to_hex s

-- The value of a digit, as `std::stoi` reads base 16.
hex_value : ℕ → Option ℕ
unfolding is_digit
hex_value c =
    if is_digit c
    then some (c - b'0')
    else if leb b'a' c && leb c b'f'
    then some (c - b'a' + 10)
    else if leb b'A' c && leb c b'F'
    then some (c - b'A' + 10)
    else none

negated : Option ℕ → Option ℕ
negated none = none
negated (some n) = some ((256 - n) % 256)

two_digits : Option ℕ → Option ℕ → Option ℕ
two_digits none l = none
two_digits (some h) none = some h
two_digits (some h) (some l) = some (16 * h + l)

-- `static_cast<unsigned char>(std::stoi(s, nullptr, 16))` of a text of two bytes; `none` where it throws.
-- It skips a space, takes a sign, and stops at a byte that is no digit, the `x` of `0x` among them.
hex_byte : ℕ → ℕ → Option ℕ
unfolding hex_value is_space negated two_digits
hex_byte c d =
    if is_space c || c == b'+'
    then hex_value d
    else if c == b'-'
    then negated (hex_value d)
    else two_digits (hex_value c) (hex_value d)

-- The loop of `from_hex`; `none` where a pair throws.
from_pairs : Bytes → Option Bytes
unfolding hex_byte
from_pairs [] = some []
from_pairs (c ∷ []) = some []
from_pairs (c ∷ d ∷ s) = do b ← hex_byte c d; r ← from_pairs s; some (b ∷ r)

pub from_hex : Bytes → Bytes
unfolding from_pairs
from_hex s = if not (length s % 2 == 0) then [] else value_or (from_pairs s) []

-- A derivation's arguments are the password, the salt, the iterations and the length; it throws where it
-- has no result. The random source answers with a text of the length asked for, or not at all.
pub record Crypto : Type 0 where
  pub pbkdf2 : Bytes → Bytes → ℕ → ℕ → Option Bytes
  pub rand_bytes : ℕ → Option Bytes

pub record Hashed : Type 0 where
  pub salt_hex : Bytes
  pub hash_hex : Bytes
  pub iterations : ℤ

-- `diff |= actual[i] ^ expected[i]`.
diff_loop : ℕ → Bytes → Bytes → ℕ
diff_loop diff (a ∷ xs) (e ∷ es) = diff_loop (bit_or diff (bit_xor a e)) xs es
diff_loop diff [] es = diff
diff_loop diff (a ∷ xs) [] = diff

pub matches : Bytes → Bytes → Bool
unfolding diff_loop
matches actual expected =
    if not (length actual == length expected) then false else diff_loop 0 actual expected == 0

module _ (crypto : Crypto) where
  -- `none` where the code throws.
  unfoldable pub hash_password : Bytes → Option Hashed
  unfolding to_hex
  hash_password password = do
    salt ← crypto.rand_bytes salt_len
    hash ← crypto.pbkdf2 password salt iterations_default hash_len
    some (record {
      salt_hex = to_hex salt;
      hash_hex = to_hex hash;
      iterations = pos iterations_default;
    })

  pub verify_password : Bytes → Bytes → Bytes → ℤ → Option Bool
  unfolding from_hex matches
  verify_password password salt_hex hash_hex (negsuc n) = some false
  verify_password password salt_hex hash_hex (pos iterations) =
      let salt = from_hex salt_hex in
      let expected = from_hex hash_hex in
      elim (ltb iterations 1 || (is_empty salt || is_empty expected)) [
        | true ↦ some false
        | false ↦ do
          actual ← crypto.pbkdf2 password salt iterations (length expected)
          some (matches actual expected)
      ]

  pub random_hex : ℕ → Option Bytes
  unfolding to_hex
  random_hex nbytes = do b ← crypto.rand_bytes nbytes; some (to_hex b)
