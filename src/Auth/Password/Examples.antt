-- ===== src/Auth/Password/Examples.antt =====
-- Examples for src/auth/password.cpp.
use star_base.Auth.Password.{Crypto, hash_password, verify_password, Hashed, to_hex, from_hex}
use star_base.Auth.Password.Verify.{IsSound, Accepts, verify_password_iff, verify-hash}
use star_base.Auth.Password.Hex.{from_hex-to_hex}
use star_base.Common.{
  ℕ, zero, suc, ◌%◌, ◌<◌, ◌≡◌, refl, subst, ◌↔◌, true, some, [], ◌∷◌, arith, length, All, Bytes,
  codes,
}
use star_base.Common.Int.{pos}

abbrev four_bytes : Bytes
four_bytes = 0 ∷ 175 ∷ 16 ∷ 255 ∷ []

from_hex-to_hex_example : from_hex (to_hex four_bytes) ≡ four_bytes
from_hex-to_hex_example = from_hex-to_hex four_bytes (ground arith)

-- `std::stoi` skips a space, takes a sign and stops at a byte that is no digit.
odd_digits_test : from_hex (codes " a-10x") ≡ 10 ∷ 255 ∷ 0 ∷ []
unfolding from_hex
odd_digits_test = refl

-- A key is made of the length of the password.
abbrev repeated : ℕ → ℕ → Bytes
repeated c zero = []
repeated c (suc n) = c ∷ repeated c n

abbrev toy : Crypto
toy = record {
  pbkdf2 = λ password salt n len. some (repeated (length password % 256) len);
  rand_bytes = λ len. some (repeated 7 len);
}

length-repeated : (c n : ℕ) → length (repeated c n) ≡ n
length-repeated c zero = refl
length-repeated c (suc n) = omega (arith, length-repeated c n)

repeated-bytes : (c n : ℕ) → c < 256 → All (λ c. c < 256) (repeated c n)
repeated-bytes c zero h = tt
repeated-bytes c (suc n) h = (h, repeated-bytes c n h)

toy-IsSound : IsSound toy
toy-IsSound = record {
  derived_length = λ password salt n len out e.
      subst (λ x. length x ≡ len) (cc e) (length-repeated (length password % 256) len);
  derived_bytes = λ password salt n len out e.
      subst (λ x. All (λ c. c < 256) x) (cc e)
        (repeated-bytes (length password % 256) len (omega arith));
  random_length = λ len out e. subst (λ x. length x ≡ len) (cc e) (length-repeated 7 len);
  random_bytes =
      λ len out e. subst (λ x. All (λ c. c < 256) x) (cc e) (repeated-bytes 7 len (omega arith));
}

abbrev stored : Hashed
stored = record {
  salt_hex = to_hex (repeated 7 16);
  hash_hex = to_hex (repeated 6 32);
  iterations = pos 120000;
}

hash_secret : hash_password toy (codes "secret") ≡ some stored
unfolding hash_password
hash_secret = refl

verify-hash_example :
    verify_password toy (codes "secret") stored.salt_hex stored.hash_hex stored.iterations
    ≡ some true
verify-hash_example = verify-hash toy toy-IsSound (codes "secret") stored hash_secret

verify_password_iff_example :
    (verify_password toy (codes "other") (codes "07") (codes "06") (pos 1) ≡ some true)
    ↔ Accepts toy (codes "other") (codes "07") (codes "06") 1
verify_password_iff_example = verify_password_iff toy (codes "other") (codes "07") (codes "06") 1
