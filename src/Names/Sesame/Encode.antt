-- ===== src/Names/Sesame/Encode.antt =====
-- Percent-encoding in src/names/sesame.cpp.
use star_base.Common.Below.{all_below, all_below_sound}
use star_base.Names.Sesame.{url_encode, unreserved, hex_digit}
use star_base.Common.{
  ℕ, ◌+◌, ◌-◌, ◌*◌, ◌/◌, ◌%◌, ◌<◌, ◌≡◌, refl, ap, ◌∙◌, inl, inr, true, false, [], ◌∷◌, arith, ltb,
  ◌==◌, if◌then◌else◌, ==→eq, Bool-cases, All, Bytes,
}
use star_base.Common.Ascii.{is_digit, is_upper, is_lower, is_alpha, is_alnum}

hex_value : ℕ → ℕ
hex_value c = if ltb c 65 then c - 48 else c - 55

-- How a server reads a query: a percent sign and two digits are a byte.
pub url_decode : Bytes → Bytes
unfolding hex_value
url_decode [] = []
url_decode (c ∷ []) = c ∷ []
url_decode (c ∷ d ∷ []) = c ∷ d ∷ []
url_decode (c ∷ d ∷ e ∷ s) = elim (c == b'%') [
  | true ↦ (16 * hex_value d + hex_value e) ∷ url_decode s
  | false ↦ c ∷ url_decode (d ∷ e ∷ s)
]

url_decode-plain : (c : ℕ) (s : Bytes) → (c == b'%') ≡ false → url_decode (c ∷ s) ≡ c ∷ url_decode s
unfolding url_decode
url_decode-plain c [] h = refl
url_decode-plain c (d ∷ []) h = refl
url_decode-plain c (d ∷ e ∷ s) h = ground (arith, h)

hex_char : ℕ → ℕ
hex_char n = if ltb n 10 then n + 48 else n + 55

hex_digit-char : (n : ℕ) → n < 16 → hex_digit n ≡ hex_char n
unfolding all_below hex_digit hex_char
hex_digit-char n h =
    ==→eq (hex_digit n) (hex_char n) (all_below_sound (λ k. hex_digit k == hex_char k) 16 n refl h)

hex_value-digit : (n : ℕ) → n < 16 → hex_value (hex_digit n) ≡ n
unfolding hex_value hex_char
hex_value-digit n h = rw (hex_digit-char n h) (ground arith)

unreserved-plain : (c : ℕ) → unreserved c ≡ true → (c == b'%') ≡ false
unfolding unreserved is_alnum is_alpha is_upper is_lower is_digit
unreserved-plain c h = ground (arith, h)

-- A server that decodes the query gets the name as it was given, whatever bytes it holds.
pub url_decode-url_encode : (s : Bytes) → All (λ c. c < 256) s → url_decode (url_encode s) ≡ s
unfolding url_encode url_decode
url_decode-url_encode [] h = refl
url_decode-url_encode (c ∷ s) (lt, h) = elim (Bool-cases (unreserved c)) [
  | inl e ↦ rw e (
      url_decode-plain c (url_encode s) (unreserved-plain c e)
      ∙ ap (λ t. c ∷ t) (url_decode-url_encode s h))
  | inr e ↦
      rw
        (
          e,
          hex_value-digit (c / 16) (omega arith),
          hex_value-digit (c % 16) (omega arith),
          url_decode-url_encode s h,
        )
        (ground arith)
]
