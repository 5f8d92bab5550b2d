-- ===== src/Names/Canon/Number.antt =====
-- What `catalog_number` (src/names/canon.cpp) accepts and returns.
use star_base.Names.Canon.{
  catalog_number, skip_separators, clean_number, span_digits, number_tail, is_separator,
}
use star_base.Common.{
  ℕ, ◌≡◌, refl, sym, ap, ◌⊎◌, inl, inr, Bool, true, false, ◌&&◌, ◌||◌, [], ◌∷◌, ◌++◌, arith,
  Bool-cases, All, Bytes,
}
use star_base.Common.Ascii.{is_digit, is_upper, is_alpha, to_upper}

-- Digits, and then nothing or one capital letter.
unfoldable pub digits_then : Bytes → Bool
digits_then [] = true
digits_then (c ∷ []) = is_digit c || is_upper c
digits_then (c ∷ d ∷ s) = is_digit c && digits_then (d ∷ s)

-- A clean catalog number in normal form, such as `7000A`.
unfoldable pub is_number : Bytes → Bool
unfolding digits_then
is_number [] = false
is_number (c ∷ s) = is_digit c && digits_then s

digit-not_separator : (c : ℕ) → is_digit c ≡ true → is_separator c ≡ false
unfolding is_digit
digit-not_separator c h = ground arith

skip_separators-number : (s : Bytes) → is_number s ≡ true → skip_separators s ≡ s
unfolding skip_separators is_number
skip_separators-number [] h = refl
skip_separators-number (c ∷ s) h = ground (arith, digit-not_separator c)

upper-not_digit :
    (c : ℕ) → is_upper c ≡ true → (is_digit c ≡ false) × (is_alpha c ≡ true) × (to_upper c ≡ c)
unfolding is_upper is_digit is_alpha to_upper
upper-not_digit c h = ground arith

to_upper-is_upper : (c : ℕ) → is_alpha c ≡ true → is_upper (to_upper c) ≡ true
unfolding is_upper is_alpha to_upper
to_upper-is_upper c h = ground arith

-- The parts of a text by `span_digits` make it up.
span_digits-append : (s : Bytes) → (span_digits s).0 ++ (span_digits s).1 ≡ s
unfolding span_digits
span_digits-append [] = refl
span_digits-append (c ∷ s) = ground (arith, span_digits-append s)

span_digits-digits : (s : Bytes) → All (λ c. is_digit c ≡ true) (span_digits s).0
unfolding span_digits
span_digits-digits [] = tt
span_digits-digits (c ∷ s) = ground (arith, span_digits-digits s)

digits_then-digits :
    (ds : Bytes) (u : Bytes)
    → All (λ c. is_digit c ≡ true) ds
    → digits_then u ≡ true
    → digits_then (ds ++ u) ≡ true
unfolding digits_then
digits_then-digits [] u h k = k
digits_then-digits (c ∷ []) [] h k = ground arith
digits_then-digits (c ∷ []) (x ∷ u) h k = ground arith
digits_then-digits (c ∷ d ∷ ds) u h k = ground (arith, digits_then-digits (d ∷ ds) u h.1)

number_tail_shape :
    (c : ℕ) (num ds t : Bytes)
    → is_digit c ≡ true
    → All (λ x. is_digit x ≡ true) ds
    → num ≡ c ∷ (ds ++ t)
    → (number_tail num (c ∷ ds) t ≡ []) ⊎ (is_number (number_tail num (c ∷ ds) t) ≡ true)
unfolding number_tail is_number
number_tail_shape c num ds [] h k e = inr (rw e (ground (arith, digits_then-digits ds [] k)))
number_tail_shape c num ds (x ∷ []) h k e = elim (Bool-cases (is_alpha x)) [
  | inl a ↦
      rw (a, number_tail)
        (inr (ground (arith, digits_then-digits ds (to_upper x ∷ []) k, to_upper-is_upper x a)))
  | inr a ↦ rw (a, number_tail) (inl refl)
]
number_tail_shape c num ds (x ∷ y ∷ t) h k e = inl refl

-- The result is empty or a number in normal form.
clean_number_shape : (s : Bytes) → (clean_number s ≡ []) ⊎ (is_number (clean_number s) ≡ true)
unfolding clean_number span_digits
clean_number_shape [] = inl refl
clean_number_shape (c ∷ s) = elim (Bool-cases (is_digit c)) [
  | inl h ↦ rw h (
      number_tail_shape c (c ∷ s) (span_digits s).0 (span_digits s).1 h (span_digits-digits s)
        (ap (◌∷◌ c) (sym (span_digits-append s))))
  | inr h ↦ rw h (inl refl)
]

-- What `catalog_number` returns is empty or a number in normal form.
pub catalog_number_shape :
    (s : Bytes) → (catalog_number s ≡ []) ⊎ (is_number (catalog_number s) ≡ true)
unfolding catalog_number
catalog_number_shape s = clean_number_shape (skip_separators s)

span_digits_rest :
    (s : Bytes)
    → digits_then s ≡ true
    → ((span_digits s).1 ≡ []) ⊎ ((u : ℕ) × ((span_digits s).1 ≡ u ∷ []) × (is_upper u ≡ true))
unfolding span_digits digits_then
span_digits_rest [] h = inl refl
span_digits_rest (c ∷ []) h = elim (Bool-cases (is_digit c)) [
  | inl e ↦ rw (e, span_digits) (inl refl)
  | inr e ↦ rw (e, span_digits) (inr (c, refl, ground arith))
]
span_digits_rest (c ∷ d ∷ s) h = elim (Bool-cases (is_digit c)) [
  | inl e ↦ rw (e, span_digits) (span_digits_rest (d ∷ s) (ground arith))
  | inr e ↦ absurd (ground arith)
]

number_tail-fixed :
    (num ds t : Bytes)
    → num ≡ ds ++ t
    → (t ≡ []) ⊎ ((u : ℕ) × (t ≡ u ∷ []) × (is_upper u ≡ true))
    → number_tail num ds t ≡ num
unfolding number_tail
number_tail-fixed num ds t e (inl h) = rw h
number_tail-fixed num ds t e (inr (u, h, k)) = rw h (ground (arith, upper-not_digit u k, e, h))

clean_number-fixed : (s : Bytes) → is_number s ≡ true → clean_number s ≡ s
unfolding clean_number span_digits is_number
clean_number-fixed [] h = absurd (ground arith)
clean_number-fixed (c ∷ s) h = elim (Bool-cases (is_digit c)) [
  | inl e ↦ rw e (
      number_tail-fixed (c ∷ s) (c ∷ (span_digits s).0) (span_digits s).1
        (ap (◌∷◌ c) (sym (span_digits-append s))) (span_digits_rest s (ground arith)))
  | inr e ↦ absurd (ground arith)
]

-- A number in normal form behind a separator is read back as it is.
pub catalog_number-fixed :
    (sep : ℕ) (s : Bytes)
    → is_separator sep ≡ true
    → is_number s ≡ true
    → catalog_number (sep ∷ s) ≡ s
unfolding catalog_number skip_separators
catalog_number-fixed sep s k h =
    rw (k, skip_separators) (rw (skip_separators-number s h) (clean_number-fixed s h))
