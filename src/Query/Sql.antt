-- ===== src/Query/Sql.antt =====
-- How the server reads an SQL condition, as far as quotes and parentheses go: the grammar that the
-- text built by src/query/query.cpp must not leave.
use star_base.Common.{
  ℕ, zero, suc, ◌≡◌, refl, ◌∙◌, inl, inr, Bool, true, false, not, ◌&&◌, Option, none, some, [], ◌∷◌,
  ◌++◌, arith, ltb, leb, ◌==◌, ==→eq, Bool-cases, is_empty, if◌then◌else◌, Option-cases, ◌>>=◌, all,
  Bytes, codes, has_byte,
}
use star_base.Common.Ascii.{is_digit}
use star_base.Common.Decimal.{decimal, decimal-digits, decimal-filled}
use star_base.Common.Int.{ℤ, pos, negsuc, decimal_int}

-- Outside quotes at a depth of parentheses, there behind a minus, behind two or behind a slash, inside single
-- quotes, or behind a backslash in them.
pub data Lex : Type 0 where
  outside dashed dashes slashed quoted escaping : ℕ → Lex

-- The byte means nothing to the scanner outside quotes.
unfoldable pub is_calm : ℕ → Bool
unfolding has_byte
is_calm c = not (has_byte c (codes "()'\"`;#\\-/"))

closing : ℕ → Option Lex
closing zero = none
closing (suc k) = some (outside k)

-- A byte outside quotes.
unfoldable pub plain_step : ℕ → ℕ → Option Lex
unfolding closing is_calm
plain_step k c =
    if is_calm c
    then some (outside k)
    else if c == b'\''
    then some (quoted k)
    else if c == b'('
    then some (outside (suc k))
    else if c == b')'
    then closing k
    else if c == b'-'
    then some (dashed k)
    else if c == b'/'
    then some (slashed k)
    else none

unfoldable pub lex : Lex → ℕ → Option Lex
unfolding plain_step
lex (outside k) c = plain_step k c
lex (dashed k) c = if c == b'-' then some (dashes k) else plain_step k c
lex (dashes k) c = if leb c 32 then none else if c == b'-' then some (dashes k) else plain_step k c
lex (slashed k) c = if c == b'*' then none else plain_step k c
lex (quoted k) c =
    if c == b'\''
    then some (outside k)
    else if c == b'\\'
    then some (escaping k)
    else some (quoted k)
lex (escaping k) c = some (quoted k)

-- Read a text; `none` where a parenthesis closes that was not opened, at a double quote, a backquote or a
-- backslash outside quotes, or where a statement (`;`) or a comment could begin: at `#`, at `/*` and,
-- as MySQL reads it, at two minus signs before a blank or a control character.
unfoldable pub scan : Lex → Bytes → Option Lex
unfolding lex
scan l [] = some l
scan l (c ∷ s) = elim (lex l c) [ none ↦ none | some l' ↦ scan l' s ]

pub scan-append : (s t : Bytes) (l : Lex) → scan l (s ++ t) ≡ (scan l s >>= λ m. scan m t)
unfolding scan
scan-append [] t l = refl
scan-append (c ∷ s) t l = elim (Option-cases (lex l c)) [
  | inl e ↦ rw (e, scan)
  | inr (m, e) ↦ rw (e, scan) (scan-append s t m)
]

-- What a part of the text reads to, and then the rest.
pub scan_part : (s t : Bytes) (l m : Lex) → scan l s ≡ some m → scan l (s ++ t) ≡ scan m t
scan_part s t l m h = scan-append s t l ∙ rw h

-- A text that can stand anywhere outside quotes and leaves the reader where it was.
abbrev pub IsNeutral : Bytes → Type 0
IsNeutral s = (k : ℕ) → scan (outside k) s ≡ some (outside k)

calm_step : (c k : ℕ) → is_calm c ≡ true → lex (outside k) c ≡ some (outside k)
unfolding lex plain_step
calm_step c k h = rw h

pub calm-IsNeutral : (s : Bytes) → all is_calm s ≡ true → IsNeutral s
unfolding scan
calm-IsNeutral [] h k = refl
calm-IsNeutral (c ∷ s) h k =
    rw (calm_step c k (ground arith), scan) (calm-IsNeutral s (ground arith) k)

pub IsNeutral-append : (s t : Bytes) → IsNeutral s → IsNeutral t → IsNeutral (s ++ t)
IsNeutral-append s t hs ht k = scan_part s t (outside k) (outside k) (hs k) ∙ ht k

-- A byte of a number: calm and neither a blank nor a control character.
unfoldable pub is_figure : ℕ → Bool
is_figure c = is_calm c && ltb 32 c

-- Figures, and minus signs with a figure behind each; `behind` says that a minus came before.
unfoldable pub is_figures : Bool → Bytes → Bool
is_figures behind [] = not behind
is_figures behind (c ∷ s) =
    if c == b'-' then not behind && is_figures true s else is_figure c && is_figures false s

-- A number: figures, the first one behind a minus or not.
unfoldable pub is_number : Bytes → Bool
unfolding is_figures
is_number [] = false
is_number (c ∷ s) = if c == b'-' then is_figures true s else is_figures true (c ∷ s)

-- Outside quotes, behind so many minus signs.
abbrev pub behind_minus : ℕ → ℕ → Lex
behind_minus zero k = outside k
behind_minus (suc zero) k = dashed k
behind_minus (suc (suc m)) k = dashes k

abbrev at_figures : Bool → ℕ → ℕ → Lex
at_figures true m k = behind_minus m k
at_figures false m k = outside k

figure_step :
    (m c k : ℕ)
    → (c == b'-') ≡ false
    → is_figure c ≡ true
    → lex (behind_minus m k) c ≡ some (outside k)
unfolding lex plain_step is_figure
figure_step zero c k e h = ground (arith, h)
figure_step (suc zero) c k e h = rw e (ground (arith, h))
figure_step (suc (suc m)) c k e h = ground (arith, e, h)

minus_step :
    (m c k : ℕ) → (c == b'-') ≡ true → lex (behind_minus m k) c ≡ some (behind_minus (suc m) k)
unfolding lex plain_step is_calm has_byte
minus_step zero c k e = rw (==→eq c b'-' e) refl
minus_step (suc zero) c k e = rw (==→eq c b'-' e) refl
minus_step (suc (suc m)) c k e = rw (==→eq c b'-' e) refl

scan-figures :
    (b : Bool) (m : ℕ) (s : Bytes) (k : ℕ)
    → is_figures b s ≡ true
    → scan (at_figures b m k) s ≡ some (outside k)
unfolding scan is_figures
scan-figures true m [] k h = absurd (cc)
scan-figures false m [] k h = refl
scan-figures true m (c ∷ s) k h = elim (Bool-cases (c == b'-')) [
  | inl e ↦ absurd (ground (arith, e, h))
  | inr e ↦
      rw (figure_step m c k e (ground (arith, e, h)), scan)
        (scan-figures false 0 s k (ground (arith, e, h)))
]
scan-figures false m (c ∷ s) k h = elim (Bool-cases (c == b'-')) [
  | inl e ↦ rw (minus_step 0 c k e, scan) (scan-figures true 1 s k (ground (arith, e, h)))
  | inr e ↦
      rw (figure_step 0 c k e (ground (arith, e, h)), scan)
        (scan-figures false 0 s k (ground (arith, e, h)))
]

-- A number can stand behind minus signs too.
pub scan-number :
    (m : ℕ) (s : Bytes) (k : ℕ) → is_number s ≡ true → scan (behind_minus m k) s ≡ some (outside k)
unfolding scan is_number is_figures
scan-number m [] k h = absurd (cc)
scan-number m (c ∷ s) k h = elim (Bool-cases (c == b'-')) [
  | inl e ↦ rw (minus_step m c k e, scan) (scan-figures true (suc m) s k (ground (arith, e, h)))
  | inr e ↦ scan-figures true m (c ∷ s) k (ground (arith, e, h))
]

pub number-IsNeutral : (s : Bytes) → is_number s ≡ true → IsNeutral s
number-IsNeutral s h k = scan-number 0 s k h

digit_figure : (c : ℕ) → is_digit c ≡ true → is_figure c ≡ true
unfolding is_digit is_figure is_calm has_byte
digit_figure c h = ground arith

digit_minus : (c : ℕ) → is_digit c ≡ true → (c == b'-') ≡ false
unfolding is_digit
digit_minus c h = ground arith

digits_figures : (s : Bytes) → all is_digit s ≡ true → is_figures false s ≡ true
unfolding is_figures
digits_figures [] h = refl
digits_figures (c ∷ s) h =
    rw (digit_minus c (ground (arith, h)), digit_figure c (ground (arith, h)))
      (digits_figures s (ground (arith, h)))

unsigned_figures :
    (s : Bytes) → all is_digit s ≡ true → is_empty s ≡ false → is_figures true s ≡ true
unfolding is_figures
unsigned_figures [] h e = absurd (cc)
unsigned_figures (c ∷ s) h e =
    rw (digit_minus c (ground (arith, h)), digit_figure c (ground (arith, h)))
      (digits_figures s (ground (arith, h)))

unsigned_number :
    (s : Bytes) → all is_digit s ≡ true → is_figures true s ≡ true → is_number s ≡ true
unfolding is_number is_figures
unsigned_number [] h f = absurd (cc)
unsigned_number (c ∷ s) h f =
    let e : (c == b'-') ≡ false = digit_minus c (ground (arith, h)) in ground (arith, e, f)

decimal_figures : (n : ℕ) → is_figures true (decimal n) ≡ true
decimal_figures n = unsigned_figures (decimal n) (decimal-digits n) (decimal-filled n)

pub decimal_number : (n : ℕ) → is_number (decimal n) ≡ true
decimal_number n = unsigned_number (decimal n) (decimal-digits n) (decimal_figures n)

-- A decimal number, also one below zero.
pub decimal_int-IsNeutral : (z : ℤ) → IsNeutral (decimal_int z)
unfolding decimal_int is_number
decimal_int-IsNeutral (pos n) = number-IsNeutral (decimal n) (decimal_number n)
decimal_int-IsNeutral (negsuc n) =
    number-IsNeutral (b'-' ∷ decimal (suc n)) (decimal_figures (suc n))
