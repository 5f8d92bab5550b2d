-- ===== src/Names/Canon.antt =====
-- src/names/canon.cpp: offline target-name canonicalization.
-- The proofs are in the modules below: the tidied text, catalog numbers, and the canonical form.
pub mod Tables
pub mod Tidy
pub mod Number
pub mod Idempotent
pub mod Crossref
pub mod Examples
use Tables.{Rule, rules, is_placeholder, m_to_alt, alt_to_m}
use star_base.Common.{
  ℕ, Bool, true, false, not, ◌||◌, Option, none, some, List, [], ◌∷◌, ◌++◌, ◌==◌, if◌then◌else◌,
  value_or, or_else, length, is_empty, drop, Bytes, codes, text_eq, starts_with,
}
use star_base.Common.Ascii.{is_space, is_digit, is_alpha, to_upper, lower}

-- `Canon` of canon.hpp.
pub record Canon : Type 0 where
  pub canonical : Bytes
  pub catalog : Bytes
  pub placeholder : Bool
  pub changed : Bool

-- The loop of `tidy`: the output so far and the flag `sp`.
tidy_loop : Bytes → Bytes → Bool → Bytes
tidy_loop [] s sp = s
tidy_loop (c ∷ cs) s sp = elim (is_space c) [
  | true ↦ tidy_loop cs s (not (is_empty s))
  | false ↦ tidy_loop cs ((if sp then s ++ 32 ∷ [] else s) ++ c ∷ []) false
]

-- Trim the ends and collapse inner runs of whitespace to one space.
pub tidy : Bytes → Bytes
unfolding tidy_loop is_space
tidy s = tidy_loop s [] false

abbrev is_separator : ℕ → Bool
is_separator c = c == b' ' || (c == b'_' || c == b'-')

-- The first loop of `catalog_number`: separators before the number.
skip_separators : Bytes → Bytes
skip_separators [] = []
skip_separators (c ∷ s) = if is_separator c then skip_separators s else c ∷ s

-- The second loop: the digits, and what follows them.
span_digits : Bytes → Bytes × Bytes
span_digits [] = ([], [])
span_digits (c ∷ s) = let (ds, t) = span_digits s in if is_digit c then (c ∷ ds, t) else ([], c ∷ s)

-- The number behind its digits: nothing more, or one letter.
number_tail : Bytes → Bytes → Bytes → Bytes
number_tail num ds [] = num
number_tail num ds (c ∷ []) = if is_alpha c then ds ++ to_upper c ∷ [] else []
number_tail num ds (c ∷ d ∷ t) = []

clean_number : Bytes → Bytes
unfolding span_digits number_tail is_digit is_alpha to_upper
clean_number [] = []
clean_number (c ∷ s) =
    if is_digit c then (let (ds, t) = span_digits (c ∷ s) in number_tail (c ∷ s) ds t) else []

-- The normalized number, or empty where the rest is not a clean number.
pub catalog_number : Bytes → Bytes
unfolding skip_separators clean_number
catalog_number rest = clean_number (skip_separators rest)

-- The character behind the alias is a letter: the alias is part of a longer word.
letter_at : Bytes → Bool
unfolding is_alpha
letter_at [] = false
letter_at (c ∷ s) = is_alpha c

-- One alias: the number behind it, where the text is the alias and a number.
try_alias : Bytes → Bytes → Bytes → Option Bytes
unfolding starts_with letter_at
try_alias s low alias =
    let rest = drop (length alias) s in
    if not (starts_with alias low)
    then none
    else if letter_at rest
    then none
    else (let num = catalog_number rest in if is_empty num then none else some num)

try_aliases : Bytes → Bytes → List Bytes → Option Bytes
try_aliases s low [] = none
try_aliases s low (a ∷ as') = or_else (try_alias s low a) (try_aliases s low as')

-- The canonical form by a rule, with the Messier designation preferred.
prefer_messier : Bytes → Bytes → Bytes → Canon
unfolding text_eq
prefer_messier s catalog canonical =
    elim (if text_eq catalog (codes "NGC") || text_eq catalog (codes "IC")
      then alt_to_m canonical
      else none) [
        | some m ↦ record {
          canonical = m;
          catalog = codes "M";
          placeholder = false;
          changed = not (text_eq m s);
        }
        | none ↦ record {
          canonical = canonical;
          catalog = catalog;
          placeholder = false;
          changed = not (text_eq canonical s);
        }
      ]

by_rule : Bytes → Rule → Bytes → Canon
unfolding prefer_messier
by_rule s r num = prefer_messier s r.acronym (r.acronym ++ r.sep ∷ num)

-- The first rule with an alias that fits.
try_rules : Bytes → Bytes → List Rule → Option Canon
unfolding try_alias try_aliases by_rule
try_rules s low [] = none
try_rules s low (r ∷ rs) = elim (try_aliases s low r.aliases) [
  | some num ↦ some (by_rule s r num)
  | none ↦ try_rules s low rs
]

-- `canonicalize` behind the tidied text.
canonical_of : Bytes → Canon
canonical_of s =
    let plain : Canon = record {
      canonical = s;
      catalog = [];
      placeholder = false;
      changed = false;
    } in
    if is_placeholder (lower s)
    then record plain { placeholder = true }
    else value_or (try_rules s (lower s) rules) plain

unfoldable pub canonicalize : Bytes → Canon
unfolding tidy canonical_of try_rules is_placeholder lower rules catalog_number alt_to_m
canonicalize raw = canonical_of (tidy raw)

alternative : Canon → List Bytes
unfolding text_eq
alternative c = elim (if text_eq c.catalog (codes "M") then m_to_alt c.canonical else none) [
  | some a ↦ c.canonical ∷ a ∷ []
  | none ↦ c.canonical ∷ []
]

-- The canonical form and, for a Messier object, its other catalog number.
unfoldable pub designations : Bytes → List Bytes
unfolding canonicalize alternative m_to_alt
designations raw = alternative (canonicalize raw)
