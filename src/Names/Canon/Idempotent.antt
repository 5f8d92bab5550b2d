-- ===== src/Names/Canon/Idempotent.antt =====
-- The canonical form is a normal form of src/names/canon.cpp.
use star_base.Names.Canon.{
  Canon, canonicalize, canonical_of, catalog_number, by_rule, try_rules, try_aliases, try_alias,
  tidy,
}
use star_base.Names.Canon.Tables.{
  Rule, rules, Xref, messier_xref, m_name, alt_name, map_get, alt_to_m, is_placeholder,
}
use star_base.Names.Canon.Tidy.{neat, is_tidy, tidy-is_tidy, tidy-fixed}
use star_base.Names.Canon.Number.{
  is_number, digits_then, catalog_number_shape, catalog_number-fixed,
}
use star_base.Common.{
  ℕ, ◌≡◌, refl, sym, ap, ◌∙◌, subst, inl, inr, Bool, true, false, ◌||◌, Option, none, some, List,
  [], ◌∷◌, ◌++◌, arith, if◌then◌else◌, Bool-cases, Option-cases, value_or, length, drop, all, All,
  All-and, Bytes, codes, text_eq, text_eq→eq, text_eq_iff,
}
use star_base.Common.Ascii.{is_space, is_digit, is_upper, lower}

-- A text by a rule of the table.
abbrev named : Rule → Bytes → Bytes
named r num = r.acronym ++ r.sep ∷ num

-- The rules find the acronym and the number that they wrote.
abbrev Stable : Bytes → Rule → Type 0
Stable num r = (canonical_of (named r num)).canonical ≡ (by_rule (named r num) r num).canonical

rules-Stable :
    (d : ℕ) (num : Bytes)
    → catalog_number (b' ' ∷ d ∷ num) ≡ d ∷ num
    → catalog_number (b'-' ∷ d ∷ num) ≡ d ∷ num
    → All (Stable (d ∷ num)) rules
unfolding rules canonical_of try_rules is_placeholder lower
rules-Stable d num spaced dashed = ground arith

neat-digits_then : (s : Bytes) → digits_then s ≡ true → neat false s ≡ true
unfolding digits_then neat is_digit is_upper is_space
neat-digits_then [] h = refl
neat-digits_then (c ∷ []) h = ground arith
neat-digits_then (c ∷ d ∷ s) h = ground (arith, neat-digits_then (d ∷ s))

neat-number : (b : Bool) (s : Bytes) → is_number s ≡ true → neat b s ≡ true
unfolding is_number neat is_digit is_space
neat-number b [] h = absurd (ground arith)
neat-number true (c ∷ s) h = ground (arith, neat-digits_then s)
neat-number false (c ∷ s) h = ground (arith, neat-digits_then s)

named-is_tidy : (num : Bytes) → is_number num ≡ true → All (λ r. is_tidy (named r num) ≡ true) rules
unfolding rules is_tidy is_space
named-is_tidy num h = ground (arith, neat-number true num h, neat-number false num h)

-- What a rule that applies has found: a number in normal form.
try_alias-number :
    (s low alias : Bytes) {num : Bytes} → try_alias s low alias ≡ some num → is_number num ≡ true
unfolding try_alias
try_alias-number s low alias h = ground (arith, catalog_number_shape (drop (length alias) s))

try_aliases-number :
    (s low : Bytes) (l : List Bytes) {num : Bytes}
    → try_aliases s low l ≡ some num
    → is_number num ≡ true
unfolding try_aliases
try_aliases-number s low [] h = cc
try_aliases-number s low (a ∷ l) {num} h =
    ground (arith, try_alias-number s low a {num = num}, try_aliases-number s low l {num = num})

-- A result of the rules comes from one of them and a number in normal form.
try_rules_cases :
    (s low : Bytes) (rs : List Rule) (P : Canon → Type 0)
    → ((num : Bytes) → is_number num ≡ true → All (λ r. P (by_rule s r num)) rs)
    → (c : Canon) → try_rules s low rs ≡ some c
    → P c
unfolding try_rules
try_rules_cases s low [] P h c e = absurd (cc)
try_rules_cases s low (r ∷ rs) P h c e = elim (Option-cases (try_aliases s low r.aliases)) [
  | inl m ↦ try_rules_cases s low rs P (λ num k. (h num k).1) c (ground arith)
  | inr (num, m) ↦ subst P (ground arith) (h num (try_aliases-number s low r.aliases m)).0
]

-- What holds of every entry holds of every hit.
pub map_get-all :
    (q : Bytes → Bytes → Bool) (key value : Xref → Bytes) (k : Bytes) (es : List Xref)
    (found : Option Bytes)
    → all (λ e. q (key e) (value e)) es ≡ true
    → ((w : Bytes) → found ≡ some w → q k w ≡ true)
    → (v : Bytes) → map_get key value k es found ≡ some v
    → q k v ≡ true
unfolding map_get
map_get-all q key value k [] found h start v e = start v e
map_get-all q key value k (x ∷ es) found h start v e =
    map_get-all q key value k es _ (ground arith)
      (λ w t. ground (arith, start w, text_eq_iff (key x) k)) v e

abbrev is_fixed : Bytes → Bool
is_fixed v = text_eq (canonicalize v).canonical v

messier-is_fixed : all (λ e. is_fixed (m_name e)) messier_xref ≡ true
unfolding canonicalize text_eq
messier-is_fixed = refl

alt_to_m-fixed : (k v : Bytes) → alt_to_m k ≡ some v → (canonicalize v).canonical ≡ v
unfolding alt_to_m
alt_to_m-fixed k v e = text_eq→eq _ _ (
    map_get-all (λ j w. is_fixed w) alt_name m_name k messier_xref none messier-is_fixed
      (λ w q. absurd (cc)) v e)

abbrev IsFixed : Canon → Type 0
IsFixed c = (canonicalize c.canonical).canonical ≡ c.canonical

-- The Messier designation that stands in for a text by a rule, where there is one.
abbrev chosen : Rule → Bytes → Option Bytes
chosen r num =
    if text_eq r.acronym (codes "NGC") || text_eq r.acronym (codes "IC")
    then alt_to_m (named r num)
    else none

by_rule-canonical :
    (s num : Bytes) (r : Rule) → (by_rule s r num).canonical ≡ value_or (chosen r num) (named r num)
unfolding by_rule
by_rule-canonical s num r = ground arith

chosen-fixed : (num v : Bytes) (r : Rule) → chosen r num ≡ some v → (canonicalize v).canonical ≡ v
chosen-fixed num v r h = ground (arith, alt_to_m-fixed (named r num) v)

canonicalize-tidy : (s : Bytes) → is_tidy s ≡ true → canonicalize s ≡ canonical_of s
unfolding canonicalize
canonicalize-tidy s h = ap canonical_of (tidy-fixed s h)

by_rule-IsFixed :
    (s num : Bytes) (r : Rule)
    → is_tidy (named r num) ≡ true
    → Stable num r
    → IsFixed (by_rule s r num)
by_rule-IsFixed s num r tidied stable =
    rw (by_rule-canonical s num r) (elim (Option-cases (chosen r num)) [
      | inl e ↦ rw e (
          ground
            (arith, canonicalize-tidy (named r num) tidied, by_rule-canonical (named r num) num r))
      | inr (v, e) ↦ rw e (chosen-fixed num v r e)
    ])

rules-IsFixed : (s num : Bytes) → is_number num ≡ true → All (λ r. IsFixed (by_rule s r num)) rules
unfolding is_number
rules-IsFixed s [] h = absurd (cc)
rules-IsFixed s (d ∷ num) h =
    All-and (λ r tidied stable. by_rule-IsFixed s (d ∷ num) r tidied stable) rules
      (named-is_tidy (d ∷ num) h)
      (rules-Stable d num (catalog_number-fixed 32 (d ∷ num) refl h)
        (catalog_number-fixed 45 (d ∷ num) refl h))

-- `canonical_of` behind its two tests.
canonical_of_cases :
    (s : Bytes) (P : Canon → Type 0)
    → ((b : Bool) → P (record { canonical = s; catalog = []; placeholder = b; changed = false }))
    → ((c : Canon) → try_rules s (lower s) rules ≡ some c → P c)
    → P (canonical_of s)
unfolding canonical_of
canonical_of_cases s P plain found = elim (Bool-cases (is_placeholder (lower s))) [
  | inl e ↦ rw e (plain true)
  | inr e ↦ elim (Option-cases (try_rules s (lower s) rules)) [
    | inl n ↦ rw (e, n) (plain false)
    | inr (c, h) ↦ rw (e, h) (found c h)
  ]
]

canonical_of-IsFixed : (s : Bytes) → is_tidy s ≡ true → IsFixed (canonical_of s)
canonical_of-IsFixed s h =
    canonical_of_cases s (λ c. canonical_of s ≡ c → IsFixed c)
      (λ b e. ap (λ (c : Canon). c.canonical) (canonicalize-tidy s h ∙ e))
      (λ c found e. try_rules_cases s (lower s) rules IsFixed (rules-IsFixed s) c found) refl

canonicalize_lem : (raw : Bytes) → canonicalize raw ≡ canonical_of (tidy raw)
unfolding canonicalize
canonicalize_lem raw = refl

-- Canonicalization is idempotent: the canonical form of any name, placeholders and unknown names
-- included, is its own canonical form.
pub canonicalize_idem :
    (raw : Bytes)
    → (canonicalize (canonicalize raw).canonical).canonical ≡ (canonicalize raw).canonical
canonicalize_idem raw =
    subst IsFixed (sym (canonicalize_lem raw)) (canonical_of-IsFixed (tidy raw) (tidy-is_tidy raw))
