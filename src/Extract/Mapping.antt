-- ===== src/Extract/Mapping.antt =====
-- The mapping of src/extract/resolver.hpp, and `resolve_raw`, `normalize_value` and `classify` of
-- src/extract/resolver.cpp. A `std::map` is a list of entries with distinct keys.
use star_base.Fits.Header.{Hdu, get}
use star_base.Common.Lines.{trim}
use star_base.Common.{
  Bool, false, Option, none, some, List, [], ◌∷◌, ◌++◌, if◌then◌else◌, value_or, is_empty, Bytes,
  codes, text_eq, contains as contains_text,
}
use star_base.Common.Ascii.{lower}
use star_base.Common.Int.{ℤ}

pub data Mode : Type 0 where
  exact contains regex : Mode

pub record ValueRule : Type 0 where
  pub raw : Bytes
  pub normalized : Bytes
  pub mode : Mode
  pub priority : ℤ

pub record HeaderMapping : Type 0 where
  pub keywords : List (Bytes × List Bytes)
  pub values : List (Bytes × List ValueRule)

-- `find` of a map.
unfoldable pub entry_at : {A : Type 0} → Bytes → List (Bytes × A) → Option A
unfolding text_eq
entry_at k [] = none
entry_at k ((j, a) ∷ m) = let rest = entry_at k m in if text_eq j k then some a else rest

-- `m[k].push_back(a)`.
unfoldable pub push_at : {A : Type 0} → Bytes → A → List (Bytes × List A) → List (Bytes × List A)
unfolding text_eq
push_at k a [] = (k, a ∷ []) ∷ []
push_at k a ((j, vs) ∷ m) =
    let rest = (j, vs) ∷ push_at k a m in if text_eq j k then (j, vs ++ a ∷ []) ∷ m else rest

pub data ImageType : Type 0 where
  unknown light dark flat bias dark_flat master : ImageType

unfoldable pub type_name : ImageType → Bytes
type_name ImageType.unknown = codes "unknown"
type_name ImageType.light = codes "light"
type_name ImageType.dark = codes "dark"
type_name ImageType.flat = codes "flat"
type_name ImageType.bias = codes "bias"
type_name ImageType.dark_flat = codes "darkflat"
type_name ImageType.master = codes "master"

unfoldable pub classify : Bytes → ImageType
unfolding text_eq
classify s =
    if text_eq s (codes "light")
    then ImageType.light
    else if text_eq s (codes "dark")
    then ImageType.dark
    else if text_eq s (codes "flat")
    then ImageType.flat
    else if text_eq s (codes "bias")
    then ImageType.bias
    else if text_eq s (codes "darkflat")
    then ImageType.dark_flat
    else if text_eq s (codes "master")
    then ImageType.master
    else ImageType.unknown

-- The loop of `resolve_raw` over the keywords.
unfoldable pub first_value : Hdu → List Bytes → Option Bytes
unfolding get trim
first_value hdu [] = none
first_value hdu (kw ∷ kws) =
    let rest = first_value hdu kws in
    elim (get hdu kw) [ none ↦ rest | some v ↦ if is_empty (trim v) then rest else some (trim v) ]

unfoldable pub resolve_raw : Hdu → HeaderMapping → Bytes → Option Bytes
unfolding entry_at first_value
resolve_raw hdu mapping field = elim (entry_at field mapping.keywords) [
  | none ↦ none
  | some kws ↦ first_value hdu kws
]

-- `std::regex_search(text, std::regex(pattern, icase))`, of a pattern and a text; `none` where it throws
-- a `regex_error`.
abbrev pub RegexSearch : Type 0
RegexSearch = Bytes → Bytes → Option Bool

module _ (regex_search : RegexSearch) where
  unfoldable pub rule_applies : Bytes → ValueRule → Mode → Bool
  unfolding text_eq lower
  rule_applies raw rule Mode.exact = text_eq (lower raw) (lower rule.raw)
  rule_applies raw rule Mode.contains = contains_text (lower rule.raw) (lower raw)
  rule_applies raw rule Mode.regex = value_or (regex_search rule.raw raw) false

  unfoldable pub apply_rules : Bytes → List ValueRule → Bytes
  unfolding rule_applies
  apply_rules raw [] = raw
  apply_rules raw (rule ∷ rules) =
      let rest = apply_rules raw rules in
      if rule_applies raw rule rule.mode then rule.normalized else rest

  unfoldable pub normalize_value : HeaderMapping → Bytes → Bytes → Bytes
  unfolding entry_at apply_rules
  normalize_value mapping field raw = elim (entry_at field mapping.values) [
    | none ↦ raw
    | some rules ↦ apply_rules raw rules
  ]
