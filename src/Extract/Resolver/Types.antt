-- ===== src/Extract/Resolver/Types.antt =====
-- The image type under the mapping of `HeaderMapping::defaults`.
use star_base.Fits.Header.{Hdu}
use star_base.Extract.Mapping.{
  Mode, ValueRule, HeaderMapping, RegexSearch, ImageType, classify, resolve_raw, rule_applies,
  apply_rules, normalize_value, entry_at,
}
use star_base.Extract.Defaults.{defaults, type_rules}
use star_base.Extract.Coord.{Library}
use star_base.Extract.Resolver.{ResolvedFrame, resolve, type_of, coord_of, frame_with}
use star_base.Query.Platform.{Platform}
use star_base.Common.{
  ◌≡◌, refl, sym, ap, ◌∙◌, inl, inr, Bool, true, false, ◌&&◌, Option, none, some, List, [], ◌∷◌,
  if◌then◌else◌, Bool-cases, ◌>>=◌, value_or, is_some, all, Bytes, codes, text_eq, text_eq→eq,
  contains as contains_text,
}
use star_base.Common.Ascii.{lower}

is_plain : Mode → Bool
is_plain Mode.exact = true
is_plain Mode.contains = true
is_plain Mode.regex = false

-- A test of the text in lower case.
unfoldable pub plain_applies : Bytes → ValueRule → Mode → Bool
unfolding text_eq lower
plain_applies low r Mode.exact = text_eq low (lower r.raw)
plain_applies low r Mode.contains = contains_text (lower r.raw) low
plain_applies low r Mode.regex = false

unfoldable pub found : Bytes → List ValueRule → Option Bytes
unfolding plain_applies
found low [] = none
found low (r ∷ rules) =
    let rest = found low rules in if plain_applies low r r.mode then some r.normalized else rest

and_first : (a b : Bool) → (a && b) ≡ true → a ≡ true
and_first true b h = refl
and_first false b h = h

and_second : (a b : Bool) → (a && b) ≡ true → b ≡ true
and_second true b h = h
and_second false b h = absurd (cc h)

bind-some :
    {A B : Type 0} (m : Option A) (f : A → Option B) (b : B)
    → (m >>= f) ≡ some b
    → (a : A) × (m ≡ some a) × (f a ≡ some b)
bind-some none f b h = absurd (cc h)
bind-some (some a) f b h = (a, refl, h)

picked :
    (b : Bool) (n rest raw : Bytes) (o : Option Bytes)
    → rest ≡ value_or o raw
    → (if b then n else rest) ≡ value_or (if b then some n else o) raw
picked true n rest raw o h = refl
picked false n rest raw o h = h

module _ (search : RegexSearch) where
  plain_mode :
      (raw : Bytes) (r : ValueRule) (m : Mode)
      → is_plain m ≡ true
      → rule_applies search raw r m ≡ plain_applies (lower raw) r m
  unfolding rule_applies plain_applies is_plain
  plain_mode raw r Mode.exact h = refl
  plain_mode raw r Mode.contains h = refl
  plain_mode raw r Mode.regex h = absurd (cc h)

  -- Rules without expressions look at the text in lower case only.
  apply_rules-found :
      (raw : Bytes) (rules : List ValueRule)
      → all (λ r. is_plain r.mode) rules ≡ true
      → apply_rules search raw rules ≡ value_or (found (lower raw) rules) raw
  unfolding apply_rules found
  apply_rules-found raw [] h = refl
  apply_rules-found raw (r ∷ rules) h = rw (plain_mode raw r r.mode (and_first _ _ h)) (
      picked (plain_applies (lower raw) r r.mode) r.normalized (apply_rules search raw rules) raw
        (found (lower raw) rules) (apply_rules-found raw rules (and_second _ _ h)))

types_plain : all (λ r. is_plain r.mode) type_rules ≡ true
unfolding is_plain
types_plain = refl

-- A text that no rule knows is no type either.
not_a_type :
    (raw name : Bytes)
    → is_some (found (lower name) type_rules) ≡ true
    → found (lower raw) type_rules ≡ none
    → text_eq raw name ≡ false
not_a_type raw name k h = elim (Bool-cases (text_eq raw name)) [
  | inr e ↦ e
  | inl e ↦
      absurd (
        cc
          (ap (λ s. is_some (found (lower s) type_rules)) (text_eq→eq raw name e), k, ap is_some h))
]

unknown_type :
    (raw : Bytes) → found (lower raw) type_rules ≡ none → classify raw ≡ ImageType.unknown
unfolding classify found lower contains_text
unknown_type raw h =
    rw
      (
        not_a_type raw (codes "light") refl h,
        not_a_type raw (codes "dark") refl h,
        not_a_type raw (codes "flat") refl h,
        not_a_type raw (codes "bias") refl h,
        not_a_type raw (codes "darkflat") refl h,
        not_a_type raw (codes "master") refl h,
      )
      refl

classify-found :
    (raw : Bytes) (o : Option Bytes)
    → found (lower raw) type_rules ≡ o
    → classify (value_or o raw) ≡ elim o [ none ↦ ImageType.unknown | some n ↦ classify n ]
classify-found raw none h = unknown_type raw h
classify-found raw (some n) h = refl

module _ (p : Platform) (lib : Library p) where
  -- What the type is by the value in lower case.
  type_of-lower :
      (raw : Bytes)
      → type_of p lib defaults (some raw)
        ≡ elim (found (lower raw) type_rules) [ none ↦ ImageType.unknown | some n ↦ classify n ]
  unfolding type_of normalize_value defaults entry_at
  type_of-lower raw =
      ap classify (apply_rules-found lib.regex_search raw type_rules types_plain)
      ∙ classify-found raw (found (lower raw) type_rules) refl

  -- A header that resolves resolves to its frame with some coordinates.
  pub resolve-frame_with :
      (m : HeaderMapping) (hdu : Hdu) (offset : p.Double) (f : ResolvedFrame p)
      → resolve p lib m hdu offset ≡ some f
      → (ra : Option p.Double) × (dec : Option p.Double) × (f
          ≡ frame_with p lib m hdu offset ra dec)
  unfolding resolve
  resolve-frame_with m hdu offset f h =
      let (ra, e, k) = bind-some (coord_of p lib m (resolve_raw hdu m (codes "ra")) true) _ f h in
      let (dec, r, s) =
        bind-some (coord_of p lib m (resolve_raw hdu m (codes "dec")) false) _ f k in
      (ra, dec, cc s)

  frame-type :
      (hdu : Hdu) (offset : p.Double) (raw : Bytes) (f : ResolvedFrame p)
      → resolve_raw hdu defaults (codes "image_type") ≡ some raw
      → resolve p lib defaults hdu offset ≡ some f
      → f.image_type
        ≡ elim (found (lower raw) type_rules) [ none ↦ ImageType.unknown | some n ↦ classify n ]
  unfolding frame_with
  frame-type hdu offset raw f e h =
      let (ra, dec, k) = resolve-frame_with defaults hdu offset f h in
      ap (λ (g : ResolvedFrame p). g.image_type) k
      ∙ ap (type_of p lib defaults) e
      ∙ type_of-lower raw

  -- Under the default mapping the type of a frame does not depend on the case in which its header spells it.
  pub resolve-type_folds :
      (hdu again : Hdu) (offset other : p.Double) (raw raw' : Bytes) (f g : ResolvedFrame p)
      → resolve_raw hdu defaults (codes "image_type") ≡ some raw
      → resolve_raw again defaults (codes "image_type") ≡ some raw'
      → lower raw ≡ lower raw'
      → resolve p lib defaults hdu offset ≡ some f
      → resolve p lib defaults again other ≡ some g
      → f.image_type ≡ g.image_type
  resolve-type_folds hdu again offset other raw raw' f g h k e r s =
      frame-type hdu offset raw f h r
      ∙ ap (λ low. elim (found low type_rules) [ none ↦ ImageType.unknown | some n ↦ classify n ]) e
      ∙ sym (frame-type again other raw' g k s)
