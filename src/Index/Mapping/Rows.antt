-- ===== src/Index/Mapping/Rows.antt =====
-- What a loaded mapping says of a field.
use star_base.Fits.Header.{Hdu}
use star_base.Extract.Mapping.{
  ValueRule, HeaderMapping, entry_at, push_at, first_value, resolve_raw, RegexSearch, apply_rules,
  normalize_value,
}
use star_base.Extract.Defaults.{defaults}
use star_base.Index.Mapping.{keyword_of, rule_of, collect, mapping_with, mapping_of}
use star_base.Sys.{Row}
use star_base.Common.{
  ◌≡◌, refl, sym, ap, ◌∙◌, subst, ◌⊎◌, inl, inr, true, false, not, ◌&&◌, Option, none, some, List,
  [], ◌∷◌, ◌++◌, append-nil, append_assoc, arith, if◌then◌else◌, Bool-cases, Option-cases, is_some,
  is_empty, any, Bytes, text_eq, text_eq→eq, text_eq_refl,
}

-- The values that the usable rows give a field, in order.
unfoldable pub column : {A : Type 0} → (Row → Option (Bytes × A)) → Bytes → List Row → List A
unfolding text_eq
column read k [] = []
column read k (row ∷ rows) =
    let rest = column read k rows in
    elim (read row) [ none ↦ rest | some (field, a) ↦ if text_eq field k then a ∷ rest else rest ]

unfoldable pub listed : {A : Type 0} → Option (List A) → List A
listed none = []
listed (some xs) = xs

module _ {A : Type 0} where
  push_at-same :
      (k : Bytes) (a : A) (m : List (Bytes × List A))
      → listed (entry_at k (push_at k a m)) ≡ listed (entry_at k m) ++ a ∷ []
  unfolding entry_at push_at listed
  push_at-same k a [] = rw (text_eq_refl k) refl
  push_at-same k a ((j, vs) ∷ m) = elim (Bool-cases (text_eq j k)) [
    | inl e ↦ ground (arith, e)
    | inr e ↦ ground (arith, e, push_at-same k a m)
  ]

  push_at-other :
      (k f : Bytes) (a : A) (m : List (Bytes × List A))
      → text_eq f k ≡ false
      → entry_at k (push_at f a m) ≡ entry_at k m
  unfolding entry_at push_at
  push_at-other k f a [] h = rw h refl
  push_at-other k f a ((j, vs) ∷ m) h = elim (Bool-cases (text_eq j f)) [
    | inl e ↦ rw (e, ap (λ x. text_eq x k) (text_eq→eq j f e) ∙ h) refl
    | inr e ↦ rw e (ap (λ o. if text_eq j k then some vs else o) (push_at-other k f a m h))
  ]

  -- The entry of a field is what its rows give it.
  collect-column :
      (read : Row → Option (Bytes × A)) (k : Bytes) (m : List (Bytes × List A)) (rows : List Row)
      → listed (entry_at k (collect read m rows)) ≡ listed (entry_at k m) ++ column read k rows
  unfolding collect column
  collect-column read k m [] = sym (append-nil _)
  collect-column read k m (row ∷ rows) = elim (Option-cases (read row)) [
    | inl e ↦ rw (e, collect, column) (collect-column read k m rows)
    | inr ((f, a), e) ↦ elim (Bool-cases (text_eq f k)) [
      | inl q ↦
          rw (e, q, collect, column)
            (collect-column read k (push_at f a m) rows
              ∙ ap (λ xs. xs ++ column read k rows)
                  (subst
                    (λ x. listed (entry_at k (push_at x a m)) ≡ listed (entry_at k m) ++ a ∷ [])
                    (sym (text_eq→eq f k q)) (push_at-same k a m))
              ∙ append_assoc (listed (entry_at k m)) (a ∷ []) (column read k rows))
      | inr q ↦
          rw (e, q, collect, column)
            (collect-column read k (push_at f a m) rows
              ∙ ap (λ o. listed o ++ column read k rows) (push_at-other k f a m q))
    ]
  ]

  push_at-not_empty :
      (k : Bytes) (a : A) (m : List (Bytes × List A)) → is_empty (push_at k a m) ≡ false
  unfolding push_at
  push_at-not_empty k a [] = refl
  push_at-not_empty k a ((j, vs) ∷ m) = ground arith

  collect-not_empty :
      (read : Row → Option (Bytes × A)) (m : List (Bytes × List A)) (rows : List Row)
      → is_empty (collect read m rows) ≡ (is_empty m && not (any (λ row. is_some (read row)) rows))
  unfolding collect
  collect-not_empty read m [] = ground arith
  collect-not_empty read m (row ∷ rows) = elim (Option-cases (read row)) [
    | inl e ↦ rw (e, collect) (collect-not_empty read m rows)
    | inr ((f, a), e) ↦
        rw (e, collect)
          (collect-not_empty read (push_at f a m) rows
            ∙ rw (push_at-not_empty f a m) (ground arith))
  ]

kept-mapping :
    (k : List (Bytes × List Bytes)) (v : List (Bytes × List ValueRule))
    → is_empty k ≡ false
    → mapping_with k v ≡ record { keywords = k; values = v }
unfolding mapping_with
kept-mapping [] v h = absurd (cc h)
kept-mapping (x ∷ k) v h = refl

no-mapping :
    (k : List (Bytes × List Bytes)) (v : List (Bytes × List ValueRule))
    → is_empty k ≡ true
    → mapping_with k v ≡ defaults
unfolding mapping_with
no-mapping [] v h = refl
no-mapping (x ∷ k) v h = absurd (cc h)

-- `resolve_raw` and `normalize_value`, by the entry of the field.
resolve_raw-listed :
    (hdu : Hdu) (m : HeaderMapping) (field : Bytes)
    → resolve_raw hdu m field ≡ first_value hdu (listed (entry_at field m.keywords))
unfolding resolve_raw first_value listed
resolve_raw-listed hdu m field = elim (Option-cases (entry_at field m.keywords)) [
  | inl e ↦ rw (e, resolve_raw) refl
  | inr (kws, e) ↦ rw (e, resolve_raw) refl
]

normalize_value-listed :
    (regex : RegexSearch) (m : HeaderMapping) (field raw : Bytes)
    → normalize_value regex m field raw ≡ apply_rules regex raw (listed (entry_at field m.values))
unfolding normalize_value apply_rules listed
normalize_value-listed regex m field raw = elim (Option-cases (entry_at field m.values)) [
  | inl e ↦ rw (e, normalize_value) refl
  | inr (rules, e) ↦ rw (e, normalize_value) refl
]

-- The keywords and the rules of a field are those of its rows, in the order of the rows.
pub record Follows (regex : RegexSearch) (keyword_rows value_rows : List Row) (m : HeaderMapping)
    : Type 0 where
  pub keywords_of :
      (hdu : Hdu) (field : Bytes)
      → resolve_raw hdu m field ≡ first_value hdu (column keyword_of field keyword_rows)
  pub rules_of :
      (field raw : Bytes)
      → normalize_value regex m field raw ≡ apply_rules regex raw (column rule_of field value_rows)

kept-Follows :
    (regex : RegexSearch) (keyword_rows value_rows : List Row)
    → Follows regex keyword_rows value_rows (record {
      keywords = collect keyword_of [] keyword_rows;
      values = collect rule_of [] value_rows;
    })
unfolding entry_at listed
kept-Follows regex keyword_rows value_rows = record {
  keywords_of = λ hdu field.
      resolve_raw-listed hdu _ field
      ∙ ap (first_value hdu) (collect-column keyword_of field [] keyword_rows);
  rules_of = λ field raw.
      normalize_value-listed regex _ field raw
      ∙ ap (apply_rules regex raw) (collect-column rule_of field [] value_rows);
}

-- Where a row of the first query has a field and a keyword, the mapping that is loaded gives every field
-- the keywords and the rules of its rows, in the order of the rows; where none has, it is the default.
pub mapping_of-Follows :
    (regex : RegexSearch) (keyword_rows value_rows : List Row)
    → ((any (λ row. is_some (keyword_of row)) keyword_rows ≡ true)
        × Follows regex keyword_rows value_rows (mapping_of keyword_rows value_rows))
      ⊎ ((any (λ row. is_some (keyword_of row)) keyword_rows ≡ false)
          × (mapping_of keyword_rows value_rows ≡ defaults))
unfolding mapping_of
mapping_of-Follows regex keyword_rows value_rows =
    let empty_iff = collect-not_empty keyword_of [] keyword_rows in
    elim (Bool-cases (any (λ row. is_some (keyword_of row)) keyword_rows)) [
      | inl e ↦ inl (
        e,
        subst (Follows regex keyword_rows value_rows)
            (sym (kept-mapping _ (collect rule_of [] value_rows) (empty_iff ∙ ap not e)))
            (kept-Follows regex keyword_rows value_rows),
      )
      | inr e ↦ inr (e, no-mapping _ (collect rule_of [] value_rows) (empty_iff ∙ ap not e))
    ]
