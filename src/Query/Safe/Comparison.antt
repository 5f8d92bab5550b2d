-- ===== src/Query/Safe/Comparison.antt =====
-- The comparisons of src/query/query.cpp are neutral.
use star_base.Names.Canon.{designations}
use star_base.Query.Platform.{IsSound}
use star_base.Query.Sql.{scan, is_calm, lex, IsNeutral, calm-IsNeutral, IsNeutral-append}
use star_base.Query.Columns.{ColumnType, columns, binops, find_key, require_string, literal}
use star_base.Query.Predicate.{
  compile_keyword, object_terms, literal_list, compile_in, compile_between, compile_operator,
  object_text, compile_column, compile_comparison,
}
use star_base.Query.Safe.{
  Safe, bind-Safe, then-Safe, past, literal-Safe, binops-IsNeutral, column-IsNeutral,
}
use star_base.Query.Safe.Leaves.{
  compared, compile_keyword-Safe, object_terms-IsNeutral, literal_list-Safe,
}
use star_base.Common.{
  suc, ◌≡◌, refl, ◌∙◌, inl, inr, true, none, some, [], ◌∷◌, ◌++◌, if◌then◌else◌, Bool-cases,
  Option-cases, all, Bytes, codes, concat, text_eq, starts_with,
}
use star_base.Query.Json
use star_base.Query.Json.{
  Json, null, boolean, number, string, array, object, Items, nil, cons, Members, no_members, member,
  Failure, query_error, json_error, Result, ok, err, ◌>>=◌, ◌>>◌, require,
}
use star_base.Query.Platform.{Platform}

module _ (p : Platform) (sound : IsSound p) (name : Bytes) (t : ColumnType)
    (plain : IsNeutral name) where
  open p use {Number}

  compile_in-Safe : (v : Json Number) → Safe (compile_in p name t v)
  unfolding compile_in scan lex is_calm
  compile_in-Safe (array (cons v vs)) =
      then-Safe (literal_list p t (cons v vs)) _ (literal_list-Safe p sound t (cons v vs))
        (λ l hl k. past name _ k plain ∙ past l _ (suc k) hl)
  compile_in-Safe (array nil) = tt
  compile_in-Safe _ = tt

  compile_between-Safe : (v : Json Number) → Safe (compile_between p name t v)
  unfolding compile_between scan lex is_calm
  compile_between-Safe (array (cons lo (cons hi nil))) =
      then-Safe (literal p t lo) _ (literal-Safe p sound t lo) λ a ha.
        then-Safe (literal p t hi)
          (λ b. ok (concat (name ∷ codes " BETWEEN " ∷ a ∷ codes " AND " ∷ b ∷ [])))
          (literal-Safe p sound t hi) λ b hb k. past name _ k plain ∙ past a _ k ha ∙ past b [] k hb
  compile_between-Safe (array _) = tt
  compile_between-Safe _ = tt

  compile_operator-Safe :
      (op : Bytes) (node : Json Number) → Safe (compile_operator p name t op node)
  unfolding compile_operator
  compile_operator-Safe op node = elim (Option-cases (find_key op binops)) [
    | inl e ↦ rw e tt
    | inr (o, e) ↦ rw e (
        bind-Safe
          (require (Json.contains_key (codes "value") node)
            (concat (codes "operator '" ∷ op ∷ codes "' needs a value" ∷ [])))
          _
          λ _ _. bind-Safe (Json.at (codes "value") node) _ λ v _.
            then-Safe (literal p t v) _ (literal-Safe p sound t v)
              (λ l hl. compared name o l plain (binops-IsNeutral op o e) hl))
  ]

  -- What follows the test for an object search.
  abbrev listed : Bytes → Json Number → Result Bytes
  listed op node =
      if text_eq op (codes "in")
      then (do v ← Json.at (codes "value") node; compile_in p name t v)
      else if text_eq op (codes "between")
      then (do v ← Json.at (codes "value") node; compile_between p name t v)
      else compile_operator p name t op node

  listed-Safe : (op : Bytes) (node : Json Number) → Safe (listed op node)
  listed-Safe op node = elim (Bool-cases (text_eq op (codes "in"))) [
    | inl e ↦ rw e (bind-Safe (Json.at (codes "value") node) _ (λ v _. compile_in-Safe v))
    | inr e ↦ elim (Bool-cases (text_eq op (codes "between"))) [
      | inl f ↦
          rw (e, f) (bind-Safe (Json.at (codes "value") node) _ (λ v _. compile_between-Safe v))
      | inr f ↦ rw (e, f) (compile_operator-Safe op node)
    ]
  ]

  parenthesized : (a : Bytes) → IsNeutral a → IsNeutral (concat (codes "(" ∷ a ∷ codes ")" ∷ []))
  unfolding scan lex is_calm
  parenthesized a h k = past a _ (suc k) h

  searched : (op : Bytes) (node : Json Number) → Result Bytes
  searched op node = elim (object_text p name op node) [
    | some s ↦ ok (
        concat
          (codes "(" ∷ object_terms p (text_eq op (codes "eq")) (designations s) ∷ codes ")" ∷ []))
    | none ↦ listed op node
  ]

  searched-Safe : (op : Bytes) (node : Json Number) → Safe (searched op node)
  unfolding searched
  searched-Safe op node = elim (Option-cases (object_text p name op node)) [
    | inl e ↦ rw (e, searched) (listed-Safe op node)
    | inr (s, e) ↦
        rw (e, searched)
          (parenthesized _
            (object_terms-IsNeutral p sound (text_eq op (codes "eq")) (designations s)))
  ]

  suffixed : (s : Bytes) → all is_calm s ≡ true → IsNeutral (name ++ s)
  suffixed s h = IsNeutral-append name s plain (calm-IsNeutral s h)

  compile_column-Safe : (op : Bytes) (node : Json Number) → Safe (compile_column p name t op node)
  unfolding compile_column searched is_calm
  compile_column-Safe op node = elim (Bool-cases (text_eq op (codes "isnull"))) [
    | inl e ↦ rw e (suffixed (codes " IS NULL") refl)
    | inr e ↦ elim (Bool-cases (text_eq op (codes "notnull"))) [
      | inl f ↦ rw (e, f) (suffixed (codes " IS NOT NULL") refl)
      | inr f ↦ rw (e, f) (searched-Safe op node)
    ]
  ]

module _ (p : Platform) (sound : IsSound p) where
  open p use {Number}

  -- Behind the field's name.
  field_comparison-Safe :
      (name : Bytes) (node : Json Number)
      → Safe (
          if starts_with (codes "keyword:") name
          then compile_keyword p name node
          else elim (find_key name columns) [
            | none ↦ err (query_error (concat (codes "unknown field '" ∷ name ∷ codes "'" ∷ [])))
            | some t ↦ do
              op ← Json.value (codes "op") (codes "eq") node
              compile_column p name t op node
          ])
  field_comparison-Safe name node = elim (Bool-cases (starts_with (codes "keyword:") name)) [
    | inl e ↦ rw e (compile_keyword-Safe p sound name node)
    | inr e ↦ elim (Option-cases (find_key name columns)) [
      | inl f ↦ rw (e, f) tt
      | inr (t, f) ↦
          rw (e, f)
            (bind-Safe (Json.value (codes "op") (codes "eq") node) _
              λ op _. compile_column-Safe p sound name t (column-IsNeutral name t f) op node)
    ]
  ]

  pub compile_comparison-Safe : (node : Json Number) → Safe (compile_comparison p node)
  unfolding compile_comparison
  compile_comparison-Safe node = bind-Safe (Json.at (codes "field") node) _ λ j _.
      bind-Safe (require_string j (codes "field")) _ λ name _. field_comparison-Safe name node
