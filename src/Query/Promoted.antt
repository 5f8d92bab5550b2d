-- ===== src/Query/Promoted.antt =====
-- The columns that `filter_fields` (src/query/query.cpp) reports.
use star_base.Query.Columns.{columns, find_key}
use star_base.Query.Filter.{
  NodeKind, conjunction, disjunction, negation, comparison, kind_of, add_field, collect_leaf,
  collect_fields, collect_clauses, collect_array, collect_items, filter_fields,
}
use star_base.Common.{
  ◌≡◌, refl, subst, inl, inr, Bool, true, not, ◌&&◌, ◌||◌, List, [], ◌∷◌, ◌++◌, arith, Bool-cases,
  is_some, all, any, all-append, Bytes, codes, text_eq,
}
use star_base.Query.Json
use star_base.Query.Json.{
  Json, null, boolean, number, string, array, object, Items, nil, cons, Members, no_members, member,
  Failure, query_error, json_error, Result, ok, err, ◌>>=◌, ◌>>◌, require,
}

abbrev pub is_column : Bytes → Bool
is_column f = is_some (find_key f columns)

abbrev pub distinct : List Bytes → Bool
distinct [] = true
distinct (f ∷ fs) = not (any (text_eq f) fs) && distinct fs

-- Promoted columns, none of them twice.
abbrev pub IsSelection : List Bytes → Type 0
IsSelection fs = (all is_column fs ≡ true) × (distinct fs ≡ true)

any_snoc :
    (p : Bytes → Bool) (xs : List Bytes) (y : Bytes) → any p (xs ++ y ∷ []) ≡ (any p xs || p y)
any_snoc p [] y = ground arith
any_snoc p (x ∷ xs) y = ground (arith, any_snoc p xs y)

distinct_snoc :
    (xs : List Bytes) (y : Bytes)
    → distinct (xs ++ y ∷ []) ≡ (distinct xs && not (any (λ o. text_eq o y) xs))
distinct_snoc [] y = refl
distinct_snoc (x ∷ xs) y = ground (arith, any_snoc (text_eq x) xs y, distinct_snoc xs y)

add_field-IsSelection :
    (f : Bytes) (out : List Bytes) → IsSelection out → IsSelection (add_field f out)
unfolding add_field
add_field-IsSelection f out h =
    ground (arith, all-append is_column out (f ∷ []), distinct_snoc out f)

-- An error, or a selection.
abbrev Selects : Result (List Bytes) → Type 0
Selects (ok fs) = IsSelection fs
Selects (err e) = Unit {0}

bind-Selects {ℓ} :
    {A : Type ℓ} (m : Result A) (f : A → Result (List Bytes))
    → ((a : A) → Selects (f a))
    → Selects (m >>= f)
bind-Selects (ok a) f h = h a
bind-Selects (err e) f h = tt

then-Selects :
    (m : Result (List Bytes)) (f : List Bytes → Result (List Bytes))
    → Selects m
    → ((fs : List Bytes) → IsSelection fs → Selects (f fs))
    → Selects (m >>= f)
then-Selects (ok fs) f m h = h fs m
then-Selects (err e) f m h = tt

module _ {N : Type 0} where
  collect_leaf-IsSelection :
      (node : Json N) (out : List Bytes) → IsSelection out → IsSelection (collect_leaf node out)
  unfolding collect_leaf
  collect_leaf-IsSelection node out h = found (Json.at (codes "field") node)
    where
      found :
          (r : Result (Json N)) → IsSelection (elim r [ ok (string f) ↦ add_field f out | _ ↦ out ])
      found (ok (string f)) = add_field-IsSelection f out h
      found (ok _) = h
      found (err e) = h

  by_kind : NodeKind → Members N → List Bytes → Result (List Bytes)
  by_kind kind ms out = elim kind [
    | conjunction ↦ collect_clauses ms out
    | disjunction ↦ collect_clauses ms out
    | negation ↦ collect_clauses ms out
    | comparison ↦ ok (collect_leaf (object ms) out)
    | _ ↦ ok out
  ]

  by_kind-Selects :
      (kind : NodeKind) (ms : Members N) (out : List Bytes)
      → IsSelection out
      → Selects (collect_clauses ms out)
      → Selects (by_kind kind ms out)
  unfolding by_kind
  by_kind-Selects conjunction ms out h c = c
  by_kind-Selects disjunction ms out h c = c
  by_kind-Selects negation ms out h c = c
  by_kind-Selects comparison ms out h c = collect_leaf-IsSelection (object ms) out h
  by_kind-Selects _ ms out h c = h

  node_step :
      (ms : Members N) (out : List Bytes)
      → IsSelection out
      → Selects (collect_clauses ms out)
      → Selects (collect_fields (object ms) out)
  unfolding collect_fields by_kind
  node_step ms out h c =
      bind-Selects (Json.value (codes "op") [] (object ms)) (λ op. by_kind (kind_of op) ms out)
        (λ op. by_kind-Selects (kind_of op) ms out h c)

  clauses_step :
      (k : Bytes) (v : Json N) (ms : Members N) (out : List Bytes)
      → Selects (collect_array v out)
      → Selects (collect_clauses ms out)
      → Selects (collect_clauses (member k v ms) out)
  unfolding collect_fields
  clauses_step k v ms out here there = elim (Bool-cases (text_eq k (codes "clauses"))) [
    | inl e ↦ rw (e, collect_clauses) here
    | inr e ↦ rw (e, collect_clauses) there
  ]

  mutual
    unfolding collect_fields

    fields-Selects :
        (node : Json N) (out : List Bytes) → IsSelection out → Selects (collect_fields node out)
    fields-Selects (object ms) out h = node_step ms out h (clauses-Selects ms out h)
    fields-Selects _ out h = h

    clauses-Selects :
        (ms : Members N) (out : List Bytes) → IsSelection out → Selects (collect_clauses ms out)
    clauses-Selects no_members out h = h
    clauses-Selects (member k v ms) out h =
        clauses_step k v ms out (array-Selects v out h) (clauses-Selects ms out h)

    array-Selects :
        (v : Json N) (out : List Bytes) → IsSelection out → Selects (collect_array v out)
    array-Selects (array xs) out h = items-Selects xs out h
    array-Selects _ out h = h

    items-Selects :
        (xs : Items N) (out : List Bytes) → IsSelection out → Selects (collect_items xs out)
    items-Selects nil out h = h
    items-Selects (cons x xs) out h =
        then-Selects (collect_fields x out) _ (fields-Selects x out h)
          (λ found k. items-Selects xs found k)

  filter_fields-Selects : (j : Json N) → Selects (filter_fields j)
  unfolding filter_fields
  filter_fields-Selects (object (member k v ms)) =
      fields-Selects (object (member k v ms)) [] (refl, refl)
  filter_fields-Selects (object no_members) = (refl, refl)
  filter_fields-Selects _ = (refl, refl)

  -- The columns that a filter is reported to use are promoted columns, and none is reported twice.
  pub filter_fields-IsSelection :
      (ast : Json N) (fs : List Bytes) → filter_fields ast ≡ ok fs → IsSelection fs
  filter_fields-IsSelection ast fs e = subst Selects e (filter_fields-Selects ast)
