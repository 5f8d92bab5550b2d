-- ===== src/Query/Filter.antt =====
-- The recursion of src/query/query.cpp over a filter, its fields, and the sort clause.
use star_base.Query.Columns.{columns, find_key}
use star_base.Query.Predicate.{
  compile_comparison, compile_cone, compile_tagged, compile_in_collection,
}
use star_base.Common.{
  true, false, not, ◌&&◌, ◌||◌, List, [], ◌∷◌, ◌++◌, if◌then◌else◌, is_some, is_empty, any, Bytes,
  codes, concat, text_eq,
}
use star_base.Common.Ascii.{lower}
use star_base.Query.Json
use star_base.Query.Json.{
  Json, null, boolean, number, string, array, object, Items, nil, cons, Members, no_members, member,
  Failure, query_error, json_error, Result, ok, err, ◌>>=◌, ◌>>◌, require,
}
use star_base.Query.Platform.{Platform}

-- What the operator of a node asks for.
pub data NodeKind : Type 0 where
  conjunction disjunction negation cone tagged untagged in_collection comparison : NodeKind

unfoldable pub kind_of : Bytes → NodeKind
unfolding text_eq
kind_of op =
    if text_eq op (codes "and")
    then conjunction
    else if text_eq op (codes "or")
    then disjunction
    else if text_eq op (codes "not")
    then negation
    else if text_eq op (codes "cone")
    then cone
    else if text_eq op (codes "tagged")
    then tagged
    else if text_eq op (codes "untagged")
    then untagged
    else if text_eq op (codes "in_collection")
    then in_collection
    else comparison

-- The join between two clauses, and the message where there is none.
unfoldable pub join_of : NodeKind → Bytes
join_of conjunction = codes " AND "
join_of kind = codes " OR "

unfoldable pub no_clauses : NodeKind → Failure
no_clauses conjunction = query_error (codes "'and' needs a non-empty clauses array")
no_clauses negation = query_error (codes "'not' needs exactly one clause")
no_clauses kind = query_error (codes "'or' needs a non-empty clauses array")

module _ (p : Platform) where
  open p use {Number}

  unfoldable pub compile_leaf : NodeKind → Json Number → Result Bytes
  unfolding compile_comparison compile_cone compile_tagged compile_in_collection
  compile_leaf cone node = compile_cone p node
  compile_leaf tagged node = compile_tagged p false node
  compile_leaf untagged node = compile_tagged p true node
  compile_leaf in_collection node = compile_in_collection p node
  compile_leaf kind node = compile_comparison p node

  -- `compile_node`. The members of a node are walked to the clauses, whose nodes are parts of it.
  unfoldable mutual
    pub compile_node : Json Number → Result Bytes
    compile_node (object ms) = do
      op ← Json.value (codes "op") [] (object ms)
      elim (kind_of op) [
        | conjunction ↦ at_clauses conjunction ms
        | disjunction ↦ at_clauses disjunction ms
        | negation ↦ at_clauses negation ms
        | kind ↦ compile_leaf kind (object ms)
      ]
    compile_node j = err (query_error (codes "each filter node must be an object"))

    -- `node.at("clauses")`, and what becomes of it.
    pub at_clauses : NodeKind → Members Number → Result Bytes
    at_clauses kind no_members = err json_error
    at_clauses kind (member k v ms) = elim (text_eq k (codes "clauses")) [
      | true ↦ junction kind v
      | false ↦ at_clauses kind ms
    ]

    pub junction : NodeKind → Json Number → Result Bytes
    junction negation (array (cons x nil)) = do
      c ← compile_node x
      ok (concat (codes "NOT (" ∷ c ∷ codes ")" ∷ []))
    junction negation j = err (no_clauses negation)
    junction kind (array (cons x xs)) = do
      c ← compile_node x
      rest ← compile_more kind xs
      ok (concat (codes "(" ∷ c ∷ rest ∷ codes ")" ∷ []))
    junction kind j = err (no_clauses kind)

    -- The clauses behind the first, each behind its join.
    pub compile_more : NodeKind → Items Number → Result Bytes
    compile_more kind nil = ok []
    compile_more kind (cons x xs) = do
      c ← compile_node x
      rest ← compile_more kind xs
      ok (concat (join_of kind ∷ c ∷ rest ∷ []))

  -- The whole condition; no filter at all selects everything.
  unfoldable pub compile_filter : Json Number → Result Bytes
  unfolding compile_node kind_of compile_leaf join_of no_clauses text_eq
  compile_filter null = ok (codes "1=1")
  compile_filter (object no_members) = ok (codes "1=1")
  compile_filter ast = compile_node ast

-- A field joins the list if it is a promoted column that is not there yet.
unfoldable pub add_field : Bytes → List Bytes → List Bytes
add_field f out =
    if is_some (find_key f columns) && not (any (λ o. text_eq o f) out) then out ++ f ∷ [] else out

module _ {N : Type 0} where
  -- One entry of the sort clause: a known column and a direction.
  unfoldable pub sort_term : Json N → Result Bytes
  unfolding find_key columns lower text_eq
  sort_term s = do
    column ← Json.value (codes "field") [] s
    require (is_some (find_key column columns))
        (concat (codes "cannot sort by '" ∷ column ∷ codes "'" ∷ []))
    raw ← Json.value (codes "dir") (codes "asc") s
    let dir = lower raw
    require (text_eq dir (codes "asc") || text_eq dir (codes "desc"))
        (codes "sort dir must be asc or desc")
    ok (
        concat (
          column
          ∷ codes " "
          ∷ (if text_eq dir (codes "desc") then codes "DESC" else codes "ASC")
          ∷ []))

  -- The loop of `compile_sort`: the text so far and the entries that are left.
  unfoldable pub sort_loop : Bytes → Items N → Result Bytes
  unfolding sort_term
  sort_loop out nil = ok out
  sort_loop out (cons s ss) = do
    t ← sort_term s
    sort_loop (concat (out ∷ (if is_empty out then [] else codes ", ") ∷ t ∷ [])) ss

  unfoldable pub compile_sort : Json N → Result Bytes
  unfolding sort_loop
  compile_sort (array (cons s ss)) = sort_loop [] (cons s ss)
  compile_sort j = ok (codes "date_obs_utc DESC")

  unfoldable pub collect_leaf : Json N → List Bytes → List Bytes
  unfolding add_field
  collect_leaf node out = elim (Json.at (codes "field") node) [
    | ok (string f) ↦ add_field f out
    | _ ↦ out
  ]

  -- `collect_fields`: the promoted columns of a node, behind those found so far.
  unfoldable mutual
    pub collect_fields : Json N → List Bytes → Result (List Bytes)
    collect_fields (object ms) out = do
      op ← Json.value (codes "op") [] (object ms)
      elim (kind_of op) [
        | conjunction ↦ collect_clauses ms out
        | disjunction ↦ collect_clauses ms out
        | negation ↦ collect_clauses ms out
        | comparison ↦ ok (collect_leaf (object ms) out)
        | _ ↦ ok out
      ]
    collect_fields j out = ok out

    pub collect_clauses : Members N → List Bytes → Result (List Bytes)
    collect_clauses no_members out = ok out
    collect_clauses (member k v ms) out = elim (text_eq k (codes "clauses")) [
      | true ↦ collect_array v out
      | false ↦ collect_clauses ms out
    ]

    pub collect_array : Json N → List Bytes → Result (List Bytes)
    collect_array (array xs) out = collect_items xs out
    collect_array j out = ok out

    pub collect_items : Items N → List Bytes → Result (List Bytes)
    collect_items nil out = ok out
    collect_items (cons x xs) out = do found ← collect_fields x out; collect_items xs found

  -- The promoted columns that a filter names, each once, in the order in which it names them.
  unfoldable pub filter_fields : Json N → Result (List Bytes)
  unfolding collect_fields kind_of collect_leaf text_eq find_key columns
  filter_fields (object (member k v ms)) = collect_fields (object (member k v ms)) []
  filter_fields ast = ok []
