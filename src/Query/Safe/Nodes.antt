-- ===== src/Query/Safe/Nodes.antt =====
-- A whole filter of src/query/query.cpp is neutral, by induction over its nodes.
use star_base.Query.Platform.{IsSound}
use star_base.Query.Sql.{scan, is_calm, lex, IsNeutral, calm-IsNeutral}
use star_base.Query.Filter.{
  NodeKind, conjunction, disjunction, negation, cone, tagged, untagged, in_collection, kind_of,
  compile_leaf, join_of, compile_node, at_clauses, junction, compile_more, compile_filter,
}
use star_base.Query.Safe.{Safe, bind-Safe, then-Safe, past}
use star_base.Query.Safe.Leaves.{compile_cone-Safe, compile_tagged-Safe, compile_in_collection-Safe}
use star_base.Query.Safe.Comparison.{compile_comparison-Safe}
use star_base.Common.{
  suc, refl, ◌∙◌, inl, inr, true, false, [], ◌∷◌, Bool-cases, Bytes, codes, concat, text_eq,
}
use star_base.Query.Json
use star_base.Query.Json.{
  Json, null, boolean, number, string, array, object, Items, nil, cons, Members, no_members, member,
  Failure, query_error, json_error, Result, ok, err, ◌>>=◌, ◌>>◌, require,
}
use star_base.Query.Platform.{Platform}

join-IsNeutral : (kind : NodeKind) → IsNeutral (join_of kind)
unfolding join_of is_calm
join-IsNeutral conjunction = calm-IsNeutral (codes " AND ") refl
join-IsNeutral _ = calm-IsNeutral (codes " OR ") refl

empty-IsNeutral : IsNeutral []
unfolding scan
empty-IsNeutral k = refl

negated : (c : Bytes) → IsNeutral c → IsNeutral (concat (codes "NOT (" ∷ c ∷ codes ")" ∷ []))
unfolding scan lex is_calm
negated c h k = past c _ (suc k) h

joined :
    (c rest : Bytes)
    → IsNeutral c
    → IsNeutral rest
    → IsNeutral (concat (codes "(" ∷ c ∷ rest ∷ codes ")" ∷ []))
unfolding scan lex is_calm
joined c rest h r k = past c _ (suc k) h ∙ past rest _ (suc k) r

more :
    (j c rest : Bytes)
    → IsNeutral j
    → IsNeutral c
    → IsNeutral rest
    → IsNeutral (concat (j ∷ c ∷ rest ∷ []))
more j c rest hj hc hr k = past j _ k hj ∙ past c _ k hc ∙ past rest [] k hr ∙ empty-IsNeutral k

module _ (p : Platform) (sound : IsSound p) where
  open p use {Number}

  compile_leaf-Safe : (kind : NodeKind) (node : Json Number) → Safe (compile_leaf p kind node)
  unfolding compile_leaf
  compile_leaf-Safe cone node = compile_cone-Safe p sound node
  compile_leaf-Safe tagged node = compile_tagged-Safe p sound false node
  compile_leaf-Safe untagged node = compile_tagged-Safe p sound true node
  compile_leaf-Safe in_collection node = compile_in_collection-Safe p sound node
  compile_leaf-Safe _ node = compile_comparison-Safe p sound node

  -- What `compile_node` does with the kind of a node.
  by_kind : NodeKind → Members Number → Result Bytes
  by_kind kind ms = elim kind [
    | conjunction ↦ at_clauses p conjunction ms
    | disjunction ↦ at_clauses p disjunction ms
    | negation ↦ at_clauses p negation ms
    | other ↦ compile_leaf p other (object ms)
  ]

  by_kind-Safe :
      (kind : NodeKind) (ms : Members Number)
      → ((k : NodeKind) → Safe (at_clauses p k ms))
      → Safe (by_kind kind ms)
  unfolding by_kind
  by_kind-Safe conjunction ms h = h conjunction
  by_kind-Safe disjunction ms h = h disjunction
  by_kind-Safe negation ms h = h negation
  by_kind-Safe other ms h = compile_leaf-Safe other (object ms)

  node_step :
      (ms : Members Number)
      → ((k : NodeKind) → Safe (at_clauses p k ms))
      → Safe (compile_node p (object ms))
  unfolding compile_node by_kind
  node_step ms h =
      bind-Safe (Json.value (codes "op") [] (object ms)) (λ op. by_kind (kind_of op) ms)
        (λ op _. by_kind-Safe (kind_of op) ms h)

  clauses_step :
      (kind : NodeKind) (k : Bytes) (v : Json Number) (ms : Members Number)
      → Safe (junction p kind v)
      → Safe (at_clauses p kind ms)
      → Safe (at_clauses p kind (member k v ms))
  unfolding compile_node
  clauses_step kind k v ms here there = elim (Bool-cases (text_eq k (codes "clauses"))) [
    | inl e ↦ rw (e, at_clauses) here
    | inr e ↦ rw (e, at_clauses) there
  ]

  mutual
    unfolding compile_node

    node-Safe : (node : Json Number) → Safe (compile_node p node)
    node-Safe (object ms) = node_step ms (λ kind. clauses-Safe kind ms)
    node-Safe _ = tt

    clauses-Safe : (kind : NodeKind) (ms : Members Number) → Safe (at_clauses p kind ms)
    clauses-Safe kind no_members = tt
    clauses-Safe kind (member k v ms) =
        clauses_step kind k v ms (junction-Safe kind v) (clauses-Safe kind ms)

    junction-Safe : (kind : NodeKind) (v : Json Number) → Safe (junction p kind v)
    junction-Safe negation (array (cons x nil)) =
        then-Safe (compile_node p x) (λ c. ok (concat (codes "NOT (" ∷ c ∷ codes ")" ∷ [])))
          (node-Safe x) negated
    junction-Safe negation (array _) = tt
    junction-Safe negation _ = tt
    junction-Safe kind (array (cons x xs)) = then-Safe (compile_node p x) _ (node-Safe x) λ c hc.
        then-Safe (compile_more p kind xs)
          (λ rest. ok (concat (codes "(" ∷ c ∷ rest ∷ codes ")" ∷ []))) (more-Safe kind xs)
          (λ rest hr. joined c rest hc hr)
    junction-Safe kind (array nil) = tt
    junction-Safe kind _ = tt

    more-Safe : (kind : NodeKind) (xs : Items Number) → Safe (compile_more p kind xs)
    more-Safe kind nil = empty-IsNeutral
    more-Safe kind (cons x xs) = then-Safe (compile_node p x) _ (node-Safe x) λ c hc.
        then-Safe (compile_more p kind xs) (λ rest. ok (concat (join_of kind ∷ c ∷ rest ∷ [])))
          (more-Safe kind xs) (λ rest hr. more (join_of kind) c rest (join-IsNeutral kind) hc hr)

-- The SQL of a filter keeps to its place: wherever the server has read it outside quotes, at any depth
-- of parentheses, it is outside quotes again at the same depth behind it. No text of the filter, be it
-- a name, a value or a keyword, can end a literal, close a parenthesis of the statement, or begin a
-- comment or a second statement. What the platform is assumed to do stands in `IsSound`.
pub compile_filter-Safe :
    (p : Platform) → IsSound p → (ast : Json p.Number) → Safe (compile_filter p ast)
unfolding compile_filter is_calm
compile_filter-Safe p sound null = calm-IsNeutral (codes "1=1") refl
compile_filter-Safe p sound (object no_members) = calm-IsNeutral (codes "1=1") refl
compile_filter-Safe p sound (object (member k v ms)) = node-Safe p sound (object (member k v ms))
compile_filter-Safe p sound _ = tt
