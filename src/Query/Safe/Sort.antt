-- ===== src/Query/Safe/Sort.antt =====
-- What the sort clause of src/query/query.cpp is made of.
use star_base.Query.Sql.{scan, is_calm, IsNeutral, calm-IsNeutral, IsNeutral-append}
use star_base.Query.Columns.{columns, find_key}
use star_base.Query.Filter.{sort_term, sort_loop, compile_sort}
use star_base.Query.Safe.{past, column-IsNeutral}
use star_base.Common.{
  ◌≡◌, refl, sym, ap, ◌∙◌, subst, inl, inr, Bool, true, false, ◌||◌, List, [], ◌∷◌, ◌++◌,
  append-nil, append_assoc, All, arith, if◌then◌else◌, Option-cases, is_some, is_empty, Bytes,
  codes, concat, text_eq,
}
use star_base.Common.Ascii.{lower}
use star_base.Query.Json
use star_base.Query.Json.{
  Json, null, boolean, number, string, array, object, Items, nil, cons, Members, no_members, member,
  Failure, query_error, json_error, Result, ok, err, ◌>>=◌, ◌>>◌, require,
}

known-IsNeutral : (c : Bytes) → is_some (find_key c columns) ≡ true → IsNeutral c
known-IsNeutral c h = elim (Option-cases (find_key c columns)) [
  | inl e ↦ absurd (ground arith)
  | inr (t, e) ↦ column-IsNeutral c t e
]

required : (b : Bool) (m : Bytes) (u : Unit {0}) → require b m ≡ ok u → b ≡ true
required true m u h = refl
required false m u h = absurd (cc)

-- A column and whether it is sorted in descending order.
abbrev pub term_text : Bytes × Bool → Bytes
term_text (c, descending) =
    concat (c ∷ codes " " ∷ (if descending then codes "DESC" else codes "ASC") ∷ [])

-- The clause of some terms.
abbrev pub order_by : List (Bytes × Bool) → Bytes
order_by [] = []
order_by (t ∷ []) = term_text t
order_by (t ∷ u ∷ ts) = term_text t ++ (codes ", " ++ order_by (u ∷ ts))

-- The column is a promoted one.
abbrev pub IsKnown : Bytes × Bool → Type 0
IsKnown t = is_some (find_key t.0 columns) ≡ true

-- The text is the clause of one or more terms over promoted columns, and neutral.
abbrev pub IsOrder : Bytes → Type 0
IsOrder s =
    IsNeutral s
    × ((t : Bytes × Bool) × (ts : List (Bytes × Bool)) × All IsKnown (t ∷ ts)
        × (s ≡ order_by (t ∷ ts)))

-- An error, or a text of `P`.
abbrev pub Holds : (Bytes → Type 0) → Result Bytes → Type 0
Holds P (ok s) = P s
Holds P (err e) = Unit {0}

bind-Holds {ℓ} :
    {A : Type ℓ} (P : Bytes → Type 0) (m : Result A) (f : A → Result Bytes)
    → ((a : A) → m ≡ ok a → Holds P (f a))
    → Holds P (m >>= f)
bind-Holds P (ok a) f h = h a refl
bind-Holds P (err e) f h = tt

then-Holds :
    (Q P : Bytes → Type 0) (m : Result Bytes) (f : Bytes → Result Bytes)
    → Holds Q m
    → ((s : Bytes) → Q s → Holds P (f s))
    → Holds P (m >>= f)
then-Holds Q P (ok s) f q h = h s q
then-Holds Q P (err e) f q h = tt

direction-IsNeutral : (b : Bool) → IsNeutral (if b then codes "DESC" else codes "ASC")
unfolding is_calm
direction-IsNeutral true = calm-IsNeutral (codes "DESC") refl
direction-IsNeutral false = calm-IsNeutral (codes "ASC") refl

three-IsNeutral :
    (a b c : Bytes) → IsNeutral a → IsNeutral b → IsNeutral c → IsNeutral (concat (a ∷ b ∷ c ∷ []))
unfolding scan
three-IsNeutral a b c ha hb hc k = past a _ k ha ∙ past b _ k hb ∙ past c [] k hc

term-IsNeutral : (t : Bytes × Bool) → IsKnown t → IsNeutral (term_text t)
unfolding is_calm
term-IsNeutral (c, b) h =
    three-IsNeutral c (codes " ") _ (known-IsNeutral c h) (calm-IsNeutral (codes " ") refl)
      (direction-IsNeutral b)

order-IsNeutral : (ts : List (Bytes × Bool)) → All IsKnown ts → IsNeutral (order_by ts)
unfolding scan is_calm
order-IsNeutral [] h = λ k. refl
order-IsNeutral (t ∷ []) (h, hs) = term-IsNeutral t h
order-IsNeutral (t ∷ u ∷ ts) (h, hs) = IsNeutral-append (term_text t) _ (term-IsNeutral t h) (
    IsNeutral-append (codes ", ") (order_by (u ∷ ts)) (calm-IsNeutral (codes ", ") refl)
      (order-IsNeutral (u ∷ ts) hs))

filled-append : (s t : Bytes) → is_empty t ≡ false → is_empty (s ++ t) ≡ false
filled-append [] t h = h
filled-append (c ∷ s) t h = refl

term-filled : (t : Bytes × Bool) (s : Bytes) → is_empty (term_text t ++ s) ≡ false
term-filled (c, b) s = rw (append_assoc c _ s) (filled-append c _ refl)

order-filled : (t : Bytes × Bool) (ts : List (Bytes × Bool)) → is_empty (order_by (t ∷ ts)) ≡ false
order-filled (c, b) [] = filled-append c _ refl
order-filled t (u ∷ ts) = term-filled t _

-- One more term behind the others, as the loop puts it.
order-more :
    (t : Bytes × Bool) (ts : List (Bytes × Bool)) (u : Bytes × Bool)
    → concat (order_by (t ∷ ts) ∷ codes ", " ∷ term_text u ∷ []) ≡ order_by (t ∷ ts ++ u ∷ [])
order-more t [] u = ap (λ s. term_text t ++ (codes ", " ++ s)) (append-nil (term_text u))
order-more t (v ∷ ts) u =
    append_assoc (term_text t) _ _ ∙ ap (λ s. term_text t ++ (codes ", " ++ s)) (order-more v ts u)

All-snoc :
    (ts : List (Bytes × Bool)) (u : Bytes × Bool)
    → All IsKnown ts
    → IsKnown u
    → All IsKnown (ts ++ u ∷ [])
All-snoc [] u h k = (k, tt)
All-snoc (t ∷ ts) u (h, hs) k = (h, All-snoc ts u hs k)

-- The text of one term.
abbrev IsTerm : Bytes → Type 0
IsTerm s = (t : Bytes × Bool) × IsKnown t × (s ≡ term_text t)

default-IsOrder : IsOrder (codes "date_obs_utc DESC")
unfolding is_calm find_key columns
default-IsOrder = (
  calm-IsNeutral (codes "date_obs_utc DESC") refl,
  ((codes "date_obs_utc", true), [], (refl, tt), refl),
)

module _ {N : Type 0} where
  sort_term-Holds : (s : Json N) → Holds IsTerm (sort_term s)
  unfolding sort_term
  sort_term-Holds s = bind-Holds IsTerm (Json.value (codes "field") [] s) _ λ c _.
      bind-Holds IsTerm
        (require (is_some (find_key c columns))
          (concat (codes "cannot sort by '" ∷ c ∷ codes "'" ∷ [])))
        _
        λ u known. bind-Holds IsTerm (Json.value (codes "dir") (codes "asc") s) _ λ raw _.
          bind-Holds IsTerm
            (require (text_eq (lower raw) (codes "asc") || text_eq (lower raw) (codes "desc"))
              (codes "sort dir must be asc or desc"))
            _ λ _ _. ((c, text_eq (lower raw) (codes "desc")), required _ _ u known, refl)

  sort_loop-Holds :
      (out : Bytes) (t : Bytes × Bool) (ts : List (Bytes × Bool)) (ss : Items N)
      → All IsKnown (t ∷ ts)
      → out ≡ order_by (t ∷ ts)
      → Holds IsOrder (sort_loop out ss)
  unfolding sort_loop
  sort_loop-Holds out t ts nil h e =
      (subst IsNeutral (sym e) (order-IsNeutral (t ∷ ts) h), (t, ts, h, e))
  sort_loop-Holds out t ts (cons s ss) h e =
      then-Holds IsTerm IsOrder (sort_term s) _ (sort_term-Holds s) λ x (u, known, q).
        sort_loop-Holds _ t (ts ++ u ∷ []) ss (All-snoc (t ∷ ts) u h known)
          (rw (e, q, order-filled t ts) (order-more t ts u))

  -- Whatever the request holds, the sort is an error or a clause of one or more terms with commas between,
  -- each a promoted column with `ASC` or `DESC`; so no other text reaches the statement, and the clause is
  -- neutral.
  pub compile_sort-IsOrder : (sort : Json N) → Holds IsOrder (compile_sort sort)
  unfolding compile_sort sort_loop
  compile_sort-IsOrder (array (cons s ss)) =
      then-Holds IsTerm IsOrder (sort_term s) _ (sort_term-Holds s)
        λ x (u, known, q). sort_loop-Holds _ u [] ss (known, tt) (append-nil x ∙ q)
  compile_sort-IsOrder (array nil) = default-IsOrder
  compile_sort-IsOrder _ = default-IsOrder
