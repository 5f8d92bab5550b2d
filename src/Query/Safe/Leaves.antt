-- ===== src/Query/Safe/Leaves.antt =====
-- The leaves of a filter (src/query/query.cpp) are neutral.
use star_base.Query.Platform.{IsSound}
use star_base.Query.Sql.{
  outside, dashed, scan, scan_part, scan-number, is_calm, lex, IsNeutral, calm-IsNeutral,
  IsNeutral-append, decimal_int-IsNeutral,
}
use star_base.Query.Columns.{ColumnType, str, num, binops, find_key, literal, quote}
use star_base.Query.Predicate.{
  keyword_exists, keyword_rhs, keyword_comparison, compile_keyword, ra_band, cone_box, haversine,
  cone_condition, compile_cone, double_at, ra_half_width, name_or_id, compile_tagged,
  compile_in_collection, object_term, object_terms, literal_list,
}
use star_base.Query.Safe.{
  Safe, bind-Safe, then-Safe, past, inside, double-IsNeutral, quote-IsNeutral, literal-Safe,
  binops-IsNeutral,
}
use star_base.Common.{
  ℕ, suc, ◌≡◌, refl, ◌∙◌, ◌⊎◌, inl, inr, Bool, true, false, not, ◌&&◌, ◌||◌, List, [], ◌∷◌, ◌++◌,
  if◌then◌else◌, Bool-cases, Option-cases, is_empty, drop, Bytes, codes, concat, text_eq,
}
use star_base.Common.Int.{decimal_int}
use star_base.Query.Json
use star_base.Query.Json.{
  Json, null, boolean, number, string, array, object, Items, nil, cons, Members, no_members, member,
  Failure, query_error, json_error, Result, ok, err, ◌>>=◌, ◌>>◌, require,
}
use star_base.Query.Platform.{Platform}

-- A column, an operator and a value.
pub compared :
    (a o b : Bytes)
    → IsNeutral a
    → IsNeutral o
    → IsNeutral b
    → IsNeutral (concat (a ∷ codes " " ∷ o ∷ codes " " ∷ b ∷ []))
unfolding scan lex is_calm
compared a o b ha ho hb k = past a _ k ha ∙ past o _ k ho ∙ past b [] k hb

module _ (p : Platform) (sound : IsSound p) where
  open p use {Double, Number, escape, to_string}

  keyword_exists-IsNeutral : (kw c : Bytes) → IsNeutral c → IsNeutral (keyword_exists p kw c)
  unfolding keyword_exists scan lex is_calm
  keyword_exists-IsNeutral kw c h k =
      inside p sound kw _ (suc k) ∙ past c (codes ")" ++ []) (suc k) h

  keyword_rhs-Safe : (o : Bytes) (v : Json Number) → IsNeutral o → Safe (keyword_rhs p o v)
  unfolding keyword_rhs scan lex is_calm
  keyword_rhs-Safe o (number n) h =
      then-Safe (literal p num (number n))
        (λ l. ok (concat (codes "CAST(k.value AS DECIMAL(20,6)) " ∷ o ∷ codes " " ∷ l ∷ [])))
        (literal-Safe p sound num (number n)) (λ l hl k. past o _ k h ∙ past l [] k hl)
  keyword_rhs-Safe o v h =
      then-Safe (literal p str v) (λ l. ok (concat (codes "k.value " ∷ o ∷ codes " " ∷ l ∷ [])))
        (literal-Safe p sound str v) (λ l hl k. past o _ k h ∙ past l [] k hl)

  and-IsNeutral : (c : Bytes) → IsNeutral c → IsNeutral (codes " AND " ++ c)
  unfolding is_calm
  and-IsNeutral c h = IsNeutral-append (codes " AND ") c (calm-IsNeutral _ refl) h

  keyword_comparison-Safe :
      (kw op : Bytes) (node : Json Number) → Safe (keyword_comparison p kw op node)
  unfolding keyword_comparison
  keyword_comparison-Safe kw op node = elim (Option-cases (find_key op binops)) [
    | inl e ↦ rw e tt
    | inr (o, e) ↦ rw e (
        bind-Safe
          (require (Json.contains_key (codes "value") node)
            (codes "keyword predicate needs a value"))
          _
          λ _ _. bind-Safe (Json.at (codes "value") node) _ λ v _.
            then-Safe (keyword_rhs p o v) (λ rhs. ok (keyword_exists p kw (codes " AND " ++ rhs)))
              (keyword_rhs-Safe o v (binops-IsNeutral op o e))
              (λ rhs h. keyword_exists-IsNeutral kw _ (and-IsNeutral rhs h)))
  ]

  not-IsNeutral : (c : Bytes) → IsNeutral c → IsNeutral (codes "NOT " ++ c)
  unfolding is_calm
  not-IsNeutral c h = IsNeutral-append (codes "NOT ") c (calm-IsNeutral _ refl) h

  nothing-IsNeutral : IsNeutral []
  unfolding scan
  nothing-IsNeutral k = refl

  pub compile_keyword-Safe :
      (name : Bytes) (node : Json Number) → Safe (compile_keyword p name node)
  unfolding compile_keyword
  compile_keyword-Safe name node =
      bind-Safe (require (not (is_empty (drop 8 name))) (codes "empty keyword name")) _ λ _ _.
        bind-Safe (Json.value (codes "op") (codes "eq") node) _ λ op _.
          keyword_cases op (Bool-cases (text_eq op (codes "isnull")))
            (Bool-cases (text_eq op (codes "notnull")))
    where
      kw : Bytes
      kw = drop 8 name

      present : IsNeutral (keyword_exists p kw [])
      present = keyword_exists-IsNeutral kw [] nothing-IsNeutral

      keyword_cases :
          (op : Bytes)
          → (text_eq op (codes "isnull") ≡ true) ⊎ (text_eq op (codes "isnull") ≡ false)
          → (text_eq op (codes "notnull") ≡ true) ⊎ (text_eq op (codes "notnull") ≡ false)
          → Safe (
              if text_eq op (codes "isnull")
              then ok (codes "NOT " ++ keyword_exists p kw [])
              else if text_eq op (codes "notnull")
              then ok (keyword_exists p kw [])
              else keyword_comparison p kw op node)
      keyword_cases op (inl e) _ = rw e (not-IsNeutral _ present)
      keyword_cases op (inr e) (inl f) = rw (e, f) present
      keyword_cases op (inr e) (inr f) = rw (e, f) (keyword_comparison-Safe kw op node)

  around-IsNeutral :
      (ra w : Double)
      → IsNeutral (
          concat (
            codes " AND ra_deg BETWEEN "
            ∷ to_string (p.sub ra w)
            ∷ codes " AND "
            ∷ to_string (p.add ra w)
            ∷ []))
  unfolding scan lex is_calm
  around-IsNeutral ra w k =
      past (to_string (p.sub ra w)) _ k (double-IsNeutral p sound _)
      ∙ past (to_string (p.add ra w)) [] k (double-IsNeutral p sound _)

  ra_band-IsNeutral : (ra w : Double) → IsNeutral (ra_band p ra w)
  unfolding ra_band
  ra_band-IsNeutral ra w = elim (Bool-cases (p.less w (p.literal (codes "180.0")))) [
    | inl e ↦ rw e (around-IsNeutral ra w)
    | inr e ↦ rw e nothing-IsNeutral
  ]

  cone_box-IsNeutral : (ra dec r : Double) → IsNeutral (cone_box p ra dec r)
  unfolding cone_box scan lex is_calm
  cone_box-IsNeutral ra dec r k =
      past (to_string (p.sub dec r)) _ k (double-IsNeutral p sound _)
      ∙ past (to_string (p.add dec r)) _ k (double-IsNeutral p sound _)
      ∙ past (ra_band p ra (ra_half_width p dec r)) [] k
          (ra_band-IsNeutral ra (ra_half_width p dec r))

  -- A number behind the minus of a difference; MySQL reads `--` before a digit as two signs.
  behind_dash :
      (d : Double) (rest : Bytes) (k : ℕ)
      → scan (dashed k) (to_string d ++ rest) ≡ scan (outside k) rest
  behind_dash d rest k =
      scan_part (to_string d) rest (dashed k) (outside k)
        (scan-number 1 (to_string d) k (sound.to_string_number d))

  haversine-IsNeutral : (ra dec r : Double) → IsNeutral (haversine p ra dec r)
  unfolding haversine scan lex is_calm
  haversine-IsNeutral ra dec r k =
      behind_dash dec _ (suc (suc (suc (suc (suc (suc k))))))
      ∙ past (to_string dec) _ (suc (suc (suc (suc (suc k))))) (double-IsNeutral p sound dec)
      ∙ behind_dash ra _ (suc (suc (suc (suc (suc (suc k))))))
      ∙ past (to_string r) [] k (double-IsNeutral p sound r)

  cone_condition-IsNeutral : (ra dec r : Double) → IsNeutral (cone_condition p ra dec r)
  unfolding cone_condition scan lex is_calm
  cone_condition-IsNeutral ra dec r k =
      past (cone_box p ra dec r) _ (suc (suc k)) (cone_box-IsNeutral ra dec r)
      ∙ past (haversine p ra dec r) _ (suc k) (haversine-IsNeutral ra dec r)

  pub compile_cone-Safe : (node : Json Number) → Safe (compile_cone p node)
  unfolding compile_cone
  compile_cone-Safe node =
      bind-Safe
        (require
          (Json.contains_key (codes "ra") node
            && (Json.contains_key (codes "dec") node
                && Json.contains_key (codes "radius_deg") node))
          (codes "cone needs ra, dec, and radius_deg"))
        _
        λ _ _. bind-Safe (double_at p (codes "ra") node) _ λ ra _.
          bind-Safe (double_at p (codes "dec") node) _ λ dec _.
            bind-Safe (double_at p (codes "radius_deg") node) _ λ r _.
              bind-Safe
                (require
                  (not (p.less_eq r (p.literal (codes "0")) || p.less (p.literal (codes "180")) r))
                  (codes "cone radius_deg out of range"))
                _ λ _ _. cone_condition-IsNeutral ra dec r

  name_or_id-Safe :
      (i n m : Bytes) (v : Json Number) → IsNeutral i → IsNeutral n → Safe (name_or_id p i n m v)
  unfolding name_or_id scan lex is_calm
  name_or_id-Safe i n m (number x) hi hn = λ k.
      past i _ k hi ∙ past (decimal_int (p.get_long x)) [] k (decimal_int-IsNeutral (p.get_long x))
  name_or_id-Safe i n m (string s) hi hn =
      λ k. past n _ k hn ∙ past (quote p s) [] k (quote-IsNeutral p sound s)
  name_or_id-Safe i n m _ hi hn = tt

  tag_exists-IsNeutral :
      (c : Bytes)
      → IsNeutral c
      → IsNeutral (
          concat (
            codes
              "EXISTS (SELECT 1 FROM frame_tags ft JOIN tags t ON t.id = ft.tag_id WHERE ft.frame_id = v_frames.frame_id AND "
            ∷ c
            ∷ codes ")"
            ∷ []))
  unfolding scan lex is_calm
  tag_exists-IsNeutral c h k = past c _ (suc k) h

  negated-IsNeutral :
      (b : Bool) (c : Bytes) → IsNeutral c → IsNeutral (if b then codes "NOT " ++ c else c)
  negated-IsNeutral true c h = not-IsNeutral c h
  negated-IsNeutral false c h = h

  pub compile_tagged-Safe :
      (negate : Bool) (node : Json Number) → Safe (compile_tagged p negate node)
  unfolding compile_tagged is_calm
  compile_tagged-Safe negate node =
      bind-Safe
        (require (Json.contains_key (codes "value") node) (codes "tagged needs a tag name or id")) _
        λ _ _. bind-Safe (Json.at (codes "value") node) _ λ v _.
          then-Safe
            (name_or_id p (codes "ft.tag_id") (codes "t.name")
              (codes "tag value must be a name or id") v)
            _
            (name_or_id-Safe (codes "ft.tag_id") (codes "t.name")
              (codes "tag value must be a name or id") v (calm-IsNeutral (codes "ft.tag_id") refl)
              (calm-IsNeutral (codes "t.name") refl))
            (λ c h. negated-IsNeutral negate _ (tag_exists-IsNeutral c h))

  pub compile_in_collection-Safe : (node : Json Number) → Safe (compile_in_collection p node)
  unfolding compile_in_collection scan lex is_calm
  compile_in_collection-Safe node =
      bind-Safe
        (require (Json.contains_key (codes "value") node)
          (codes "in_collection needs a name or id"))
        _
        λ _ _. bind-Safe (Json.at (codes "value") node) _ λ v _.
          then-Safe
            (name_or_id p (codes "cf.collection_id") (codes "c.name")
              (codes "collection value must be a name or id") v)
            _
            (name_or_id-Safe (codes "cf.collection_id") (codes "c.name")
              (codes "collection value must be a name or id") v
              (calm-IsNeutral (codes "cf.collection_id") refl)
              (calm-IsNeutral (codes "c.name") refl))
            (λ c h k. past c _ (suc k) h)

  object_term-IsNeutral : (exact : Bool) (d : Bytes) → IsNeutral (object_term p exact d)
  unfolding object_term scan lex is_calm
  object_term-IsNeutral true d k = inside p sound d _ k
  object_term-IsNeutral false d k = inside p sound d _ k

  pub object_terms-IsNeutral :
      (exact : Bool) (ds : List Bytes) → IsNeutral (object_terms p exact ds)
  unfolding object_terms is_calm
  object_terms-IsNeutral exact [] = nothing-IsNeutral
  object_terms-IsNeutral exact (d ∷ []) = object_term-IsNeutral exact d
  object_terms-IsNeutral exact (d ∷ e ∷ ds) =
      IsNeutral-append (object_term p exact d) _ (object_term-IsNeutral exact d) (
        IsNeutral-append (codes " OR ") _ (calm-IsNeutral _ refl)
          (object_terms-IsNeutral exact (e ∷ ds)))

  pub literal_list-Safe : (t : ColumnType) (vs : Items Number) → Safe (literal_list p t vs)
  unfolding literal_list is_calm
  literal_list-Safe t nil = nothing-IsNeutral
  literal_list-Safe t (cons v nil) = literal-Safe p sound t v
  literal_list-Safe t (cons v (cons w vs)) =
      then-Safe (literal p t v) _ (literal-Safe p sound t v) λ l hl.
        then-Safe (literal_list p t (cons w vs)) (λ ls. ok (l ++ (codes ", " ++ ls)))
          (literal_list-Safe t (cons w vs))
          λ ls hls.
            IsNeutral-append l _ hl (IsNeutral-append (codes ", ") ls (calm-IsNeutral _ refl) hls)
