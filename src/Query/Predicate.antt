-- ===== src/Query/Predicate.antt =====
-- The leaves of a filter in src/query/query.cpp: comparisons, keywords, cones, tags, collections.
use Prim.Native.String.{String}
use star_base.Names.Canon.{designations}
use star_base.Query.Columns.{
  ColumnType, str, num, columns, binops, find_key, require_string, literal, quote,
}
use star_base.Common.{
  Bool, not, ◌&&◌, ◌||◌, Option, none, some, List, [], ◌∷◌, ◌++◌, if◌then◌else◌, is_empty, drop,
  Bytes, codes, concat, text_eq, starts_with,
}
use star_base.Common.Int.{decimal_int}
use star_base.Query.Json
use star_base.Query.Json.{
  Json, null, boolean, number, string, array, object, Items, nil, cons, Members, no_members, member,
  Failure, query_error, json_error, Result, ok, err, ◌>>=◌, ◌>>◌, require,
}
use star_base.Query.Platform.{Platform}

module _ (p : Platform) where
  open p use {
    Double, Number, less, less_eq, add, sub, mul, div, abs, cos, pi, to_string, get_double,
    get_long, escape,
  }

  abbrev Node : Type 0
  Node = Json Number

  abbrev dbl : String → Double
  dbl s = p.literal (codes s)

  unfoldable pub keyword_exists : Bytes → Bytes → Bytes
  keyword_exists kw condition = concat (
      codes
        "EXISTS (SELECT 1 FROM frame_keywords k WHERE k.frame_id = v_frames.frame_id AND k.keyword = '"
      ∷ escape kw
      ∷ codes "'"
      ∷ condition
      ∷ codes ")"
      ∷ [])

  -- The right side of a keyword's comparison: a number is compared as one.
  unfoldable pub keyword_rhs : Bytes → Node → Result Bytes
  unfolding literal
  keyword_rhs op (number n) = do
    l ← literal p num (number n)
    ok (concat (codes "CAST(k.value AS DECIMAL(20,6)) " ∷ op ∷ codes " " ∷ l ∷ []))
  keyword_rhs op v = do
    l ← literal p str v
    ok (concat (codes "k.value " ∷ op ∷ codes " " ∷ l ∷ []))

  unfoldable pub keyword_comparison : Bytes → Bytes → Node → Result Bytes
  unfolding find_key binops keyword_rhs keyword_exists
  keyword_comparison kw op node = elim (find_key op binops) [
    | none ↦
        err (query_error (concat (codes "unsupported keyword operator '" ∷ op ∷ codes "'" ∷ [])))
    | some o ↦ do
      require (Json.contains_key (codes "value") node) (codes "keyword predicate needs a value")
      v ← Json.at (codes "value") node
      rhs ← keyword_rhs o v
      ok (keyword_exists kw (codes " AND " ++ rhs))
  ]

  -- `compile_keyword`, for a field `keyword:NAME`.
  unfoldable pub compile_keyword : Bytes → Node → Result Bytes
  unfolding keyword_comparison
  compile_keyword field node = do
    let kw = drop 8 field
    require (not (is_empty kw)) (codes "empty keyword name")
    op ← Json.value (codes "op") (codes "eq") node
    if text_eq op (codes "isnull")
        then ok (codes "NOT " ++ keyword_exists kw [])
        else if text_eq op (codes "notnull")
        then ok (keyword_exists kw [])
        else keyword_comparison kw op node

  -- `get<double>()`.
  unfoldable pub get_number : Node → Result Double
  get_number (number n) = ok (get_double n)
  get_number j = err json_error

  -- `node[key].get<double>()`.
  unfoldable pub double_at : Bytes → Node → Result Double
  unfolding get_number
  double_at key node = do j ← Json.at key node; get_number j

  -- The half width in right ascension; all around near the poles.
  unfoldable pub ra_half_width : Double → Double → Double
  ra_half_width dec r =
      let cosd = cos (div (mul dec pi) (dbl "180.0")) in
      if less (abs cosd) (dbl "1e-6") || less_eq (dbl "90.0") (add (abs dec) r)
      then dbl "180.0"
      else div r (abs cosd)

  -- The bound on the right ascension, where there is one.
  unfoldable pub ra_band : Double → Double → Bytes
  ra_band ra ra_half =
      if less ra_half (dbl "180.0")
      then concat (
          codes " AND ra_deg BETWEEN "
          ∷ to_string (sub ra ra_half)
          ∷ codes " AND "
          ∷ to_string (add ra ra_half)
          ∷ [])
      else []

  unfoldable pub cone_box : Double → Double → Double → Bytes
  unfolding ra_half_width ra_band
  cone_box ra dec r = concat (
      codes "dec_deg BETWEEN "
      ∷ to_string (sub dec r)
      ∷ codes " AND "
      ∷ to_string (add dec r)
      ∷ ra_band ra (ra_half_width dec r)
      ∷ [])

  -- The haversine condition on the central angle.
  unfoldable pub haversine : Double → Double → Double → Bytes
  haversine ra dec r = concat (
      codes "DEGREES(2*ASIN(SQRT(POWER(SIN(RADIANS(dec_deg-"
      ∷ to_string dec
      ∷ codes ")/2),2) + COS(RADIANS("
      ∷ to_string dec
      ∷ codes "))*COS(RADIANS(dec_deg))*POWER(SIN(RADIANS(ra_deg-"
      ∷ to_string ra
      ∷ codes ")/2),2)))) <= "
      ∷ to_string r
      ∷ [])

  unfoldable pub cone_condition : Double → Double → Double → Bytes
  unfolding cone_box haversine
  cone_condition ra dec r = concat (
      codes "(ra_deg IS NOT NULL AND dec_deg IS NOT NULL AND ("
      ∷ cone_box ra dec r
      ∷ codes ") AND "
      ∷ haversine ra dec r
      ∷ codes ")"
      ∷ [])

  unfoldable pub compile_cone : Node → Result Bytes
  unfolding double_at cone_condition
  compile_cone node = do
    require
        (Json.contains_key (codes "ra") node
          && (Json.contains_key (codes "dec") node && Json.contains_key (codes "radius_deg") node))
        (codes "cone needs ra, dec, and radius_deg")
    ra ← double_at (codes "ra") node
    dec ← double_at (codes "dec") node
    r ← double_at (codes "radius_deg") node
    require (not (less_eq r (dbl "0") || less (dbl "180") r)) (codes "cone radius_deg out of range")
    ok (cone_condition ra dec r)

  -- A name or an id, compared with the columns of each.
  unfoldable pub name_or_id : Bytes → Bytes → Bytes → Node → Result Bytes
  unfolding quote decimal_int
  name_or_id id_column name_column message (number n) =
      ok (concat (id_column ∷ codes " = " ∷ decimal_int (get_long n) ∷ []))
  name_or_id id_column name_column message (string s) =
      ok (concat (name_column ∷ codes " = " ∷ quote p s ∷ []))
  name_or_id id_column name_column message j = err (query_error message)

  unfoldable pub compile_tagged : Bool → Node → Result Bytes
  unfolding name_or_id
  compile_tagged negate node = do
    require (Json.contains_key (codes "value") node) (codes "tagged needs a tag name or id")
    v ← Json.at (codes "value") node
    c ← name_or_id (codes "ft.tag_id") (codes "t.name") (codes "tag value must be a name or id") v
    let ex = concat (
        codes
          "EXISTS (SELECT 1 FROM frame_tags ft JOIN tags t ON t.id = ft.tag_id WHERE ft.frame_id = v_frames.frame_id AND "
        ∷ c
        ∷ codes ")"
        ∷ [])
    ok (if negate then codes "NOT " ++ ex else ex)

  unfoldable pub compile_in_collection : Node → Result Bytes
  unfolding name_or_id
  compile_in_collection node = do
    require (Json.contains_key (codes "value") node) (codes "in_collection needs a name or id")
    v ← Json.at (codes "value") node
    c ←
        name_or_id (codes "cf.collection_id") (codes "c.name")
          (codes "collection value must be a name or id") v
    ok (
        concat (
          codes
            "EXISTS (SELECT 1 FROM collection_frames cf JOIN collections c ON c.id = cf.collection_id WHERE cf.frame_id = v_frames.frame_id AND "
          ∷ c
          ∷ codes ")"
          ∷ []))

  -- One designation of an object search.
  unfoldable pub object_term : Bool → Bytes → Bytes
  object_term exact d =
      if exact
      then concat (codes "object_canonical = '" ∷ escape d ∷ codes "'" ∷ [])
      else concat (codes "object_canonical LIKE '%" ∷ escape d ∷ codes "%'" ∷ [])

  unfoldable pub object_terms : Bool → List Bytes → Bytes
  unfolding object_term
  object_terms exact [] = []
  object_terms exact (d ∷ []) = object_term exact d
  object_terms exact (d ∷ e ∷ ds) =
      object_term exact d ++ (codes " OR " ++ object_terms exact (e ∷ ds))

  -- The literals of an array, behind commas.
  unfoldable pub literal_list : ColumnType → Items Number → Result Bytes
  unfolding literal
  literal_list t nil = ok []
  literal_list t (cons v nil) = literal p t v
  literal_list t (cons v (cons w vs)) = do
    l ← literal p t v
    ls ← literal_list t (cons w vs)
    ok (l ++ (codes ", " ++ ls))

  unfoldable pub compile_in : Bytes → ColumnType → Node → Result Bytes
  unfolding literal_list
  compile_in field t (array (cons v vs)) = do
    list ← literal_list t (cons v vs)
    ok (concat (field ∷ codes " IN (" ∷ list ∷ codes ")" ∷ []))
  compile_in field t j = err (query_error (codes "'in' needs a non-empty array"))

  unfoldable pub compile_between : Bytes → ColumnType → Node → Result Bytes
  unfolding literal
  compile_between field t (array (cons lo (cons hi nil))) = do
    a ← literal p t lo
    b ← literal p t hi
    ok (concat (field ∷ codes " BETWEEN " ∷ a ∷ codes " AND " ∷ b ∷ []))
  compile_between field t j = err (query_error (codes "'between' needs [lo, hi]"))

  unfoldable pub compile_operator : Bytes → ColumnType → Bytes → Node → Result Bytes
  unfolding find_key binops literal
  compile_operator field t op node = elim (find_key op binops) [
    | none ↦ err (query_error (concat (codes "unsupported operator '" ∷ op ∷ codes "'" ∷ [])))
    | some o ↦ do
      require (Json.contains_key (codes "value") node)
          (concat (codes "operator '" ∷ op ∷ codes "' needs a value" ∷ []))
      v ← Json.at (codes "value") node
      l ← literal p t v
      ok (concat (field ∷ codes " " ∷ o ∷ codes " " ∷ l ∷ []))
  ]

  -- The text of an object search: the value, where it is a string.
  unfoldable pub object_text : Bytes → Bytes → Node → Option Bytes
  unfolding text_eq
  object_text field op node =
      if text_eq field (codes "object") && (text_eq op (codes "eq") || text_eq op (codes "like"))
      then elim (Json.at (codes "value") node) [ ok (string s) ↦ some s | _ ↦ none ]
      else none

  -- `compile_comparison` behind the lookup of the column.
  unfoldable pub compile_column : Bytes → ColumnType → Bytes → Node → Result Bytes
  unfolding text_eq object_text object_terms compile_in compile_between compile_operator
  compile_column field t op node =
      if text_eq op (codes "isnull")
      then ok (field ++ codes " IS NULL")
      else if text_eq op (codes "notnull")
      then ok (field ++ codes " IS NOT NULL")
      else elim (object_text field op node) [
        | some s ↦ ok (
            concat (
              codes "(" ∷ object_terms (text_eq op (codes "eq")) (designations s) ∷ codes ")" ∷ []))
        | none ↦
            if text_eq op (codes "in")
            then (do v ← Json.at (codes "value") node; compile_in field t v)
            else if text_eq op (codes "between")
            then (do v ← Json.at (codes "value") node; compile_between field t v)
            else compile_operator field t op node
      ]

  unfoldable pub compile_comparison : Node → Result Bytes
  unfolding require_string starts_with compile_keyword find_key columns compile_column
  compile_comparison node = do
    j ← Json.at (codes "field") node
    field ← require_string j (codes "field")
    if starts_with (codes "keyword:") field
        then compile_keyword field node
        else elim (find_key field columns) [
          | none ↦ err (query_error (concat (codes "unknown field '" ∷ field ∷ codes "'" ∷ [])))
          | some t ↦ do
            op ← Json.value (codes "op") (codes "eq") node
            compile_column field t op node
        ]
