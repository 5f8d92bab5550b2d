-- ===== src/Query/Examples.antt =====
-- Runs of src/query/query.cpp on small filters.
use Prim.Native.String.{String}
use star_base.Names.Canon.{designations}
use star_base.Query.Platform.{Platform, IsSound}
use star_base.Query.Whole.{whole, no_stod, whole-IsSound}
use star_base.Query.Safe.{Safe}
use star_base.Query.Safe.Nodes.{compile_filter-Safe}
use star_base.Query.Safe.Sort.{Holds, IsOrder, compile_sort-IsOrder}
use star_base.Query.Promoted.{filter_fields-IsSelection, IsSelection}
use star_base.Query.Filter.{compile_filter, compile_sort, filter_fields}
use star_base.Query.Sql.{outside, scan}
use star_base.Common.{ℕ, ◌≡◌, refl, none, some, [], ◌∷◌, codes}
use star_base.Query.Json
use star_base.Query.Json.{
  Json, null, boolean, number, string, array, object, Items, nil, cons, Members, no_members, member,
  Failure, query_error, json_error, Result, ok, err, ◌>>=◌, ◌>>◌, require,
}
use star_base.Query.Platform.{Platform}

-- Whole numbers for `double`.
abbrev whole_numbers : Platform
whole_numbers = whole (λ s. 180) no_stod

abbrev text : String → Json ℕ
text s = string (codes s)

abbrev object_filter : Json ℕ
object_filter =
    object
      (member (codes "field") (text "object") (member (codes "value") (text "ngc224") no_members))

abbrev night_filter : Json ℕ
night_filter = object (
    member (codes "op") (text "and") (
      member (codes "clauses")
        (array (
          cons object_filter (
            cons
              (object (
                member (codes "field") (text "filter")
                  (member (codes "value") (text "O'III") no_members)))
              nil)))
        no_members))

night_sql :
    compile_filter whole_numbers night_filter
    ≡ ok (
        codes
          "((object_canonical = 'M 31' OR object_canonical = 'NGC 224') AND filter = 'O\\'III')")
unfolding compile_filter Json.value Json.at Json.contains_key designations
night_sql = refl

night_fields : filter_fields night_filter ≡ ok (codes "object" ∷ codes "filter" ∷ [])
unfolding filter_fields Json.value Json.at
night_fields = refl

whole_numbers-IsSound : IsSound whole_numbers
whole_numbers-IsSound = whole-IsSound (λ s. 180)

compile_filter-Safe_example : Safe (compile_filter whole_numbers night_filter)
compile_filter-Safe_example = compile_filter-Safe whole_numbers whole_numbers-IsSound night_filter

abbrev by_night : Json ℕ
by_night = array (
    cons
      (object (
        member (codes "field") (text "session_night")
          (member (codes "dir") (text "DESC") no_members)))
      nil)

compile_sort-IsOrder_example : Holds IsOrder (compile_sort by_night)
compile_sort-IsOrder_example = compile_sort-IsOrder by_night

comment_test : scan (outside 0) (codes "1=1 -- x") ≡ none
unfolding scan
comment_test = refl

block_comment_test : scan (outside 0) (codes "1=1 /* x */") ≡ none
unfolding scan
block_comment_test = refl

two_signs_test : scan (outside 0) (codes "dec_deg--10.5") ≡ some (outside 0)
unfolding scan
two_signs_test = refl

filter_fields-IsSelection_example : IsSelection (codes "object" ∷ codes "filter" ∷ [])
filter_fields-IsSelection_example =
    filter_fields-IsSelection night_filter (codes "object" ∷ codes "filter" ∷ []) night_fields
