-- ===== src/Index/Mapping.antt =====
-- src/index/mapping_loader.cpp: the mapping of headers from the rows of two queries.
pub mod Rows
pub mod Examples
use star_base.Db.Database.Statements.{query}
use star_base.Extract.Mapping.{Mode, ValueRule, HeaderMapping, push_at}
use star_base.Extract.Defaults.{defaults}
use star_base.Sys.{Row, Prog, ret, ◌>>=◌}
use star_base.Common.{
  ap, Option, none, some, List, [], ◌∷◌, map, if◌then◌else◌, value_or, Bytes, codes, text_eq,
  contains,
}
use star_base.Common.Int.{pos}

unfoldable pub parse_mode : Bytes → Mode
unfolding text_eq
parse_mode s =
    if text_eq s (codes "contains")
    then Mode.contains
    else if text_eq s (codes "regex")
    then Mode.regex
    else Mode.exact

-- The field and the keyword of a row, if it has both.
unfoldable pub keyword_of : Row → Option (Bytes × Bytes)
keyword_of (some field ∷ some keyword ∷ more) = some (field, keyword)
keyword_of other = none

-- The field and the rule of a row with four cells, if it has them.
unfoldable pub rule_of : Row → Option (Bytes × ValueRule)
unfolding parse_mode
rule_of (some field ∷ some raw ∷ some normalized ∷ mode ∷ more) = some (
  field,
  record {
    raw = raw;
    normalized = normalized;
    mode = parse_mode (value_or mode (codes "exact"));
    priority = pos 100;
  },
)
rule_of other = none

-- A loop that puts each usable row behind the others of its field.
unfoldable pub collect :
    {A : Type 0}
    → (Row → Option (Bytes × A))
    → List (Bytes × List A)
    → List Row
    → List (Bytes × List A)
unfolding push_at
collect read m [] = m
collect read m (row ∷ rows) = elim (read row) [
  | none ↦ collect read m rows
  | some (field, a) ↦ collect read (push_at field a m) rows
]

-- The mapping of the rows, or the default where no keyword is there.
mapping_with : List (Bytes × List Bytes) → List (Bytes × List ValueRule) → HeaderMapping
mapping_with [] values = defaults
mapping_with (k ∷ keywords) values = record { keywords = k ∷ keywords; values = values }

pub mapping_of : List Row → List Row → HeaderMapping
unfolding mapping_with collect keyword_of rule_of
mapping_of keyword_rows value_rows =
    mapping_with (collect keyword_of [] keyword_rows) (collect rule_of [] value_rows)

unfoldable pub load_mapping : Prog HeaderMapping
unfolding query
load_mapping = do
  keyword_rows ←
      query (
        codes
          "SELECT field, keyword FROM header_map WHERE enabled = 1 ORDER BY field, priority, id")
  value_rows ← query (
      codes
        "SELECT field, raw_value, normalized, match_mode FROM header_value_map ORDER BY field, priority, id")
  ret (mapping_of keyword_rows value_rows)
