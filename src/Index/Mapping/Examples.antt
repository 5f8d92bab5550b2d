-- ===== src/Index/Mapping/Examples.antt =====
-- Runs of `load_mapping`.
use star_base.Extract.Mapping.{RegexSearch}
use star_base.Extract.Defaults.{defaults}
use star_base.Index.Mapping.{keyword_of, mapping_of}
use star_base.Index.Mapping.Rows.{Follows, mapping_of-Follows}
use star_base.Sys.{Row}
use star_base.Common.{◌≡◌, ◌⊎◌, true, false, none, some, [], ◌∷◌, is_some, any, codes}

abbrev no_search : RegexSearch
no_search pattern s = none

abbrev keyword_row : Row
keyword_row = some (codes "gain") ∷ some (codes "GAIN") ∷ []

abbrev value_row : Row
value_row = some (codes "filter") ∷ some (codes "Ha") ∷ some (codes "H-alpha") ∷ none ∷ []

mapping_of-Follows_example :
    ((any (λ row. is_some (keyword_of row)) (keyword_row ∷ []) ≡ true)
      × Follows no_search
          (keyword_row ∷ [])
          (value_row ∷ [])
          (mapping_of (keyword_row ∷ []) (value_row ∷ [])))
    ⊎ ((any (λ row. is_some (keyword_of row)) (keyword_row ∷ []) ≡ false)
        × (mapping_of (keyword_row ∷ []) (value_row ∷ []) ≡ defaults))
mapping_of-Follows_example = mapping_of-Follows no_search (keyword_row ∷ []) (value_row ∷ [])
