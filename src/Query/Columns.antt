-- ===== src/Query/Columns.antt =====
-- The promoted columns and the operators of src/query/query.cpp, and SQL literals.
use Prim.Native.String.{String}
use star_base.Common.{
  ℕ, Bool, false, ◌&&◌, Option, none, some, List, [], ◌∷◌, ◌++◌, ◌==◌, if◌then◌else◌, length, Bytes,
  codes, concat, text_eq,
}
use star_base.Common.Int.{decimal_int}
use star_base.Query.Json.{Json, number, string, query_error, Result, ok, err}
use star_base.Query.Platform.{Platform}

pub data ColumnType : Type 0 where
  str num date : ColumnType

abbrev column : String → ColumnType → Bytes × ColumnType
column k t = (codes k, t)

-- `fields()`.
unfoldable pub columns : List (Bytes × ColumnType)
columns =
    column "image_type" str
    ∷ column "object" str
    ∷ column "object_canonical" str
    ∷ column "filter" str
    ∷ column "rig" str
    ∷ column "camera" str
    ∷ column "site" str
    ∷ column "bucket" str
    ∷ column "file_status" str
    ∷ column "root_label" str
    ∷ column "pier_side" str
    ∷ column "row_order" str
    ∷ column "session_night" date
    ∷ column "date_obs_utc" date
    ∷ column "exposure_s" num
    ∷ column "gain" num
    ∷ column "offset_adu" num
    ∷ column "binx" num
    ∷ column "biny" num
    ∷ column "ccd_temp_c" num
    ∷ column "set_temp_c" num
    ∷ column "airmass" num
    ∷ column "sqm_mag_arcsec2" num
    ∷ column "ra_deg" num
    ∷ column "dec_deg" num
    ∷ column "focus_pos" num
    ∷ column "rotator_deg" num
    ∷ column "guide_rms_arcsec" num
    ∷ column "naxis1" num
    ∷ column "naxis2" num
    ∷ []

abbrev operator : String → String → Bytes × Bytes
operator k s = (codes k, codes s)

-- `binops()`.
unfoldable pub binops : List (Bytes × Bytes)
binops =
    operator "eq" "="
    ∷ operator "ne" "<>"
    ∷ operator "lt" "<"
    ∷ operator "lte" "<="
    ∷ operator "gt" ">"
    ∷ operator "gte" ">="
    ∷ operator "like" "LIKE"
    ∷ []

module _ {ℓ} {V : Type ℓ} where
  -- `find(k)` in a map with these entries.
  unfoldable pub find_key : Bytes → List (Bytes × V) → Option V
  unfolding text_eq
  find_key k [] = none
  find_key k ((j, v) ∷ m) = if text_eq j k then some v else find_key k m

module _ {N : Type 0} where
  unfoldable pub require_string : Json N → Bytes → Result Bytes
  require_string (string s) what = ok s
  require_string j what = err (query_error (what ++ codes " must be a string"))

module _ (p : Platform) where
  open p use {Double, Number, equal, less, abs, floor, to_long, to_string, stod, get_double, escape}

  -- A number, as an integer where it is whole.
  unfoldable pub number_text : Double → Bytes
  unfolding decimal_int
  number_text d =
      if equal d (floor d) && less (abs d) (p.literal (codes "1e15"))
      then decimal_int (to_long d)
      else to_string d

  -- A text that `std::stod` reads to its end.
  unfoldable pub reads_whole : Bytes → Option (Double × ℕ) → Bool
  reads_whole s none = false
  reads_whole s (some (d, n)) = n == length s

  unfoldable pub numeric_literal : Json Number → Result Bytes
  unfolding number_text reads_whole
  numeric_literal (number v) = ok (number_text (get_double v))
  numeric_literal (string s) =
      if reads_whole s (stod s)
      then ok s
      else err
          (query_error (concat (codes "numeric field needs a number, got '" ∷ s ∷ codes "'" ∷ [])))
  numeric_literal j = err (query_error (codes "numeric field needs a number"))

  unfoldable pub quote : Bytes → Bytes
  quote s = b'\'' ∷ (escape s ++ b'\'' ∷ [])

  unfoldable pub text_literal : Json Number → Result Bytes
  unfolding quote
  text_literal (string s) = ok (quote s)
  text_literal (number v) = ok (quote (to_string (get_double v)))
  text_literal j = err (query_error (codes "value must be a string for this field"))

  -- `literal`: a value as an SQL literal of a column's type, or an error.
  unfoldable pub literal : ColumnType → Json Number → Result Bytes
  unfolding numeric_literal text_literal
  literal num v = numeric_literal v
  literal str v = text_literal v
  literal date v = text_literal v
