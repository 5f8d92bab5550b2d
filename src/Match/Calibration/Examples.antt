-- ===== src/Match/Calibration/Examples.antt =====
-- Runs of src/match/calibration.cpp.
use star_base.Match.Calibration.{
  Library, LightKey, conditions, where_of, order_of, frames_query, is_match_field, parse_spec,
  trim_num,
}
use star_base.Match.Calibration.Safe.{frames_query-statement}
use star_base.Query.Json.{Json, Members}
use star_base.Query.Platform.{Platform}
use star_base.Query.Sql.{outside, scan}
use star_base.Query.Whole.{whole, no_stod, whole-IsSound}
use star_base.Query.Sql.{decimal_number}
use star_base.Common.{ℕ, ◌≡◌, refl, true, false, none, some, List, [], ◌∷◌, Bytes, codes, concat}
use star_base.Common.Decimal.{decimal}
use star_base.Common.Int.{pos, pos_part}

abbrev whole_numbers : Platform
whole_numbers = whole (λ s. 1) no_stod

abbrev library : Library whole_numbers
library = record { of_int = pos_part; stream = decimal; parse = λ s. none }

abbrev light : LightKey whole_numbers
light = record {
  camera_id = some (pos 4);
  rig_id = none;
  filter_id = none;
  gain = none;
  offset_adu = none;
  binx = none;
  biny = none;
  set_temp_c = some 10;
  exposure_s = none;
  rotator_deg = none;
  readout_mode = some (codes "high' gain");
  date_obs_utc = none;
  session_night = none;
}

-- A field that no rule may name, a tolerance and a text with a quote.
abbrev spec : Members ℕ
spec = Members.member (codes "1=1) OR (1") (Json.string (codes "exact")) (
    Members.member (codes "readout_mode") (Json.string (codes "exact")) (
      Members.member (codes "set_temp_c")
        (Json.object (Members.member (codes "tol") (Json.number 2) Members.no_members))
        Members.no_members))

abbrev condition : Bytes
condition = codes " AND f.readout_mode = 'high\\' gain' AND ABS(f.set_temp_c - 10) <= 2"

abbrev reasons : List Bytes
reasons =
    codes "readout_mode high' gain"
    ∷ concat (codes "set_temp_c 10" ∷ (194 ∷ 177 ∷ []) ∷ codes "2" ∷ [])
    ∷ []

conditions_test : conditions whole_numbers library light spec ≡ some (condition, reasons)
unfolding conditions is_match_field parse_spec trim_num
conditions_test = refl

frames_query-statement_example :
    scan (outside 0) (
      frames_query whole_numbers library
        (where_of whole_numbers library light (codes "dark") condition none)
        (order_of whole_numbers library light true false)
        (pos 10))
    ≡ some (outside 0)
frames_query-statement_example =
    frames_query-statement whole_numbers (whole-IsSound (λ s. 1)) library decimal_number light spec
      (condition, reasons) (codes "dark") none true false (pos 10) conditions_test
