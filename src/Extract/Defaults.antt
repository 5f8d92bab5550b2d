-- ===== src/Extract/Defaults.antt =====
-- src/extract/resolver_defaults.cpp: the mapping that stands in for the one of the database.
use star_base.Extract.Mapping.{Mode, ValueRule, HeaderMapping}
use star_base.Common.{ℕ, List, [], ◌∷◌, Bytes, codes}
use star_base.Common.Int.{pos}

abbrev pub value_rule : Bytes → Bytes → Mode → ℕ → ValueRule
value_rule raw normalized mode priority = record {
  raw = raw;
  normalized = normalized;
  mode = mode;
  priority = pos priority;
}

abbrev pub default_keywords : List (Bytes × List Bytes)
default_keywords =
    (codes "date_obs", codes "DATE-OBS" ∷ codes "DATE_OBS" ∷ [])
    ∷ (codes "exposure_s", codes "EXPTIME" ∷ codes "EXPOSURE" ∷ [])
    ∷ (codes "gain", codes "GAIN" ∷ codes "GAINRAW" ∷ codes "GAINADU" ∷ [])
    ∷ (codes "offset_adu", codes "OFFSET" ∷ codes "BLKLEVEL" ∷ [])
    ∷ (codes "binx", codes "XBINNING" ∷ codes "CCDXBIN" ∷ [])
    ∷ (codes "biny", codes "YBINNING" ∷ codes "CCDYBIN" ∷ [])
    ∷ (codes "set_temp_c", codes "SET-TEMP" ∷ [])
    ∷ (codes "ccd_temp_c", codes "CCD-TEMP" ∷ [])
    ∷ (codes "focal_len_mm", codes "FOCALLEN" ∷ [])
    ∷ (codes "instrument", codes "INSTRUME" ∷ codes "CAMERA" ∷ [])
    ∷ (codes "telescope", codes "TELESCOP" ∷ [])
    ∷ (codes "image_type", codes "IMAGETYP" ∷ codes "FRAME" ∷ codes "PICTTYPE" ∷ [])
    ∷ (codes "object", codes "OBJECT" ∷ [])
    ∷ (codes "ra", codes "RA" ∷ codes "OBJCTRA" ∷ [])
    ∷ (codes "dec", codes "DEC" ∷ codes "OBJCTDEC" ∷ [])
    ∷ (codes "filter", codes "FILTER" ∷ [])
    ∷ (codes "airmass", codes "AIRMASS" ∷ [])
    ∷ (codes "sqm", codes "SQM" ∷ [])
    ∷ (codes "sqm_sensor", codes "SQMSRC" ∷ [])
    ∷ (codes "sqm_time", codes "SQMTIME" ∷ [])
    ∷ (codes "sqm_dt_s", codes "SQMDT" ∷ [])
    ∷ (codes "pier_side", codes "PIERSIDE" ∷ [])
    ∷ (codes "row_order", codes "ROWORDER" ∷ [])
    ∷ []

abbrev pub type_rules : List ValueRule
type_rules =
    value_rule (codes "flatdark") (codes "darkflat") Mode.contains 4
    ∷ value_rule (codes "dark flat") (codes "darkflat") Mode.contains 4
    ∷ value_rule (codes "darkflat") (codes "darkflat") Mode.contains 4
    ∷ value_rule (codes "Master Dark") (codes "master") Mode.exact 5
    ∷ value_rule (codes "master") (codes "master") Mode.contains 6
    ∷ value_rule (codes "integration") (codes "master") Mode.contains 6
    ∷ value_rule (codes "stack") (codes "master") Mode.contains 6
    ∷ value_rule (codes "LIGHT") (codes "light") Mode.exact 10
    ∷ value_rule (codes "Light") (codes "light") Mode.exact 10
    ∷ value_rule (codes "Light Frame") (codes "light") Mode.exact 10
    ∷ value_rule (codes "DARK") (codes "dark") Mode.exact 10
    ∷ value_rule (codes "Dark") (codes "dark") Mode.exact 10
    ∷ value_rule (codes "Dark Frame") (codes "dark") Mode.exact 10
    ∷ value_rule (codes "FLAT") (codes "flat") Mode.exact 10
    ∷ value_rule (codes "Flat") (codes "flat") Mode.exact 10
    ∷ value_rule (codes "Flat Field") (codes "flat") Mode.exact 10
    ∷ value_rule (codes "Bias") (codes "bias") Mode.exact 10
    ∷ value_rule (codes "Bias Frame") (codes "bias") Mode.exact 10
    ∷ value_rule (codes "BIAS") (codes "bias") Mode.exact 10
    ∷ value_rule (codes "zero") (codes "bias") Mode.contains 20
    ∷ []

abbrev pub filter_rules : List ValueRule
filter_rules =
    value_rule (codes "!Shutter!") [] Mode.exact 10
    ∷ value_rule (codes "DARK") [] Mode.exact 10
    ∷ value_rule (codes "None") [] Mode.exact 10
    ∷ []

abbrev pub object_rules : List ValueRule
object_rules = value_rule (codes "FlatWizard") [] Mode.exact 10 ∷ []

abbrev pub pier_rules : List ValueRule
pier_rules =
    value_rule (codes "East") (codes "east") Mode.exact 10
    ∷ value_rule (codes "West") (codes "west") Mode.exact 10
    ∷ []

abbrev pub row_rules : List ValueRule
row_rules =
    value_rule (codes "TOP-DOWN") (codes "top-down") Mode.exact 10
    ∷ value_rule (codes "BOTTOM-UP") (codes "bottom-up") Mode.exact 10
    ∷ []

unfoldable pub defaults : HeaderMapping
defaults = record {
  keywords = default_keywords;
  values =
      (codes "image_type", type_rules)
      ∷ (codes "filter", filter_rules)
      ∷ (codes "object", object_rules)
      ∷ (codes "pier_side", pier_rules)
      ∷ (codes "row_order", row_rules)
      ∷ [];
}
