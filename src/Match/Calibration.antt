-- ===== src/Match/Calibration.antt =====
-- src/match/calibration.cpp: what a light is matched by, and the condition of a rule.
pub mod FlatSets
pub mod Rules
pub mod Safe
pub mod Examples
use star_base.Db.Database.{cell}
use star_base.Db.Database.Statements.{query, quoted_text}
use star_base.Query.Json.{Json, null, boolean, number, object, Members, no_members, member, get}
use star_base.Query.Platform.{Platform}
use star_base.Sys.{Row, Prog, ret, ◌>>=◌, or_throw}
use star_base.Common.Stoi.{stoi}
use star_base.Common.{
  ◌-◌, ap, Bool, true, Option, none, some, List, [], ◌∷◌, ◌++◌, if◌then◌else◌, value_or, any, Bytes,
  codes, concat, text_eq,
}
use star_base.Common.Decimal.{decimal}
use star_base.Common.Int.{ℤ, pos, decimal_int}

abbrev pub match_fields : List Bytes
match_fields =
    codes "camera_id"
    ∷ codes "rig_id"
    ∷ codes "filter_id"
    ∷ codes "gain"
    ∷ codes "offset_adu"
    ∷ codes "binx"
    ∷ codes "biny"
    ∷ codes "set_temp_c"
    ∷ codes "exposure_s"
    ∷ codes "rotator_deg"
    ∷ codes "readout_mode"
    ∷ []

-- Fields allowed in a rule.
unfoldable pub is_match_field : Bytes → Bool
unfolding text_eq
is_match_field f = any (text_eq f) match_fields

-- `do` of optional values.
module _ {A B : Type 0} where
  then_some : Option A → (A → Option B) → Option B
  then_some none f = none
  then_some (some a) f = f a

module _ (p : Platform) where
  -- What the matcher takes from outside besides `Platform`: `int` to `double`, `<<` of a double to a stream,
  -- and the parser of the JSON library, whose objects come sorted by their keys.
  pub record Library : Type 0 where
    pub of_int : ℤ → p.Double
    pub stream : p.Double → Bytes
    pub parse : Bytes → Option (Json p.Number)

  pub record LightKey : Type 0 where
    pub camera_id : Option ℤ
    pub rig_id : Option ℤ
    pub filter_id : Option ℤ
    pub gain : Option ℤ
    pub offset_adu : Option ℤ
    pub binx : Option ℤ
    pub biny : Option ℤ
    pub set_temp_c : Option p.Double
    pub exposure_s : Option p.Double
    pub rotator_deg : Option p.Double
    pub readout_mode : Option Bytes
    pub date_obs_utc : Option Bytes
    pub session_night : Option Bytes

  pub data FieldSpec : Type 0 where
    exact exact_null_ok : FieldSpec
    tol : p.Double → FieldSpec

  null_ok : Option (Json p.Number) → Option FieldSpec
  null_ok none = some FieldSpec.exact
  null_ok (some (Json.boolean b)) = some (if b then FieldSpec.exact_null_ok else FieldSpec.exact)
  null_ok (some other) = none

  object_spec : Option (Json p.Number) → Option (Json p.Number) → Option FieldSpec
  unfolding null_ok
  object_spec none flag = null_ok flag
  object_spec (some (Json.number n)) flag = some (FieldSpec.tol (p.get_double n))
  object_spec (some other) flag = none

  -- `none` where the JSON library throws.
  unfoldable pub parse_spec : Json p.Number → Option FieldSpec
  unfolding object_spec get
  parse_spec (Json.object fs) = object_spec (get (codes "tol") fs) (get (codes "null_ok") fs)
  parse_spec other = some FieldSpec.exact

  -- The light's value: missing, a number or a text.
  pub data FieldVal : Type 0 where
    absent : FieldVal
    num : p.Double → FieldVal
    text : Bytes → FieldVal

  module _ (lib : Library) where
    int_val : Option ℤ → FieldVal
    int_val none = FieldVal.absent
    int_val (some n) = FieldVal.num (lib.of_int n)

    double_val : Option p.Double → FieldVal
    double_val none = FieldVal.absent
    double_val (some d) = FieldVal.num d

    text_val : Option Bytes → FieldVal
    text_val none = FieldVal.absent
    text_val (some s) = FieldVal.text s

    unfoldable pub light_value : Bytes → LightKey → FieldVal
    unfolding text_eq int_val double_val text_val
    light_value field light =
        if text_eq field (codes "camera_id")
        then int_val light.camera_id
        else if text_eq field (codes "rig_id")
        then int_val light.rig_id
        else if text_eq field (codes "filter_id")
        then int_val light.filter_id
        else if text_eq field (codes "gain")
        then int_val light.gain
        else if text_eq field (codes "offset_adu")
        then int_val light.offset_adu
        else if text_eq field (codes "binx")
        then int_val light.binx
        else if text_eq field (codes "biny")
        then int_val light.biny
        else if text_eq field (codes "set_temp_c")
        then double_val light.set_temp_c
        else if text_eq field (codes "exposure_s")
        then double_val light.exposure_s
        else if text_eq field (codes "rotator_deg")
        then double_val light.rotator_deg
        else if text_eq field (codes "readout_mode")
        then text_val light.readout_mode
        else FieldVal.absent

    unfoldable pub trim_num : p.Double → Bytes
    unfolding decimal_int
    trim_num d = if p.equal d (p.floor d) then decimal_int (p.to_long d) else lib.stream d

    -- The value in the statement, and as it is shown.
    unfoldable pub value_text : FieldVal → Bytes
    unfolding trim_num quoted_text
    value_text FieldVal.absent = []
    value_text (FieldVal.num d) = trim_num d
    value_text (FieldVal.text s) = quoted_text p.escape s

    shown : FieldVal → Bytes
    unfolding trim_num
    shown FieldVal.absent = []
    shown (FieldVal.num d) = trim_num d
    shown (FieldVal.text s) = s

    -- `dval`, which a text leaves at 0.
    number_of : FieldVal → p.Double
    number_of (FieldVal.num d) = d
    number_of other = lib.of_int (pos 0)

    -- The condition that a field adds, and its part of the reason; `±` is written in UTF-8.
    unfoldable pub clause : Bytes → FieldSpec → FieldVal → Bytes × List Bytes
    unfolding value_text shown number_of trim_num
    clause field FieldSpec.exact FieldVal.absent =
        (concat (codes " AND f." ∷ field ∷ codes " IS NULL" ∷ []), [])
    clause field other FieldVal.absent = ([], [])
    clause field FieldSpec.exact v = (
      concat (codes " AND f." ∷ field ∷ codes " = " ∷ value_text v ∷ []),
      concat (field ∷ codes " " ∷ shown v ∷ []) ∷ [],
    )
    clause field FieldSpec.exact_null_ok v = (
      concat (
          codes " AND (f."
          ∷ field
          ∷ codes " = "
          ∷ value_text v
          ∷ codes " OR f."
          ∷ field
          ∷ codes " IS NULL)"
          ∷ []),
      concat (field ∷ codes " " ∷ shown v ∷ []) ∷ [],
    )
    clause field (FieldSpec.tol t) v = (
      concat (
          codes " AND ABS(f."
          ∷ field
          ∷ codes " - "
          ∷ trim_num (number_of v)
          ∷ codes ") <= "
          ∷ trim_num t
          ∷ []),
      concat (field ∷ codes " " ∷ trim_num (number_of v) ∷ (194 ∷ 177 ∷ []) ∷ trim_num t ∷ []) ∷ [],
    )

    -- A clause in front of the others.
    with_clause : Bytes × List Bytes → Bytes × List Bytes → Option (Bytes × List Bytes)
    with_clause c r = some (c.0 ++ r.0, c.1 ++ r.1)

    -- The loop over the rule's fields; `none` where the JSON library throws.
    unfoldable pub conditions : LightKey → Members p.Number → Option (Bytes × List Bytes)
    unfolding is_match_field parse_spec light_value clause then_some with_clause
    conditions light Members.no_members = some ([], [])
    conditions light (Members.member field v fs) =
        let rest = conditions light fs in
        if is_match_field field
        then then_some (parse_spec v)
            (λ s. then_some rest (with_clause (clause field s (light_value field light))))
        else rest

    -- The age limit, where rule and light have what it takes.
    age_limit : Option ℤ → Option Bytes → Bytes
    unfolding quoted_text decimal_int
    age_limit (some days) (some date) = concat (
        codes " AND (f.date_obs_utc IS NULL OR ABS(TIMESTAMPDIFF(DAY, f.date_obs_utc, "
        ∷ quoted_text p.escape date
        ∷ codes ")) <= "
        ∷ decimal_int days
        ∷ codes ")"
        ∷ [])
    age_limit days date = []

    -- The condition of a rule, by its target type, the conditions of its fields and its age limit.
    unfoldable pub where_of : LightKey → Bytes → Bytes → Option ℤ → Bytes
    unfolding quoted_text age_limit
    where_of light target conditions max_age = concat (
        codes "(f.image_type = "
        ∷ quoted_text p.escape target
        ∷ codes " OR (f.image_type = 'master' AND f.master_of = "
        ∷ quoted_text p.escape target
        ∷ codes "))"
        ∷ conditions
        ∷ age_limit max_age light.date_obs_utc
        ∷ [])

    session_order : Bool → Option Bytes → Bytes
    unfolding quoted_text
    session_order true (some night) =
        concat (codes "(f.session_night = " ∷ quoted_text p.escape night ∷ codes ") DESC, " ∷ [])
    session_order prefer night = []

    date_order : Option Bytes → Bytes
    unfolding quoted_text
    date_order none = []
    date_order (some date) = concat (
        codes "ABS(TIMESTAMPDIFF(SECOND, f.date_obs_utc, "
        ∷ quoted_text p.escape date
        ∷ codes ")) ASC, "
        ∷ [])

    unfoldable pub order_of : LightKey → Bool → Bool → Bytes
    unfolding session_order date_order
    order_of light prefer_masters prefer_session = concat (
        (if prefer_masters then codes "(f.image_type = 'master') DESC, " else [])
        ∷ session_order prefer_session light.session_night
        ∷ date_order light.date_obs_utc
        ∷ codes "f.id ASC"
        ∷ [])

    -- The statement that fetches the candidates.
    unfoldable pub frames_query : Bytes → Bytes → ℤ → Bytes
    unfolding decimal_int
    frames_query condition order limit = concat (
        codes
          "SELECT f.id, f.image_type, f.session_night, f.date_obs_utc, fl.filename, CONCAT(r.path,'/',fl.rel_path) FROM frames f JOIN files fl ON fl.id = f.file_id JOIN roots r ON r.id = fl.root_id WHERE "
        ∷ condition
        ∷ codes " ORDER BY "
        ∷ order
        ∷ codes " LIMIT "
        ∷ decimal_int limit
        ∷ [])

  -- A cell as a number; what is no number throws.
  unfoldable pub as_int : Option Bytes → Prog (Option ℤ)
  unfolding stoi
  as_int none = ret none
  as_int (some s) = do n ← or_throw (stoi s) (codes "stoi"); ret (some n)

  value_of_stod : Bytes → Option p.Double
  value_of_stod s = elim (p.stod s) [ none ↦ none | some (d, n) ↦ some d ]

  as_dbl : Option Bytes → Prog (Option p.Double)
  unfolding value_of_stod
  as_dbl none = ret none
  as_dbl (some s) = do d ← or_throw (value_of_stod s) (codes "stod"); ret (some d)

  key_of_row : Row → Prog LightKey
  unfolding as_int as_dbl cell
  key_of_row r = do
    camera_id ← as_int (cell r 1)
    rig_id ← as_int (cell r 2)
    filter_id ← as_int (cell r 3)
    gain ← as_int (cell r 4)
    offset_adu ← as_int (cell r 5)
    binx ← as_int (cell r 6)
    biny ← as_int (cell r 7)
    set_temp_c ← as_dbl (cell r 8)
    exposure_s ← as_dbl (cell r 9)
    rotator_deg ← as_dbl (cell r 10)
    ret record {
      camera_id = camera_id;
      rig_id = rig_id;
      filter_id = filter_id;
      gain = gain;
      offset_adu = offset_adu;
      binx = binx;
      biny = biny;
      set_temp_c = set_temp_c;
      exposure_s = exposure_s;
      rotator_deg = rotator_deg;
      readout_mode = cell r 11;
      date_obs_utc = cell r 12;
      session_night = cell r 13;
    }

  key_of_rows : List Row → Prog (Option LightKey)
  unfolding key_of_row cell text_eq
  key_of_rows [] = ret none
  key_of_rows (r ∷ rs) =
      if text_eq (value_or (cell r 0) []) (codes "light")
      then (do key ← key_of_row r; ret (some key))
      else ret none

  pub light_key_for : ℤ → Prog (Option LightKey)
  unfolding key_of_rows
  light_key_for frame_id = do
    rows ← query (
        concat (
          codes
            "SELECT image_type, camera_id, rig_id, filter_id, gain, offset_adu, binx, biny, set_temp_c, exposure_s, rotator_deg, readout_mode, date_obs_utc, session_night FROM frames WHERE id = "
          ∷ decimal_int frame_id
          ∷ codes " LIMIT 1"
          ∷ []))
    key_of_rows rows
