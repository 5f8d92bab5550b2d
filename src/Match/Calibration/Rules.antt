-- ===== src/Match/Calibration/Rules.antt =====
-- `match_calibration` of src/match/calibration.cpp. `f.id` is a key, so it is there in every row.
use star_base.Match.Calibration.{
  Library, LightKey, as_int, conditions, where_of, order_of, frames_query,
}
use star_base.Match.Calibration.FlatSets.{FlatSetPick, resolve_flat_set}
use star_base.Db.Database.{cell}
use star_base.Db.Database.Statements.{query, quoted_text}
use star_base.Query.Json.{Json, Items, Members}
use star_base.Query.Platform.{Platform}
use star_base.Sys.{Row, Prog, ret, ◌>>=◌, or_throw}
use star_base.Common.Stoi.{stoll}
use star_base.Common.{
  ℕ, suc, ◌+◌, Bool, true, false, not, ◌&&◌, Option, none, some, List, [], ◌∷◌, ◌++◌, ltb, ◌==◌,
  if◌then◌else◌, value_or, is_empty, Bytes, codes, concat, text_eq,
}
use star_base.Common.Int.{ℤ, pos, pos_part, neg_part, ◌+ℤ◌, decimal_int}

-- ` · `, in UTF-8.
abbrev dot : Bytes
dot = 32 ∷ 194 ∷ 183 ∷ 32 ∷ []

-- `b != "0"` of a cell that may be missing.
flag : Option Bytes → Bool
unfolding text_eq
flag none = false
flag (some s) = not (text_eq s (codes "0"))

less_int : ℤ → ℤ → Bool
less_int a b = ltb (pos_part a + neg_part b) (pos_part b + neg_part a)

none_found : ℤ → Bool
none_found n = pos_part n == 0 && neg_part n == 0

-- The first cell of a count.
count_of : List Row → Prog ℤ
unfolding cell stoll
count_of [] = ret (pos 0)
count_of (r ∷ rs) = elim (cell r 0) [
  | none ↦ ret (pos 0)
  | some s ↦ or_throw (stoll s) (codes "stoll")
]

count_query : Bytes → Prog ℤ
unfolding count_of
count_query condition = do
  rows ← query (codes "SELECT COUNT(*) FROM frames f WHERE " ++ condition)
  count_of rows

separated : List Bytes → Bytes
separated [] = []
separated (b ∷ []) = b
separated (b ∷ c ∷ bs) = b ++ (codes ", " ++ separated (c ∷ bs))

-- Where the iteration over a document throws, `none`: only an object has keys.
unfoldable pub members_of : {N : Type 0} → Json N → Option (Members N)
members_of (Json.object fs) = some fs
members_of Json.null = some Members.no_members
members_of (Json.array Items.nil) = some Members.no_members
members_of other = none

frame_id_of : Option Bytes → Option ℤ
unfolding stoll
frame_id_of none = none
frame_id_of (some s) = stoll s

module _ (p : Platform) where
  pub record Candidate : Type 0 where
    pub frame_id : ℤ
    pub image_type : Bytes
    pub is_master : Bool
    pub filename : Bytes
    pub abs_path : Bytes
    pub session_night : Bytes
    pub date_obs_utc : Bytes
    pub score : p.Double
    pub reason : Bytes

  pub record MatchResult : Type 0 where
    pub target_type : Bytes
    pub rule_name : Bytes
    pub total : ℤ
    pub candidates : List Candidate
    pub warning : Bytes

  -- The columns of a rule.
  pub record CalibrationRule : Type 0 where
    pub name : Bytes
    pub target : Bytes
    pub match_json : Bytes
    pub max_age : Option ℤ
    pub prefer_masters : Bool
    pub prefer_session : Bool
    pub min_frames : Option ℤ

  rule_of_row : Row → Prog CalibrationRule
  unfolding as_int flag cell
  rule_of_row r = do
    max_age ← as_int p (cell r 3)
    min_frames ← as_int p (cell r 6)
    ret record {
      name = value_or (cell r 0) [];
      target = value_or (cell r 1) [];
      match_json = value_or (cell r 2) (codes "{}");
      max_age = max_age;
      prefer_masters = flag (cell r 4);
      prefer_session = flag (cell r 5);
      min_frames = min_frames;
    }

  module _ (lib : Library p) (light : LightKey p) (limit : ℤ) where
    score_at : ℕ → p.Double
    score_at rank =
        p.sub (p.literal (codes "1.0"))
          (p.div (lib.of_int (pos rank)) (lib.of_int (limit +ℤ pos 1)))

    -- The candidate of a row at a rank, whose reason is found by its other fields.
    candidate : Row → ℕ → (Candidate → Prog Bytes) → Prog Candidate
    unfolding cell frame_id_of text_eq score_at
    candidate r rank why = do
      id ← or_throw (frame_id_of (cell r 0)) (codes "stoll")
      let c : Candidate = record {
        frame_id = id;
        image_type = value_or (cell r 1) [];
        is_master = text_eq (value_or (cell r 1) []) (codes "master");
        filename = value_or (cell r 4) [];
        abs_path = value_or (cell r 5) [];
        session_night = value_or (cell r 2) [];
        date_obs_utc = value_or (cell r 3) [];
        score = score_at rank;
        reason = [];
      }
      reason ← why c
      ret (record c { reason = reason })

    candidates_from : ℕ → (Candidate → Prog Bytes) → List Row → Prog (List Candidate)
    unfolding candidate
    candidates_from rank why [] = ret []
    candidates_from rank why (r ∷ rs) = do
      c ← candidate r rank why
      cs ← candidates_from (suc rank) why rs
      ret (c ∷ cs)

    set_reason : FlatSetPick → Candidate → Prog Bytes
    set_reason pick c =
        ret ((if c.is_master then codes "master flat" else codes "flat") ++ (dot ++ pick.reason))

    set_condition : FlatSetPick → Option ℤ → Bytes
    unfolding decimal_int
    set_condition pick none = codes "f.flat_set_id = " ++ decimal_int pick.id
    set_condition pick (some filter) = concat (
        codes "f.flat_set_id = "
        ∷ decimal_int pick.id
        ∷ codes " AND (f.filter_id = "
        ∷ decimal_int filter
        ∷ codes " OR f.filter_id IS NULL)"
        ∷ [])

    -- The flats of a set, masters first.
    set_result : CalibrationRule → FlatSetPick → Prog MatchResult
    unfolding count_query set_condition frames_query candidates_from none_found
    set_result rule pick = do
      total ← count_query (set_condition pick light.filter_id)
      rows ← query (
          frames_query p lib (set_condition pick light.filter_id)
            (codes "(f.image_type = 'master') DESC, f.date_obs_utc ASC") limit)
      cs ← candidates_from 0 (set_reason pick) rows
      ret record {
        target_type = rule.target;
        rule_name = rule.name ++ codes " (flat set)";
        total = total;
        candidates = cs;
        warning =
            if none_found total
            then codes "flat set resolved, but it has no flats for this filter"
            else [];
      }

    days_apart : List Row → Bytes
    unfolding cell
    days_apart [] = []
    days_apart (r ∷ rs) = elim (cell r 0) [
      | none ↦ []
      | some days ↦ dot ++ (days ++ codes " day(s) from light")
    ]

    days_reason : Bytes → Option Bytes → Prog Bytes
    unfolding quoted_text days_apart
    days_reason [] date = ret []
    days_reason (c ∷ s) none = ret []
    days_reason (c ∷ s) (some date) = do
      rows ← query (
          concat (
            codes "SELECT ABS(TIMESTAMPDIFF(DAY, "
            ∷ quoted_text p.escape (c ∷ s)
            ∷ codes ", "
            ∷ quoted_text p.escape date
            ∷ codes "))"
            ∷ []))
      ret (days_apart rows)

    same_night : CalibrationRule → Candidate → Bool
    unfolding text_eq
    same_night rule c = elim light.session_night [
      | none ↦ false
      | some night ↦ rule.prefer_session && text_eq c.session_night night
    ]

    -- How near a candidate is in time.
    near : CalibrationRule → Candidate → Prog Bytes
    unfolding same_night days_reason
    near rule c = elim (same_night rule c) [
      | true ↦ ret (concat (dot ∷ codes "same night (" ∷ c.session_night ∷ codes ")" ∷ []))
      | false ↦ days_reason c.date_obs_utc light.date_obs_utc
    ]

    rule_reason : CalibrationRule → Bytes → Candidate → Prog Bytes
    unfolding near
    rule_reason rule base c = do
      time ← near rule c
      ret (
          concat (
            (if c.is_master then codes "master " else [])
            ∷ rule.target
            ∷ (if is_empty base then [] else dot ++ base)
            ∷ time
            ∷ []))

    few : Bytes → ℤ → Option ℤ → Bytes
    unfolding less_int decimal_int
    few target total none = []
    few target total (some least) =
        if less_int total least
        then concat (
            codes "only "
            ∷ decimal_int total
            ∷ codes " "
            ∷ target
            ∷ codes " frames (rule suggests at least "
            ∷ decimal_int least
            ∷ codes ")"
            ∷ [])
        else []

    pub warning_of : CalibrationRule → ℤ → Bytes
    unfolding few none_found
    warning_of rule total =
        if none_found total
        then concat (codes "no matching " ∷ rule.target ∷ codes " frames found" ∷ [])
        else few rule.target total rule.min_frames

    -- The frames that a rule's fields match.
    ranked : CalibrationRule → Bytes × List Bytes → Prog MatchResult
    unfolding count_query where_of order_of frames_query candidates_from rule_reason separated
    ranked rule found = do
      let condition = where_of p lib light rule.target found.0 rule.max_age
      total ← count_query condition
      rows ← query (
          frames_query p lib condition
            (order_of p lib light rule.prefer_masters rule.prefer_session) limit)
      cs ← candidates_from 0 (rule_reason rule (separated found.1)) rows
      ret record {
        target_type = rule.target;
        rule_name = rule.name;
        total = total;
        candidates = cs;
        warning = warning_of rule total;
      }

    by_fields : CalibrationRule → Json p.Number → Prog MatchResult
    unfolding members_of conditions ranked
    by_fields rule spec = do
      fs ← or_throw (members_of spec) (codes "json")
      found ← or_throw (conditions p lib light fs) (codes "json")
      ranked rule found

    flat_set_for : CalibrationRule → Prog (Option FlatSetPick)
    unfolding text_eq
    flat_set_for rule =
        if text_eq rule.target (codes "flat") then resolve_flat_set p light else ret none

    by_set : CalibrationRule → Json p.Number → Option FlatSetPick → Prog MatchResult
    unfolding set_result by_fields
    by_set rule spec none = by_fields rule spec
    by_set rule spec (some pick) = set_result rule pick

    by_spec : CalibrationRule → Option (Json p.Number) → Prog MatchResult
    unfolding flat_set_for by_set
    by_spec rule none = ret record {
      target_type = rule.target;
      rule_name = rule.name;
      total = pos 0;
      candidates = [];
      warning = codes "rule has invalid match_json";
    }
    by_spec rule (some spec) = do pick ← flat_set_for rule; by_set rule spec pick

    pub match_rule : Row → Prog MatchResult
    unfolding rule_of_row by_spec
    match_rule row = do rule ← rule_of_row row; by_spec rule (lib.parse rule.match_json)

    pub match_rules : List Row → Prog (List MatchResult)
    match_rules [] = ret []
    match_rules (row ∷ rows) = do r ← match_rule row; rs ← match_rules rows; ret (r ∷ rs)

    pub match_calibration : Prog (List MatchResult)
    match_calibration = do
      rows ← query (
          codes
            "SELECT name, target_type, match_json, max_age_days, prefer_masters, prefer_same_session, min_frames FROM calibration_rules WHERE enabled = 1 ORDER BY priority, id")
      match_rules rows
