-- ===== src/Match/Calibration/FlatSets.antt =====
-- `resolve_flat_set` of src/match/calibration.cpp. A row has the columns of its statement.
use star_base.Match.Calibration.{LightKey}
use star_base.Db.Database.{cell}
use star_base.Db.Database.Statements.{query, quoted_text}
use star_base.Query.Platform.{Platform}
use star_base.Sys.{Row, Prog, ret, ◌>>=◌, or_throw}
use star_base.Common.Stoi.{stoll}
use star_base.Common.{
  Option, none, some, List, [], ◌∷◌, ◌++◌, if◌then◌else◌, value_or, is_some, Bytes, codes, concat,
}
use star_base.Common.Int.{ℤ, decimal_int}

pub record FlatSetPick : Type 0 where
  pub id : ℤ
  pub reason : Bytes

-- The first pick, or else the second.
or_pick : Prog (Option FlatSetPick) → Prog (Option FlatSetPick) → Prog (Option FlatSetPick)
or_pick m k = do o ← m; elim o [ some pick ↦ ret (some pick) | none ↦ k ]

-- A set with its id's text and its reason.
pick_of : Option Bytes → Bytes → Prog (Option FlatSetPick)
unfolding stoll
pick_of none reason = ret none
pick_of (some s) reason = do
  id ← or_throw (stoll s) (codes "stoll")
  ret (some (record { id = id; reason = reason }))

-- The set of the first row, whose reason is told of its label.
first_set : List Row → (Bytes → Bytes) → Prog (Option FlatSetPick)
unfolding pick_of cell
first_set [] reason = ret none
first_set (r ∷ rs) reason = pick_of (cell r 0) (reason (value_or (cell r 1) []))

-- A label in its reason.
about : Bytes → Bytes → Bytes → Bytes → Bytes
about before label between after =
    concat (before ∷ codes "'" ∷ label ∷ codes "'" ∷ between ∷ after ∷ [])

-- `fw` and `fw_fs`: the sets that fit the light's filter.
unfoldable pub set_filter : Bytes → Option ℤ → Bytes
unfolding decimal_int
set_filter prefix none = concat (codes " AND " ∷ prefix ∷ codes "filter_id IS NULL" ∷ [])
set_filter prefix (some filter) = concat (
    codes " AND ("
    ∷ prefix
    ∷ codes "filter_id IS NULL OR "
    ∷ prefix
    ∷ codes "filter_id = "
    ∷ decimal_int filter
    ∷ codes ")"
    ∷ [])

-- `fo`.
unfoldable pub filter_order : Option ℤ → Bytes
filter_order none = []
filter_order (some filter) = codes "(filter_id IS NOT NULL) DESC, "

module _ (p : Platform) (light : LightKey p) (rig : Bytes) where
  night_text : Bytes → Bytes
  unfolding quoted_text
  night_text = quoted_text p.escape

  on_night : Option Bytes → (Bytes → Prog (Option FlatSetPick)) → Prog (Option FlatSetPick)
  on_night none f = ret none
  on_night (some night) f = f night

  pinned : Bytes → Prog (Option FlatSetPick)
  unfolding first_set night_text set_filter about
  pinned night = do
    rows ← query (
        concat (
          codes
            "SELECT fs.id, fs.label FROM light_flat_pins p JOIN flat_sets fs ON fs.id = p.flat_set_id WHERE p.scope = 'rig_night' AND p.rig_id = "
          ∷ rig
          ∷ codes " AND p.session_night = "
          ∷ night_text night
          ∷ set_filter (codes "fs.") light.filter_id
          ∷ codes " LIMIT 1"
          ∷ []))
    first_set rows
        (λ label. about (codes "pinned flat set ") label (codes " for ") (p.escape night))

  in_window : Bytes → Prog (Option FlatSetPick)
  unfolding first_set night_text set_filter filter_order about
  in_window night = do
    rows ← query (
        concat (
          codes "SELECT id, label FROM flat_sets WHERE rig_id = "
          ∷ rig
          ∷ codes " AND ((valid_from IS NOT NULL AND valid_to IS NOT NULL AND "
          ∷ night_text night
          ∷ codes
              " BETWEEN valid_from AND valid_to) OR (valid_from IS NOT NULL AND valid_to IS NULL AND "
          ∷ night_text night
          ∷ codes " >= valid_from))"
          ∷ set_filter [] light.filter_id
          ∷ codes " ORDER BY "
          ∷ filter_order light.filter_id
          ∷ codes "captured_night DESC, id DESC LIMIT 1"
          ∷ []))
    first_set rows (λ label.
        about (codes "flat set ") label (codes " (window covers ") (p.escape night ++ codes ")"))

  newest : Bytes → Prog (Option FlatSetPick)
  unfolding first_set night_text set_filter filter_order about
  newest night = do
    rows ← query (
        concat (
          codes "SELECT id, label FROM flat_sets WHERE rig_id = "
          ∷ rig
          ∷ codes " AND (captured_night IS NULL OR captured_night <= "
          ∷ night_text night
          ∷ codes ")"
          ∷ set_filter [] light.filter_id
          ∷ codes " ORDER BY "
          ∷ filter_order light.filter_id
          ∷ codes "captured_night DESC, id DESC LIMIT 1"
          ∷ []))
    first_set rows (λ label.
        about (codes "flat set ") label (codes " (newest on/before ")
          (p.escape night ++ codes ", fixed rig)"))

  active_of : Bytes → List Row → Prog (Option FlatSetPick)
  unfolding pick_of cell about
  active_of sid [] = ret none
  active_of sid (r ∷ rs) =
      pick_of (some sid)
        (about (codes "active flat set ") (value_or (cell r 0) []) (codes " (fixed rig)") [])

  active : Option Bytes → Prog (Option FlatSetPick)
  unfolding set_filter active_of
  active none = ret none
  active (some sid) = do
    rows ← query (
        concat (
          codes "SELECT label FROM flat_sets WHERE id = "
          ∷ sid
          ∷ set_filter [] light.filter_id
          ∷ []))
    active_of sid rows

  same_session : Bytes → Prog (Option FlatSetPick)
  unfolding first_set night_text set_filter filter_order about
  same_session night = do
    rows ← query (
        concat (
          codes "SELECT id, label FROM flat_sets WHERE rig_id = "
          ∷ rig
          ∷ codes " AND captured_night = "
          ∷ night_text night
          ∷ set_filter [] light.filter_id
          ∷ codes " ORDER BY "
          ∷ filter_order light.filter_id
          ∷ codes "id DESC LIMIT 1"
          ∷ []))
    first_set rows (λ label.
        about (codes "flat set ") label (codes " from the same session (")
          (p.escape night ++ codes ")"))

  -- A rig with a site is fixed.
  of_rig : List Row → Prog (Option FlatSetPick)
  unfolding or_pick on_night cell
  of_rig [] = ret none
  of_rig (r ∷ rs) =
      if is_some (cell r 0)
      then or_pick
          (on_night light.session_night (λ night. or_pick (in_window night) (newest night)))
          (active (cell r 1))
      else on_night light.session_night same_session

  of_light : Prog (Option FlatSetPick)
  unfolding or_pick on_night
  of_light = or_pick (on_night light.session_night pinned) (do
    rows ← query (
        concat (
          codes "SELECT site_id, active_flat_set_id FROM rigs WHERE id = "
          ∷ rig
          ∷ codes " LIMIT 1"
          ∷ []))
    of_rig rows)

module _ (p : Platform) (light : LightKey p) where
  by_rig : Option ℤ → Prog (Option FlatSetPick)
  by_rig none = ret none
  by_rig (some rig) = of_light p light (decimal_int rig)

  pub resolve_flat_set : Prog (Option FlatSetPick)
  resolve_flat_set = by_rig light.rig_id
