-- ===== src/Index/Equipment/Registry.antt =====
-- `EquipmentRegistry::load`.
use star_base.Index.Equipment.{Map, Alias, Rig, EquipmentRegistry}
use star_base.Db.Database.{cell}
use star_base.Db.Database.Statements.{query}
use star_base.Query.Platform.{Platform}
use star_base.Sys.{Row, Prog, ret, ◌>>=◌, or_throw}
use star_base.Common.Stoi.{stoi}
use star_base.Common.{ℕ, Option, none, some, List, [], ◌∷◌, ◌++◌, Bytes, codes}
use star_base.Common.Ascii.{lower}
use star_base.Common.Int.{ℤ}

int_of_cell : Bytes → Prog ℤ
int_of_cell s = or_throw (stoi s) (codes "stoi")

-- The rows of ids and names as a map by the name in lower case; the last row of a name counts.
names_with : Map → Option Bytes → Option Bytes → Prog Map
names_with m (some id) (some name) = do i ← int_of_cell id; ret ((lower name, i) ∷ m)
names_with m (some id) none = ret m
names_with m none name = ret m

load_names : Map → List Row → Prog Map
unfolding cell
load_names m [] = ret m
load_names m (r ∷ rs) = do m' ← names_with m (cell r 0) (cell r 1); load_names m' rs

alias_of : Option Bytes → Option Bytes → Prog (List Alias)
alias_of (some pattern) (some id) = do
  i ← int_of_cell id
  ret (record { pattern = pattern; id = i } ∷ [])
alias_of (some pattern) none = ret []
alias_of none id = ret []

-- The aliases in the order of the rows.
load_aliases : List Row → Prog (List Alias)
unfolding cell
load_aliases [] = ret []
load_aliases (r ∷ rs) = do
  a ← alias_of (cell r 0) (cell r 1)
  rest ← load_aliases rs
  ret (a ++ rest)

value_of {ℓ} : {A : Type ℓ} → Option (A × ℕ) → Option A
value_of none = none
value_of (some (d, n)) = some d

module _ (p : Platform) where
  double_of_cell : Bytes → Prog p.Double
  double_of_cell s = or_throw (value_of (p.stod s)) (codes "stod")

  site_of : Option Bytes → Prog (Option ℤ)
  site_of none = ret none
  site_of (some s) = do i ← int_of_cell s; ret (some i)

  rig_of_row :
      Option Bytes → Option Bytes → Option Bytes → Option Bytes → Option Bytes → Prog (List (Rig p))
  unfolding site_of
  rig_of_row (some id) (some camera) (some low) (some high) site = do
    i ← int_of_cell id
    c ← int_of_cell camera
    l ← double_of_cell low
    h ← double_of_cell high
    s ← site_of site
    ret (record { id = i; camera_id = c; focal_min = l; focal_max = h; site_id = s } ∷ [])
  rig_of_row (some id) (some camera) (some low) none site = ret []
  rig_of_row (some id) (some camera) none high site = ret []
  rig_of_row (some id) none low high site = ret []
  rig_of_row none camera low high site = ret []

  load_rigs : List Row → Prog (List (Rig p))
  unfolding cell rig_of_row
  load_rigs [] = ret []
  load_rigs (r ∷ rs) = do
    rig ← rig_of_row (cell r 0) (cell r 1) (cell r 2) (cell r 3) (cell r 4)
    rest ← load_rigs rs
    ret (rig ++ rest)

  offset_of : Option Bytes → Prog p.Double
  offset_of none = ret (p.literal (codes "0.0"))
  offset_of (some s) = double_of_cell s

  -- The default site and its offset.
  default_site : List Row → Prog (Option ℤ × p.Double)
  unfolding cell offset_of
  default_site [] = ret (none, p.literal (codes "0.0"))
  default_site (r ∷ rs) = elim (cell r 0) [
    | none ↦ ret (none, p.literal (codes "0.0"))
    | some s ↦ do i ← int_of_cell s; o ← offset_of (cell r 1); ret (some i, o)
  ]

  pub load : Prog (EquipmentRegistry p)
  load = do
    camera_rows ← query (codes "SELECT id, model FROM cameras")
    cameras ← load_names [] camera_rows
    alias_rows ← query (codes "SELECT pattern, camera_id FROM camera_aliases ORDER BY priority, id")
    aliases ← load_aliases alias_rows
    filter_rows ← query (codes "SELECT id, name FROM filters")
    filters ← load_names [] filter_rows
    pattern_rows ←
        query (codes "SELECT pattern, filter_id FROM filter_aliases ORDER BY priority, id")
    patterns ← load_aliases pattern_rows
    rig_rows ← query (
        codes
          "SELECT id, camera_id, focal_min_mm, focal_max_mm, site_id FROM rigs WHERE status = 'active'")
    rigs ← load_rigs rig_rows
    site_rows ←
        query (codes "SELECT id, utc_offset_h FROM sites ORDER BY is_default DESC, id LIMIT 1")
    site ← default_site site_rows
    ret (record {
      cameras_by_model = cameras;
      camera_aliases = aliases;
      filters_by_name = filters;
      filter_aliases = patterns;
      rigs = rigs;
      default_site_id = site.0;
      default_site_offset_h = site.1;
    })
