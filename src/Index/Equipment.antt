-- ===== src/Index/Equipment.antt =====
-- src/index/equipment.cpp: the registry of cameras, filters, rigs and sites, and the resolver with its
-- caches. `std::unordered_map` is a list of entries in which the newest one for a key counts; doubles
-- and the escaping of the connection are those of `Platform`.
pub mod Registry
pub mod Cached
pub mod Rigs
pub mod Examples
use star_base.Db.Database.{cell}
use star_base.Db.Database.Statements.{query, exec, quoted_text}
use star_base.Query.Platform.{Platform}
use star_base.Sys.{Row, Prog, ret, throw, ◌>>=◌, ◌>>◌, or_throw}
use star_base.Common.Stoi.{stoi}
use star_base.Common.{
  zero, suc, ap, Bool, true, false, ◌&&◌, Option, none, some, List, [], ◌∷◌, ◌++◌, ◌==◌,
  if◌then◌else◌, value_or, or_else, Bytes, codes, concat, text_eq, contains, find,
}
use star_base.Common.Ascii.{is_space, is_digit, to_lower, lower}
use star_base.Common.Int.{ℤ, pos, negsuc}

abbrev pub Map : Type 0
Map = List (Bytes × ℤ)

-- `find` of a map.
unfoldable pub lookup : Bytes → Map → Option ℤ
unfolding text_eq
lookup k [] = none
lookup k ((j, v) ∷ m) = if text_eq j k then some v else lookup k m

pub record Alias : Type 0 where
  pub pattern : Bytes
  pub id : ℤ

-- `ASI\s?(\d{3,4})` at the start, in any case: the digits.
three_or_four : Bytes → Option Bytes
unfolding is_digit
three_or_four (a ∷ b ∷ c ∷ d ∷ s) =
    if is_digit a && (is_digit b && is_digit c)
    then some (if is_digit d then a ∷ b ∷ c ∷ d ∷ [] else a ∷ b ∷ c ∷ [])
    else none
three_or_four (a ∷ b ∷ c ∷ []) =
    if is_digit a && (is_digit b && is_digit c) then some (a ∷ b ∷ c ∷ []) else none
three_or_four few = none

after_space : Bytes → Option Bytes
unfolding is_space three_or_four
after_space [] = none
after_space (c ∷ s) = if is_space c then three_or_four s else three_or_four (c ∷ s)

model_here : Bytes → Option Bytes
unfolding to_lower after_space
model_here (a ∷ b ∷ c ∷ s) =
    if to_lower a == b'a' && (to_lower b == b's' && to_lower c == b'i') then after_space s else none
model_here few = none

model_digits : Bytes → Option Bytes
unfolding model_here
model_digits [] = none
model_digits (c ∷ s) = or_else (model_here (c ∷ s)) (model_digits s)

-- The canonical camera model; empty where there is no ZWO model number.
unfoldable pub base_model : Bytes → Bytes
unfolding model_digits
base_model s = elim (model_digits s) [ none ↦ [] | some digits ↦ codes "ASI" ++ digits ]

is_negative : ℤ → Bool
is_negative (pos n) = false
is_negative (negsuc n) = true

-- The id of the first alias whose pattern passes the test, else -1.
first_alias : (Bytes → Bool) → List Alias → ℤ
first_alias test [] = negsuc 0
first_alias test (a ∷ as') = if test a.pattern then a.id else first_alias test as'

id_of : List Row → Prog ℤ
unfolding cell stoi
id_of [] = ret (negsuc 0)
id_of (r ∷ rs) = elim (cell r 0) [
  | none ↦ ret (negsuc 0)
  | some s ↦ or_throw (stoi s) (codes "stoi")
]

read_id : Bytes → Prog ℤ
read_id sql = do rs ← query sql; id_of rs

pub record Caches : Type 0 where
  pub camera_cache : Map
  pub filter_cache : Map

module _ (p : Platform) where
  pub record Rig : Type 0 where
    pub id : ℤ
    pub camera_id : ℤ
    pub focal_min : p.Double
    pub focal_max : p.Double
    pub site_id : Option ℤ

  pub record EquipmentRegistry : Type 0 where
    pub cameras_by_model : Map
    pub camera_aliases : List Alias
    pub filters_by_name : Map
    pub filter_aliases : List Alias
    pub rigs : List Rig
    pub default_site_id : Option ℤ
    pub default_site_offset_h : p.Double

  -- The fields of a `ResolvedFrame` that are read.
  pub record Observed : Type 0 where
    pub instrume_raw : Option Bytes
    pub filter_raw : Option Bytes
    pub focal_len_mm : Option p.Double

  pub record EquipmentIds : Type 0 where
    pub camera_id : Option ℤ
    pub rig_id : Option ℤ
    pub filter_id : Option ℤ
    pub site_id : Option ℤ

  quoted : Bytes → Bytes
  quoted = quoted_text p.escape

  -- The id of a ZWO model; `id` is what the aliases gave, which is kept where there is no model.
  model_id : EquipmentRegistry → ℤ → Bytes → Prog ℤ
  unfolding lookup quoted
  model_id reg id [] = ret id
  model_id reg id (c ∷ model) = elim (lookup (lower (c ∷ model)) reg.cameras_by_model) [
    | some known ↦ ret known
    | none ↦ do
      made ← exec (
          concat (
            codes "INSERT IGNORE INTO cameras (model, vendor) VALUES ("
            ∷ quoted (c ∷ model)
            ∷ codes ", 'ZWO')"
            ∷ []))
      read_id (
          concat (
            codes "SELECT id FROM cameras WHERE model = "
            ∷ quoted (c ∷ model)
            ∷ codes " LIMIT 1"
            ∷ []))
  ]

  camera_alias : EquipmentRegistry → Bytes → ℤ
  unfolding contains first_alias
  camera_alias reg key = first_alias (λ pattern. contains (lower pattern) key) reg.camera_aliases

  find_camera : EquipmentRegistry → Bytes → Prog ℤ
  unfolding camera_alias is_negative base_model
  find_camera reg raw =
      let id = camera_alias reg (lower raw) in
      elim (is_negative id) [ true ↦ model_id reg id (base_model raw) | false ↦ ret id ]

  pub resolve_camera : EquipmentRegistry → Caches → Bytes → Prog (ℤ × Caches)
  unfolding lookup
  resolve_camera reg caches raw = elim (lookup (lower raw) caches.camera_cache) [
    | some id ↦ ret (id, caches)
    | none ↦ do
      id ← find_camera reg raw
      ret (id, record caches { camera_cache = (lower raw, id) ∷ caches.camera_cache })
  ]

  named_filter : EquipmentRegistry → Bytes → ℤ
  unfolding first_alias lookup is_negative text_eq
  named_filter reg key =
      let id = first_alias (λ pattern. text_eq key (lower pattern)) reg.filter_aliases in
      if is_negative id then value_or (lookup key reg.filters_by_name) id else id

  find_filter : EquipmentRegistry → Bytes → Prog ℤ
  unfolding named_filter is_negative quoted
  find_filter reg raw =
      let id = named_filter reg (lower raw) in
      elim (is_negative id) [
        | false ↦ ret id
        | true ↦ do
          made ← exec (
              concat
                (codes "INSERT IGNORE INTO filters (name) VALUES (" ∷ quoted raw ∷ codes ")" ∷ []))
          read_id (
              concat
                (codes "SELECT id FROM filters WHERE name = " ∷ quoted raw ∷ codes " LIMIT 1" ∷ []))
      ]

  pub resolve_filter : EquipmentRegistry → Caches → Bytes → Prog (ℤ × Caches)
  unfolding lookup
  resolve_filter reg caches [] = ret (negsuc 0, caches)
  resolve_filter reg caches (c ∷ raw) = elim (lookup (lower (c ∷ raw)) caches.filter_cache) [
    | some id ↦ ret (id, caches)
    | none ↦ do
      id ← find_filter reg (c ∷ raw)
      ret (id, record caches { filter_cache = (lower (c ∷ raw), id) ∷ caches.filter_cache })
  ]

  -- `if (id > 0)`.
  positive : ℤ → Option ℤ
  positive (pos zero) = none
  positive (pos (suc n)) = some (pos (suc n))
  positive (negsuc n) = none

  camera_of : EquipmentRegistry → Caches → Option Bytes → Prog (Option ℤ × Caches)
  unfolding positive
  camera_of reg caches none = ret (none, caches)
  camera_of reg caches (some raw) = do
    found ← resolve_camera reg caches raw
    ret (positive found.0, found.1)

  filter_of : EquipmentRegistry → Caches → Option Bytes → Prog (Option ℤ × Caches)
  unfolding positive
  filter_of reg caches none = ret (none, caches)
  filter_of reg caches (some raw) = do
    found ← resolve_filter reg caches raw
    ret (positive found.0, found.1)

  pub same_id : ℤ → ℤ → Bool
  same_id (pos a) (pos b) = a == b
  same_id (negsuc a) (negsuc b) = a == b
  same_id (pos a) (negsuc b) = false
  same_id (negsuc a) (pos b) = false

  pub rig_fits : ℤ → p.Double → Rig → Bool
  unfolding same_id
  rig_fits camera focal rig =
      same_id rig.camera_id camera
      && (p.less_eq rig.focal_min focal && p.less_eq focal rig.focal_max)

  pub first_rig : ℤ → p.Double → List Rig → Option Rig
  unfolding rig_fits
  first_rig camera focal [] = none
  first_rig camera focal (r ∷ rs) =
      if rig_fits camera focal r then some r else first_rig camera focal rs

  rig_of : EquipmentRegistry → Option ℤ → Option p.Double → Option Rig
  unfolding first_rig
  rig_of reg none focal = none
  rig_of reg (some camera) none = none
  rig_of reg (some camera) (some focal) = first_rig camera focal reg.rigs

  ids_with : EquipmentRegistry → Option ℤ → Option ℤ → Option Rig → EquipmentIds
  ids_with reg camera filter none = record {
    camera_id = camera;
    rig_id = none;
    filter_id = filter;
    site_id = reg.default_site_id;
  }
  ids_with reg camera filter (some rig) = record {
    camera_id = camera;
    rig_id = some rig.id;
    filter_id = filter;
    site_id = or_else rig.site_id reg.default_site_id;
  }

  pub resolve : EquipmentRegistry → Caches → Observed → Prog (EquipmentIds × Caches)
  unfolding rig_of ids_with
  resolve reg caches f = do
    camera ← camera_of reg caches f.instrume_raw
    filter ← filter_of reg camera.1 f.filter_raw
    ret (ids_with reg camera.0 filter.0 (rig_of reg camera.0 f.focal_len_mm), filter.1)
