-- ===== src/Index/Equipment/Examples.antt =====
-- Runs of src/index/equipment.cpp.
use star_base.Index.Equipment.Cached.{Any, resolve_camera_once}
use star_base.Index.Equipment.Rigs.{IsFirst, first_rig-IsFirst}
use star_base.Index.Equipment.{
  Caches, Rig, EquipmentRegistry, resolve_camera, first_rig, base_model,
}
use star_base.Query.Platform.{Platform}
use star_base.Query.Whole.{whole, no_stod}
use star_base.Sys.Ends.{Ends}
use star_base.Sys.{ret}
use star_base.Common.{ℕ, ◌≡◌, refl, none, some, [], ◌∷◌, codes}
use star_base.Common.Ascii.{lower}
use star_base.Common.Int.{ℤ, pos}

abbrev whole_numbers : Platform
whole_numbers = whole (λ s. 0) no_stod

abbrev rig : ℕ → ℕ → ℕ → Rig whole_numbers
rig i low high = record {
  id = pos i;
  camera_id = pos 4;
  focal_min = low;
  focal_max = high;
  site_id = none;
}

abbrev registry : EquipmentRegistry whole_numbers
registry = record {
  cameras_by_model = (codes "asi6200", pos 4) ∷ [];
  camera_aliases = [];
  filters_by_name = [];
  filter_aliases = [];
  rigs = rig 1 100 200 ∷ rig 2 500 600 ∷ rig 3 500 900 ∷ [];
  default_site_id = some (pos 1);
  default_site_offset_h = 0;
}

abbrev empty_caches : Caches
empty_caches = record { camera_cache = []; filter_cache = [] }

model_test : base_model (codes "ZWO asi 6200MC Pro") ≡ codes "ASI6200"
unfolding base_model
model_test = refl

resolve_camera_once_example :
    Ends
      (λ (r : ℤ × Caches). resolve_camera whole_numbers registry r.1 (codes "zwo asi6200") ≡ ret r)
      Any
      (resolve_camera whole_numbers registry empty_caches (codes "ZWO ASI6200"))
resolve_camera_once_example =
    resolve_camera_once whole_numbers registry empty_caches (codes "ZWO ASI6200")
      (codes "zwo asi6200") (unfold lower in refl)

first_rig-IsFirst_example :
    IsFirst whole_numbers
      (pos 4)
      530
      registry.rigs
      (first_rig whole_numbers (pos 4) 530 registry.rigs)
first_rig-IsFirst_example = first_rig-IsFirst whole_numbers (pos 4) 530 registry.rigs
