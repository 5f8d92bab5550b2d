-- ===== src/Action/Engine/Examples.antt =====
-- Runs of src/action/action.cpp.
use star_base.Action.Engine.{
  ActionConfig, FrameRef, safe_name, with_suffix, fsop, stage, dest_base, is_fsop,
}
use star_base.Action.Engine.Names.{is_leaf, safe_name-is_leaf}
use star_base.Action.Engine.Dry.{IsAny, would, aim, aim_of, fsop-dry}
use star_base.Action.Engine.Count.{IsDb, named, stage-Ends}
use star_base.Action.Engine.Loss.{Keeps, fsop-Keeps}
use star_base.Action.Engine.Export.{csv_field}
use star_base.Action.Engine.Export.Csv.{read_field, read_field-csv_field}
use star_base.Query.Escaping.{backslashed}
use star_base.Sys.Ends.{Ends}
use star_base.Sys.{ret}
use star_base.Common.{
  ◌+◌, ◌≡◌, refl, true, false, none, some, List, [], ◌∷◌, ◌++◌, map, length, codes, has_byte,
}
use star_base.Common.Int.{pos, decimal_int}

abbrev config : ActionConfig
config = record {
  staging_root = codes "/var/stage";
  trash_root = codes "/var/trash";
  link_mode = codes "hardlink";
}

abbrev m31 : FrameRef
m31 = record {
  frame_id = pos 7;
  file_id = pos 9;
  root_id = pos 1;
  abs_path = codes "/astro/m31.fits";
  rel_path = codes "m31.fits";
  filename = codes "m31.fits";
  image_type = codes "light";
}

abbrev frames : List FrameRef
frames = m31 ∷ []

safe_name-is_leaf_example : is_leaf (safe_name (codes "../etc")) ≡ true
safe_name-is_leaf_example = safe_name-is_leaf (codes "../etc")

suffix_test : with_suffix (codes "m31.a.fits") (pos 7) ≡ codes "m31.a_7.fits"
unfolding with_suffix decimal_int
suffix_test = refl

trash_op : is_fsop (codes "trash") ≡ true
unfolding is_fsop
trash_op = refl

not_one : is_fsop (codes "unlink") ≡ false
unfolding is_fsop
not_one = refl

fsop-dry_example :
    (fsop backslashed config (codes "trash") frames [] true
      ≡ ret (record {
        job_id = 0;
        type = codes "trash";
        dry_run = true;
        total = length frames;
        done = length frames;
        failed = 0;
        skipped = 0;
        root = dest_base config (codes "trash") [] 0;
        items = map (would (codes "trash") (dest_base config (codes "trash") [] 0)) frames;
      }))
    × Ends
        (λ jr.
          map aim jr.items
          ≡ map (aim_of (codes "trash") (dest_base config (codes "trash") [] jr.job_id)) frames)
        IsAny
        (fsop backslashed config (codes "trash") frames [] false)
fsop-dry_example = fsop-dry backslashed config (codes "trash") frames [] trash_op

stage-Ends_example :
    Ends
      (λ jr.
        (jr.total ≡ length frames)
        × (jr.done + jr.failed ≡ length frames)
        × (map named jr.items ≡ map (λ (f : FrameRef). (f.frame_id, f.abs_path)) frames))
      IsDb
      (stage backslashed config frames)
stage-Ends_example = stage-Ends backslashed config frames

fsop-Keeps_example : Keeps none (fsop backslashed config (codes "move") frames (codes "/new") false)
fsop-Keeps_example = fsop-Keeps backslashed config (codes "move") frames (codes "/new") false

read_field-csv_field_example :
    read_field (csv_field (codes "a \"b\", c") ++ b',' ∷ codes "rest")
    ≡ some (codes "a \"b\", c", b',' ∷ codes "rest")
read_field-csv_field_example =
    read_field-csv_field (codes "a \"b\", c") b',' (codes "rest") refl (unfold has_byte in refl)
