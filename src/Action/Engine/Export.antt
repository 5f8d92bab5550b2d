-- ===== src/Action/Engine/Export.antt =====
-- The export of a set of frames (`export_frames`).
pub mod Csv
use star_base.Action.Engine.{FrameRef}
use star_base.Query.Json.{Json, object, number, string, array, Items, nil, cons, no_members, member}
use star_base.Common.{
  ◌||◌, List, [], ◌∷◌, ◌++◌, ◌==◌, if◌then◌else◌, Bytes, codes, concat, text_eq, has_byte,
}
use star_base.Common.Decimal.{decimal}
use star_base.Common.Int.{ℤ, decimal_int}

doubled : Bytes → Bytes
doubled [] = []
doubled (c ∷ s) = if c == b'"' then c ∷ c ∷ doubled s else c ∷ doubled s

-- A field of a CSV line.
pub csv_field : Bytes → Bytes
unfolding has_byte doubled
csv_field s = if has_byte b',' s || has_byte b'"' s then b'"' ∷ (doubled s ++ b'"' ∷ []) else s

pub csv_line : FrameRef → Bytes
unfolding csv_field
csv_line f = concat (
    decimal_int f.frame_id
    ∷ codes ","
    ∷ f.image_type
    ∷ codes ","
    ∷ csv_field f.filename
    ∷ codes ","
    ∷ csv_field f.abs_path
    ∷ (10 ∷ [])
    ∷ [])

csv_lines : List FrameRef → Bytes
unfolding csv_line
csv_lines [] = []
csv_lines (f ∷ fs) = csv_line f ++ csv_lines fs

path_lines : List FrameRef → Bytes
path_lines [] = []
path_lines (f ∷ fs) = f.abs_path ++ (10 ∷ path_lines fs)

json_of : FrameRef → Json ℤ
json_of f = object (
    member (codes "frame_id") (number f.frame_id) (
      member (codes "image_type") (string f.image_type) (
        member (codes "filename") (string f.filename)
          (member (codes "path") (string f.abs_path) no_members))))

json_items : List FrameRef → Items ℤ
json_items [] = nil
json_items (f ∷ fs) = cons (json_of f) (json_items fs)

-- `dump` is `json::dump(2)`.
pub export_frames : (Json ℤ → Bytes) → List FrameRef → Bytes → Bytes
unfolding text_eq path_lines json_items json_of csv_lines
export_frames dump frames format =
    if text_eq format (codes "paths")
    then path_lines frames
    else if text_eq format (codes "json")
    then dump (array (json_items frames))
    else codes "frame_id,image_type,filename,path" ++ (10 ∷ csv_lines frames)
