-- ===== src/Action/Engine/Resolve.antt =====
-- The frames that an action is given (`resolve_by_ids`, `resolve_by_filter`).
use star_base.Action.Engine.{FrameRef}
use star_base.Db.Database.{cell}
use star_base.Db.Database.Statements.{query}
use star_base.Query.Filter.{compile_filter}
use star_base.Query.Json.{Json, object, no_members, query_error, json_error, Result, ok, err}
use star_base.Query.Platform.{Platform}
use star_base.Sys.{Row, Prog, ret, throw, runtime_error, ◌>>=◌, or_throw}
use star_base.Common.Stoi.{stoi, stoll}
use star_base.Common.{
  Option, none, some, List, [], ◌∷◌, ◌++◌, if◌then◌else◌, value_or, is_empty, Bytes, codes, concat,
}
use star_base.Common.Int.{ℤ, decimal_int}

-- A row of `kFrameSelect`.
row_to_ref : Row → Prog FrameRef
unfolding cell
row_to_ref r = do
  frame_id ← or_throw (stoll (value_or (cell r 0) (codes "0"))) (codes "stoll")
  file_id ← or_throw (stoll (value_or (cell r 1) (codes "0"))) (codes "stoll")
  root_id ← or_throw (stoi (value_or (cell r 2) (codes "0"))) (codes "stoi")
  ret (record {
    frame_id = frame_id;
    file_id = file_id;
    root_id = root_id;
    abs_path = value_or (cell r 3) [];
    rel_path = value_or (cell r 4) [];
    filename = value_or (cell r 5) [];
    image_type = value_or (cell r 6) (codes "unknown");
  })

pub rows_to_refs : List Row → Prog (List FrameRef)
rows_to_refs [] = ret []
rows_to_refs (r ∷ rs) = do f ← row_to_ref r; fs ← rows_to_refs rs; ret (f ∷ fs)

frame_select : Bytes
frame_select =
    codes
      "SELECT f.id, f.file_id, fl.root_id, CONCAT(r.path,'/',fl.rel_path), fl.rel_path, fl.filename, f.image_type FROM frames f JOIN files fl ON fl.id = f.file_id JOIN roots r ON r.id = fl.root_id "

id_list : List ℤ → Bytes
id_list [] = []
id_list (i ∷ []) = decimal_int i
id_list (i ∷ j ∷ is) = decimal_int i ++ (b',' ∷ id_list (j ∷ is))

pub resolve_by_ids : List ℤ → Prog (List FrameRef)
resolve_by_ids [] = ret []
resolve_by_ids (i ∷ is) = do
  rs ← query (concat (frame_select ∷ codes "WHERE f.id IN (" ∷ id_list (i ∷ is) ∷ codes ")" ∷ []))
  rows_to_refs rs

-- The ids of the rows; a row without one is left out.
ids_of : List Row → Prog (List ℤ)
ids_of [] = ret []
ids_of (r ∷ rs) = elim (cell r 0) [
  | none ↦ ids_of rs
  | some s ↦ do i ← or_throw (stoll s) (codes "stoll"); is ← ids_of rs; ret (i ∷ is)
]

of_result : Result Bytes → Prog Bytes
of_result (ok s) = ret s
of_result (err (query_error m)) = throw (runtime_error m)
of_result (err json_error) = throw (runtime_error (codes "json"))

module _ (p : Platform) (parse : Bytes → Option (Json p.Number)) where
  filter_of : Bytes → Option (Json p.Number)
  filter_of s = if is_empty s then some (object no_members) else parse s

  pub resolve_by_filter : Bytes → ℤ → Prog (List FrameRef)
  resolve_by_filter filter_json limit = do
    ast ← or_throw (filter_of filter_json) (codes "json")
    condition ← of_result (compile_filter p ast)
    rs ← query (
        concat (
          codes "SELECT frame_id FROM v_frames WHERE "
          ∷ condition
          ∷ codes " ORDER BY date_obs_utc DESC LIMIT "
          ∷ decimal_int limit
          ∷ []))
    ids ← ids_of rs
    resolve_by_ids ids
