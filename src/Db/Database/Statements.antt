-- ===== src/Db/Database/Statements.antt =====
-- The statements of src/db/database.cpp.
pub mod Safe
use star_base.Db.Database.{RootRow, RootFields, row_to_root, cell, opt_str, atoi, int_of}
use star_base.Sys.{
  Row, Reply, failed, rows, lost, done, mysql, db_error, Prog, ret, throw, ◌>>=◌, ◌>>◌, ask,
}
use star_base.Common.{
  ℕ, ap, Bool, true, false, not, Option, none, some, List, [], ◌∷◌, ◌++◌, map, ltb, ◌==◌,
  if◌then◌else◌, is_empty, Bytes, codes, concat, find,
}
use star_base.Common.Decimal.{decimal}
use star_base.Common.Int.{ℤ, pos, decimal_int}

unfoldable pub query_reply : Reply → Prog (List Row)
query_reply (failed e m) = throw (db_error (codes "query: " ++ m) e)
query_reply (rows rs) = ret rs
query_reply (lost m) = throw (db_error (codes "query (result fetch): " ++ m) 0)
query_reply (done id n) = ret []

unfoldable pub query : Bytes → Prog (List Row)
unfolding query_reply
query sql = do r ← ask (mysql sql); query_reply r

unfoldable pub exec_reply : Reply → Prog ℕ
exec_reply (failed e m) = throw (db_error (codes "exec: " ++ m) e)
exec_reply (rows rs) = ret 0
exec_reply (lost m) = ret 0
exec_reply (done id n) = ret id

unfoldable pub exec : Bytes → Prog ℕ
unfolding exec_reply
exec sql = do r ← ask (mysql sql); exec_reply r

-- The rows where a result was stored; the prefix names the caller in the error.
stored : Bytes → Reply → Prog (List Row)
stored what (failed e m) = throw (db_error (what ++ m) 0)
stored what (rows rs) = ret rs
stored what (lost m) = ret []
stored what (done id n) = ret []

fetch : Bytes → Bytes → Prog (List Row)
unfolding stored
fetch what sql = do r ← ask (mysql sql); stored what r

unfoldable pub tables : Prog (List Bytes)
unfolding fetch cell opt_str
tables = do
  rs ← fetch (codes "tables: ") (
      codes
        "SELECT table_name FROM information_schema.tables WHERE table_schema = DATABASE() AND table_type = 'BASE TABLE' ORDER BY table_name")
  ret (map (λ r. opt_str (cell r 0)) rs)

version_of : List Row → ℤ
unfolding cell atoi
version_of [] = pos 0
version_of (r ∷ rs) = elim (cell r 0) [ none ↦ pos 0 | some s ↦ atoi s ]

version_query : Bool → Prog ℤ
unfolding fetch version_of
version_query false = ret (pos 0)
version_query true = do
  rs ←
      fetch (codes "schema_version: ")
        (codes "SELECT COALESCE(MAX(version), 0) FROM schema_version")
  ret (version_of rs)

root_columns : Bytes
root_columns =
    codes
      "id, label, path, enabled, writable, case_sensitive, watch_mode, scan_interval_s, settle_seconds, ignore_globs, fs_type, last_scan_status, last_scan_end, last_scan_error, file_count"

unfoldable pub list_roots : Prog (List RootRow)
unfolding fetch root_columns
list_roots = do
  rs ←
      fetch (codes "list_roots: ")
        (concat (codes "SELECT " ∷ root_columns ∷ codes " FROM roots ORDER BY label" ∷ []))
  ret (map row_to_root rs)

-- The first row's first column.
first_cell : List Row → Option Bytes
unfolding cell
first_cell [] = none
first_cell (r ∷ rs) = cell r 0

first_root : List Row → Option RootRow
first_root [] = none
first_root (r ∷ rs) = some (row_to_root r)

-- The name of a field and the text of its value, where it is set.
set_bool : Bytes → Option Bool → List (Bytes × Bytes)
set_bool name none = []
set_bool name (some v) = (name, if v then codes "1" else codes "0") ∷ []

set_int : Bytes → Option ℤ → List (Bytes × Bytes)
set_int name none = []
set_int name (some v) = (name, decimal_int v) ∷ []

-- The items with `, ` between them.
unfoldable pub commas : List Bytes → Bytes
commas [] = []
commas (x ∷ []) = x
commas (x ∷ y ∷ ys) = x ++ (codes ", " ++ commas (y ∷ ys))

-- Each item with `, ` in front of it.
after_commas : List Bytes → Bytes
after_commas [] = []
after_commas (x ∷ xs) = codes ", " ++ (x ++ after_commas xs)

changed_rows : Bytes → Reply → Prog Bool
changed_rows what (failed e m) = throw (db_error (what ++ m) 0)
changed_rows what (rows rs) = ret true
changed_rows what (lost m) = ret true
changed_rows what (done id n) = ret (ltb 0 n)

add_reply : Reply → Prog ℤ
unfolding int_of
add_reply (failed e m) =
    if e == 1062
    then throw (
        db_error
          (concat (codes "a root with that label or path already exists (" ∷ m ∷ codes ")" ∷ [])) e)
    else throw (db_error (codes "add_root: " ++ m) e)
add_reply (rows rs) = ret (pos 0)
add_reply (lost m) = ret (pos 0)
add_reply (done id n) = ret (int_of id)

module _ (escape : Bytes → Bytes) where
  -- `'` + escape(s) + `'`.
  unfoldable pub quoted_text : Bytes → Bytes
  quoted_text s = b'\'' ∷ (escape s ++ b'\'' ∷ [])

  unfoldable pub table_exists : Bytes → Prog Bool
  unfolding fetch quoted_text
  table_exists name = do
    rs ← fetch (codes "table_exists: ") (
        concat (
          codes
            "SELECT 1 FROM information_schema.tables WHERE table_schema = DATABASE() AND table_name = "
          ∷ quoted_text name
          ∷ codes " LIMIT 1"
          ∷ []))
    ret (not (is_empty rs))

  unfoldable pub schema_version : Prog ℤ
  unfolding table_exists version_query
  schema_version = do there ← table_exists (codes "schema_version"); version_query there

  unfoldable pub get_setting : Bytes → Prog (Option Bytes)
  unfolding query quoted_text first_cell
  get_setting name = do
    rs ← query (
        concat (
          codes "SELECT value FROM settings WHERE name = "
          ∷ quoted_text name
          ∷ codes " LIMIT 1"
          ∷ []))
    ret (first_cell rs)

  unfoldable pub set_setting : Bytes → Bytes → Prog (Unit {0})
  unfolding exec quoted_text
  set_setting name value = do
    id ← exec (
        concat (
          codes "INSERT INTO settings (name, value) VALUES ("
          ∷ quoted_text name
          ∷ codes ", "
          ∷ quoted_text value
          ∷ codes ") ON DUPLICATE KEY UPDATE value = VALUES(value)"
          ∷ []))
    ret tt

  unfoldable pub find_root_by_label : Bytes → Prog (Option RootRow)
  unfolding fetch quoted_text root_columns first_root
  find_root_by_label label = do
    rs ← fetch (codes "find_root_by_label: ") (
        concat (
          codes "SELECT "
          ∷ root_columns
          ∷ codes " FROM roots WHERE label = "
          ∷ quoted_text label
          ∷ codes " LIMIT 1"
          ∷ []))
    ret (first_root rs)

  set_str : Bytes → Option Bytes → List (Bytes × Bytes)
  unfolding quoted_text
  set_str name none = []
  set_str name (some v) = (name, quoted_text v) ∷ []

  -- The fields that are set, in the order in which both statements name them.
  unfoldable pub field_texts : RootFields → List (Bytes × Bytes)
  unfolding set_bool set_int set_str
  field_texts f =
      set_bool (codes "enabled") f.enabled
      ++ (set_bool (codes "writable") f.writable
          ++ (set_bool (codes "case_sensitive") f.case_sensitive
              ++ (set_str (codes "watch_mode") f.watch_mode
                  ++ (set_int (codes "scan_interval_s") f.scan_interval_s
                      ++ (set_int (codes "settle_seconds") f.settle_seconds
                          ++ (set_str (codes "fs_type") f.fs_type
                              ++ set_str (codes "ignore_globs") f.ignore_globs))))))

  unfoldable pub add_root : Bytes → Bytes → RootFields → Prog ℤ
  unfolding quoted_text after_commas add_reply
  add_root label path f =
      let sets = field_texts f in
      do
        r ← ask (
            mysql (
              concat (
                codes "INSERT INTO roots (label, path, path_hash"
                ∷ after_commas (map (λ e. e.0) sets)
                ∷ codes ") VALUES ("
                ∷ quoted_text label
                ∷ codes ", "
                ∷ quoted_text path
                ∷ codes ", UNHEX(MD5("
                ∷ quoted_text path
                ∷ codes "))"
                ∷ after_commas (map (λ e. e.1) sets)
                ∷ codes ")"
                ∷ [])))
        add_reply r

  -- `update_root` behind the list of what it sets.
  update_with : Bytes → List Bytes → Prog Bool
  unfolding quoted_text commas changed_rows
  update_with label [] = ret false
  update_with label (x ∷ xs) = do
    r ← ask (
        mysql (
          concat (
            codes "UPDATE roots SET "
            ∷ commas (x ∷ xs)
            ∷ codes " WHERE label = "
            ∷ quoted_text label
            ∷ [])))
    changed_rows (codes "update_root: ") r

  unfoldable pub update_root : Bytes → RootFields → Prog Bool
  unfolding update_with
  update_root label f =
      update_with label (map (λ (e : Bytes × Bytes). e.0 ++ (codes " = " ++ e.1)) (field_texts f))

  unfoldable pub remove_root : Bytes → Prog Bool
  unfolding quoted_text changed_rows
  remove_root label = do
    r ← ask (mysql (concat (codes "DELETE FROM roots WHERE label = " ∷ quoted_text label ∷ [])))
    changed_rows (codes "remove_root: ") r
