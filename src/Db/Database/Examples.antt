-- ===== src/Db/Database/Examples.antt =====
-- Runs of src/db/database.cpp.
use star_base.Db.Database.{RootFields}
use star_base.Db.Database.Statements.{
  field_texts, get_setting, set_setting, add_root, update_root, remove_root, find_root_by_label,
  table_exists, schema_version, list_roots, tables,
}
use star_base.Db.Database.Statements.Safe.{IsStatement, statements-Safe}
use star_base.Query.Escaping.{backslashed, backslashed-inside}
use star_base.Sys.Ends.{Calls}
use star_base.Sys.{Call, Prog}
use star_base.Common.{◌≡◌, refl, true, none, some, [], Bytes, codes}
use star_base.Common.Int.{pos, decimal_int}

abbrev poll_only : RootFields
poll_only = record {
  enabled = some true;
  writable = none;
  case_sensitive = none;
  watch_mode = some (codes "poll");
  scan_interval_s = some (pos 60);
  settle_seconds = none;
  fs_type = none;
  ignore_globs = none;
}

abbrev label : Bytes
label = codes "Bob's; disk"

statements-Safe_example :
    Calls IsStatement (add_root backslashed label (codes "/astro") poll_only)
    × Calls IsStatement (update_root backslashed label poll_only)
    × Calls IsStatement (remove_root backslashed label)
    × Calls IsStatement (find_root_by_label backslashed label)
    × Calls IsStatement (get_setting backslashed (codes "a"))
    × Calls IsStatement (set_setting backslashed (codes "a") (codes "'"))
    × Calls IsStatement (table_exists backslashed (codes "a"))
    × Calls IsStatement (schema_version backslashed)
    × Calls IsStatement list_roots
    × Calls IsStatement tables
statements-Safe_example =
    statements-Safe backslashed backslashed-inside label (codes "/astro") (codes "a") (codes "'")
      poll_only

-- The statement of a program that starts with one.
abbrev first_sql : {A : Type 0} → Prog A → Bytes
first_sql (Prog.call (Call.mysql sql) k) = sql
first_sql _ = []

update_sql :
    first_sql (update_root backslashed label poll_only)
    ≡ codes
        "UPDATE roots SET enabled = 1, watch_mode = 'poll', scan_interval_s = 60 WHERE label = 'Bob\\'s; disk'"
unfolding update_root field_texts decimal_int
update_sql = refl
