-- ===== src/Db/Database/Statements/Safe.antt =====
-- The statements of src/db/database.cpp keep their texts inside quotes.
use star_base.Db.Database.{RootFields}
use star_base.Db.Database.Statements.{
  query, exec, table_exists, schema_version, list_roots, tables, get_setting, set_setting,
  find_root_by_label, add_root, update_root, remove_root, field_texts, quoted_text, commas,
  after_commas, query_reply, exec_reply, version_query, update_with, stored, fetch, root_columns,
  set_bool, set_int, set_str, add_reply, changed_rows,
}
use star_base.Query.Sql.{
  outside, quoted, scan, scan_part, IsNeutral, IsNeutral-append, decimal_int-IsNeutral,
}
use star_base.Sys.Ends.{Calls, bind-Calls}
use star_base.Sys.{Reply, failed, rows, lost, done, Call}
use star_base.Common.{
  ℕ, ◌≡◌, refl, ◌∙◌, inl, inr, Bool, true, false, Option, none, some, List, [], ◌∷◌, ◌++◌, map,
  ◌==◌, Bool-cases, All, Bytes, codes, concat,
}
use star_base.Common.Int.{ℤ}

-- A statement that is one statement: read from its start it ends outside quotes and parentheses.
abbrev pub IsStatement : Call → Type 0
IsStatement (Call.mysql sql) = scan (outside 0) sql ≡ some (outside 0)
IsStatement c = Unit

pub concat-IsNeutral : (xs : List Bytes) → All IsNeutral xs → IsNeutral (concat xs)
unfolding scan
concat-IsNeutral [] h = λ k. refl
concat-IsNeutral (x ∷ xs) (h, hs) = IsNeutral-append x (concat xs) h (concat-IsNeutral xs hs)

commas-IsNeutral : (xs : List Bytes) → All IsNeutral xs → IsNeutral (commas xs)
unfolding commas scan
commas-IsNeutral [] h = λ k. refl
commas-IsNeutral (x ∷ []) (h, hs) = h
commas-IsNeutral (x ∷ y ∷ ys) (h, hs) =
    IsNeutral-append x (codes ", " ++ commas (y ∷ ys)) h (commas-IsNeutral (y ∷ ys) hs)

after_commas-IsNeutral : (xs : List Bytes) → All IsNeutral xs → IsNeutral (after_commas xs)
unfolding after_commas scan
after_commas-IsNeutral [] h = λ k. refl
after_commas-IsNeutral (x ∷ xs) (h, hs) =
    λ k. IsNeutral-append x (after_commas xs) h (after_commas-IsNeutral xs hs) k

-- Each reply is looked at without a further call.
query_reply-Calls : (Q : Call → Type 0) (r : Reply) → Calls Q (query_reply r)
unfolding query_reply
query_reply-Calls Q (failed e m) = tt
query_reply-Calls Q (rows rs) = tt
query_reply-Calls Q (lost m) = tt
query_reply-Calls Q (done i n) = tt

exec_reply-Calls : (Q : Call → Type 0) (r : Reply) → Calls Q (exec_reply r)
unfolding exec_reply
exec_reply-Calls Q (failed e m) = tt
exec_reply-Calls Q (rows rs) = tt
exec_reply-Calls Q (lost m) = tt
exec_reply-Calls Q (done i n) = tt

stored-Calls : (Q : Call → Type 0) (what : Bytes) (r : Reply) → Calls Q (stored what r)
unfolding stored
stored-Calls Q what (failed e m) = tt
stored-Calls Q what (rows rs) = tt
stored-Calls Q what (lost m) = tt
stored-Calls Q what (done i n) = tt

changed_rows-Calls : (Q : Call → Type 0) (what : Bytes) (r : Reply) → Calls Q (changed_rows what r)
unfolding changed_rows
changed_rows-Calls Q what (failed e m) = tt
changed_rows-Calls Q what (rows rs) = tt
changed_rows-Calls Q what (lost m) = tt
changed_rows-Calls Q what (done i n) = tt

add_reply-Calls : (Q : Call → Type 0) (r : Reply) → Calls Q (add_reply r)
unfolding add_reply
add_reply-Calls Q (failed e m) = elim (Bool-cases (e == 1062)) [ inl h ↦ rw h tt | inr h ↦ rw h tt ]
add_reply-Calls Q (rows rs) = tt
add_reply-Calls Q (lost m) = tt
add_reply-Calls Q (done i n) = tt

-- A query makes its one call and no other, and so does a change.
pub query-Calls : (Q : Call → Type 0) (sql : Bytes) → Q (Call.mysql sql) → Calls Q (query sql)
unfolding query
query-Calls Q sql h = (h, query_reply-Calls Q)

pub exec-Calls : (Q : Call → Type 0) (sql : Bytes) → Q (Call.mysql sql) → Calls Q (exec sql)
unfolding exec
exec-Calls Q sql h = (h, exec_reply-Calls Q)

fetch-Calls : (Q : Call → Type 0) (what sql : Bytes) → Q (Call.mysql sql) → Calls Q (fetch what sql)
unfolding fetch
fetch-Calls Q what sql h = (h, stored-Calls Q what)

module _ (escape : Bytes → Bytes)
    (inside : (s : Bytes) (k : ℕ) → scan (quoted k) (escape s) ≡ some (quoted k)) where
  pub quoted_text-IsNeutral : (s : Bytes) → IsNeutral (quoted_text escape s)
  unfolding quoted_text scan
  quoted_text-IsNeutral s k = scan_part (escape s) (b'\'' ∷ []) (quoted k) (quoted k) (inside s k)

  -- The name and the text of each field.
  IsField : Bytes × Bytes → Type 0
  IsField e = IsNeutral e.0 × IsNeutral e.1

  set_bool-IsField : (n : Bytes) (v : Option Bool) → IsNeutral n → All IsField (set_bool n v)
  unfolding set_bool IsField scan
  set_bool-IsField n none h = tt
  set_bool-IsField n (some true) h = ((h, λ k. refl), tt)
  set_bool-IsField n (some false) h = ((h, λ k. refl), tt)

  set_int-IsField : (n : Bytes) (v : Option ℤ) → IsNeutral n → All IsField (set_int n v)
  unfolding set_int IsField
  set_int-IsField n none h = tt
  set_int-IsField n (some v) h = ((h, decimal_int-IsNeutral v), tt)

  set_str-IsField : (n : Bytes) (v : Option Bytes) → IsNeutral n → All IsField (set_str escape n v)
  unfolding set_str IsField
  set_str-IsField n none h = tt
  set_str-IsField n (some v) h = ((h, quoted_text-IsNeutral v), tt)

  append-IsField :
      (xs ys : List (Bytes × Bytes)) → All IsField xs → All IsField ys → All IsField (xs ++ ys)
  append-IsField [] ys h k = k
  append-IsField (x ∷ xs) ys (h, hs) k = (h, append-IsField xs ys hs k)

  field_texts-IsField : (f : RootFields) → All IsField (field_texts escape f)
  unfolding field_texts scan
  field_texts-IsField f = append-IsField _ _ (set_bool-IsField _ f.enabled (λ k. refl)) (
      append-IsField _ _ (set_bool-IsField _ f.writable (λ k. refl)) (
        append-IsField _ _ (set_bool-IsField _ f.case_sensitive (λ k. refl)) (
          append-IsField _ _ (set_str-IsField _ f.watch_mode (λ k. refl)) (
            append-IsField _ _ (set_int-IsField _ f.scan_interval_s (λ k. refl)) (
              append-IsField _ _ (set_int-IsField _ f.settle_seconds (λ k. refl)) (
                append-IsField _ _ (set_str-IsField _ f.fs_type (λ k. refl))
                  (set_str-IsField _ f.ignore_globs (λ k. refl))))))))

  names-IsNeutral : (es : List (Bytes × Bytes)) → All IsField es → All IsNeutral (map (λ e. e.0) es)
  unfolding IsField
  names-IsNeutral [] h = tt
  names-IsNeutral (e ∷ es) (h, hs) = (h.0, names-IsNeutral es hs)

  values-IsNeutral :
      (es : List (Bytes × Bytes)) → All IsField es → All IsNeutral (map (λ e. e.1) es)
  unfolding IsField
  values-IsNeutral [] h = tt
  values-IsNeutral (e ∷ es) (h, hs) = (h.1, values-IsNeutral es hs)

  sets-IsNeutral :
      (es : List (Bytes × Bytes))
      → All IsField es
      → All IsNeutral (map (λ (e : Bytes × Bytes). e.0 ++ (codes " = " ++ e.1)) es)
  unfolding IsField scan
  sets-IsNeutral [] h = tt
  sets-IsNeutral (e ∷ es) (h, hs) =
      (IsNeutral-append e.0 (codes " = " ++ e.1) h.0 (λ k. h.1 k), sets-IsNeutral es hs)

  -- Past a text in quotes.
  text_past :
      (s rest : Bytes) (k : ℕ)
      → scan (outside k) (quoted_text escape s ++ rest) ≡ scan (outside k) rest
  text_past s rest k =
      scan_part (quoted_text escape s) rest (outside k) (outside k) (quoted_text-IsNeutral s k)

  -- Past the names or the texts of the fields.
  list_past :
      (xs : List Bytes) (rest : Bytes) (k : ℕ)
      → All IsNeutral xs
      → scan (outside k) (after_commas xs ++ rest) ≡ scan (outside k) rest
  list_past xs rest k h =
      scan_part (after_commas xs) rest (outside k) (outside k) (after_commas-IsNeutral xs h k)

  table_exists-Calls : (name : Bytes) → Calls IsStatement (table_exists escape name)
  unfolding table_exists fetch stored scan
  table_exists-Calls name =
      (text_past name _ 0, elim [ failed e m ↦ tt | rows rs ↦ tt | lost m ↦ tt | done i n ↦ tt ])

  version-Calls : (there : Bool) → Calls IsStatement (version_query there)
  unfolding version_query fetch stored scan
  version-Calls true = (refl, elim [ failed e m ↦ tt | rows rs ↦ tt | lost m ↦ tt | done i n ↦ tt ])
  version-Calls false = tt

  schema_version-Calls : Calls IsStatement (schema_version escape)
  unfolding schema_version
  schema_version-Calls =
      bind-Calls IsStatement (table_exists escape (codes "schema_version")) version_query
        (table_exists-Calls (codes "schema_version")) version-Calls

  get_setting-Calls : (name : Bytes) → Calls IsStatement (get_setting escape name)
  unfolding get_setting query query_reply scan
  get_setting-Calls name =
      (text_past name _ 0, elim [ failed e m ↦ tt | rows rs ↦ tt | lost m ↦ tt | done i n ↦ tt ])

  set_setting-Calls : (name value : Bytes) → Calls IsStatement (set_setting escape name value)
  unfolding set_setting exec exec_reply scan
  set_setting-Calls name value = (
    text_past name _ 1 ∙ text_past value _ 1,
    elim [ failed e m ↦ tt | rows rs ↦ tt | lost m ↦ tt | done i n ↦ tt ],
  )

  find_root-Calls : (label : Bytes) → Calls IsStatement (find_root_by_label escape label)
  unfolding find_root_by_label fetch stored root_columns scan
  find_root-Calls label =
      (text_past label _ 0, elim [ failed e m ↦ tt | rows rs ↦ tt | lost m ↦ tt | done i n ↦ tt ])

  remove_root-Calls : (label : Bytes) → Calls IsStatement (remove_root escape label)
  unfolding remove_root scan
  remove_root-Calls label =
      (text_past label _ 0, changed_rows-Calls IsStatement (codes "remove_root: "))

  add_root-Calls :
      (label path : Bytes) (f : RootFields) → Calls IsStatement (add_root escape label path f)
  unfolding add_root scan
  add_root-Calls label path f = (
    list_past _ _ 1 (names-IsNeutral (field_texts escape f) (field_texts-IsField f))
        ∙ text_past label _ 1
        ∙ text_past path _ 1
        ∙ text_past path _ 3
        ∙ list_past _ _ 1 (values-IsNeutral (field_texts escape f) (field_texts-IsField f)),
    add_reply-Calls IsStatement,
  )

  update-Calls :
      (label : Bytes) (sets : List Bytes)
      → All IsNeutral sets
      → Calls IsStatement (update_with escape label sets)
  unfolding update_with scan
  update-Calls label [] h = tt
  update-Calls label (x ∷ xs) h = (
    scan_part (commas (x ∷ xs)) _ (outside 0) (outside 0) (commas-IsNeutral (x ∷ xs) h 0)
        ∙ text_past label _ 0,
    changed_rows-Calls IsStatement (codes "update_root: "),
  )

  list_roots-Calls : Calls IsStatement list_roots
  unfolding list_roots fetch stored root_columns scan
  list_roots-Calls = (refl, elim [ failed e m ↦ tt | rows rs ↦ tt | lost m ↦ tt | done i n ↦ tt ])

  tables-Calls : Calls IsStatement tables
  unfolding tables fetch stored scan
  tables-Calls = (refl, elim [ failed e m ↦ tt | rows rs ↦ tt | lost m ↦ tt | done i n ↦ tt ])

  -- Whatever a label, a path, a setting or a field holds, each statement that the database layer sends is
  -- a single one: read from its start, it ends outside quotes and parentheses, and no comment and no
  -- second statement begins in it. That an escaped text does not end its quotes is assumed.
  pub statements-Safe :
      (label path name value : Bytes) (f : RootFields)
      → Calls IsStatement (add_root escape label path f)
        × Calls IsStatement (update_root escape label f)
        × Calls IsStatement (remove_root escape label)
        × Calls IsStatement (find_root_by_label escape label)
        × Calls IsStatement (get_setting escape name)
        × Calls IsStatement (set_setting escape name value)
        × Calls IsStatement (table_exists escape name)
        × Calls IsStatement (schema_version escape)
        × Calls IsStatement list_roots
        × Calls IsStatement tables
  unfolding update_root
  statements-Safe label path name value f = (
    add_root-Calls label path f,
    update-Calls label _ (sets-IsNeutral (field_texts escape f) (field_texts-IsField f)),
    remove_root-Calls label,
    find_root-Calls label,
    get_setting-Calls name,
    set_setting-Calls name value,
    table_exists-Calls name,
    schema_version-Calls,
    list_roots-Calls,
    tables-Calls,
  )
