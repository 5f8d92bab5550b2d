-- ===== src/Action/Engine.antt =====
-- src/action/action.cpp over the calls of `Sys`: frames, names, jobs, staging and file operations. The
-- resolution of frames and the export stand in the modules below.
pub mod Resolve
pub mod Export
pub mod Names
pub mod Dry
pub mod Loss
pub mod Count
pub mod Examples
use star_base.Db.Database.{cell}
use star_base.Db.Database.Statements.{query, exec, quoted_text}
use star_base.Sys.Paths.{join}
use star_base.Sys
use star_base.Sys.{Row, Call, runtime_error, Prog, ret, throw, ◌>>=◌, ◌>>◌, ask, or_throw}
use star_base.Common.Stoi.{stoi}
use star_base.Common.{
  ℕ, zero, suc, sym, ap, Bool, true, false, not, ◌&&◌, ◌||◌, Option, none, some, List, [], ◌∷◌,
  ◌++◌, map, ◌==◌, if◌then◌else◌, value_or, length, is_empty, drop, all, Bytes, codes, concat,
  text_eq, starts_with,
}
use star_base.Common.Decimal.{decimal}
use star_base.Common.Int.{ℤ, pos, negsuc, decimal_int}

pub record ActionConfig : Type 0 where
  pub staging_root : Bytes
  pub trash_root : Bytes
  pub link_mode : Bytes

pub record FrameRef : Type 0 where
  pub frame_id : ℤ
  pub file_id : ℤ
  pub root_id : ℤ
  pub abs_path : Bytes
  pub rel_path : Bytes
  pub filename : Bytes
  pub image_type : Bytes

pub record ItemResult : Type 0 where
  pub frame_id : ℤ
  pub action : Bytes
  pub src : Bytes
  pub dst : Bytes
  pub status : Bytes
  pub detail : Bytes

pub record JobResult : Type 0 where
  pub job_id : ℕ
  pub type : Bytes
  pub dry_run : Bool
  pub total : ℕ
  pub done : ℕ
  pub failed : ℕ
  pub skipped : ℕ
  pub root : Bytes
  pub items : List ItemResult

safe_byte : ℕ → ℕ
safe_byte c = if c == b'/' || c == 0 then b'_' else c

-- A leaf name that stays in its directory.
unfoldable pub safe_name : Bytes → Bytes
unfolding safe_byte text_eq
safe_name name =
    let s = map safe_byte name in
    if text_eq s (codes ".") || (text_eq s (codes "..") || is_empty s) then codes "_" else s

in_front : ℕ → Bytes × Bytes → Bytes × Bytes
in_front c (a, b) = (c ∷ a, b)

-- The text before the last dot, and the text from it.
split_dot : Bytes → Option (Bytes × Bytes)
unfolding in_front
split_dot [] = none
split_dot (c ∷ s) =
    let rest = split_dot s in
    elim rest [ some p ↦ some (in_front c p) | none ↦ if c == b'.' then some ([], c ∷ s) else none ]

-- `_<n>` in front of the extension.
unfoldable pub with_suffix : Bytes → ℤ → Bytes
unfolding split_dot
with_suffix name n = elim (split_dot name) [
  | none ↦ name ++ (b'_' ∷ decimal_int n)
  | some (stem, extension) ↦ stem ++ (b'_' ∷ (decimal_int n ++ extension))
]

slash_next : Bytes → Bool
slash_next [] = true
slash_next (c ∷ s) = c == b'/'

-- A root's path is not empty, and is the path or a parent directory of it.
holds : Bytes → Bytes → Bool
unfolding starts_with slash_next
holds path root =
    not (is_empty root) && (starts_with root path && slash_next (drop (length root) path))

-- The first root that holds the path. The id is a primary key, so it is not NULL.
first_holding : Bytes → List Row → Prog (ℤ × Bytes)
unfolding holds cell stoi
first_holding path [] = ret (pos 0, [])
first_holding path (r ∷ rs) = elim (holds path (value_or (cell r 1) [])) [
  | false ↦ first_holding path rs
  | true ↦ do
    id ← or_throw (stoi (value_or (cell r 0) [])) (codes "stoi")
    ret (id, value_or (cell r 1) [])
]

root_for : Bytes → Prog (ℤ × Bytes)
root_for path = do
  rs ← query (codes "SELECT id, path FROM roots ORDER BY LENGTH(path) DESC")
  first_holding path rs

-- An item at the end of a job, counted by its status.
pub add_item : JobResult → Bool → ItemResult → JobResult
add_item jr true it = record jr { done = suc jr.done; items = jr.items ++ it ∷ [] }
add_item jr false it = record jr { failed = suc jr.failed; items = jr.items ++ it ∷ [] }

status_of : Bool → Bytes
status_of ok = if ok then codes "ok" else codes "failed"

-- The message of an error code; that of no error where there is none.
message : Option Bytes → Bytes
message none = codes "Success"
message (some m) = m

pub is_ok : Option Bytes → Bool
is_ok none = true
is_ok (some m) = false

job_dir : ℕ → Bytes
job_dir id = codes "job-" ++ decimal id

-- The link or the copy of staging, by the mode.
link : Bytes → Bytes → Bytes → Prog (Option Bytes)
unfolding text_eq
link mode src dst = elim (text_eq mode (codes "hardlink")) [
  | true ↦ ask (Call.create_hard_link src dst)
  | false ↦ elim (text_eq mode (codes "copy")) [
    | true ↦ ask (Call.copy_file src dst)
    | false ↦ ask (Call.create_symlink src dst)
  ]
]

link_action : Bytes → Bytes
unfolding text_eq
link_action mode =
    if text_eq mode (codes "hardlink") || text_eq mode (codes "copy") then mode else codes "symlink"

-- The copy that stands in for a rename has ended: the source goes where it went well.
after_copy : Bytes → Option Bytes → Prog (Bool × Option Bytes)
unfolding is_ok
after_copy src (some m) = ret (false, some m)
after_copy src none = do rm ← ask (Call.remove src); ret (is_ok rm, none)

after_rename : Bytes → Bytes → Option Bytes → Prog (Bool × Option Bytes)
unfolding after_copy
after_rename src dst none = ret (true, none)
after_rename src dst (some m) = do ec ← ask (Call.copy_file src dst); after_copy src ec

move_file : Bytes → Bytes → Prog (Bool × Option Bytes)
unfolding after_rename
move_file src dst = do ec ← ask (Call.rename src dst); after_rename src dst ec

-- Copy, symlink, or move by `rename` and else by a copy and the removal of the source: whether it went
-- well, and the error code at the end.
pub perform : Bytes → Bytes → Bytes → Prog (Bool × Option Bytes)
unfolding text_eq is_ok move_file
perform op src dst = elim (text_eq op (codes "copy")) [
  | true ↦ do ec ← ask (Call.copy_file src dst); ret (is_ok ec, ec)
  | false ↦ elim (text_eq op (codes "symlink")) [
    | true ↦ do ec ← ask (Call.create_symlink src dst); ret (is_ok ec, ec)
    | false ↦ move_file src dst
  ]
]

unfoldable pub is_fsop : Bytes → Bool
unfolding text_eq
is_fsop op =
    text_eq op (codes "copy")
    || (text_eq op (codes "symlink") || (text_eq op (codes "move") || text_eq op (codes "trash")))

pub is_destructive : Bytes → Bool
unfolding text_eq
is_destructive op = text_eq op (codes "move") || text_eq op (codes "trash")

no_slash : Bytes → Bytes
no_slash [] = []
no_slash (c ∷ s) = if c == b'/' then s else c ∷ s

-- The path below the root.
below_root : Bytes → Bytes → Bytes
unfolding no_slash
below_root root dst = no_slash (drop (length root) dst)

pub dest_base : ActionConfig → Bytes → Bytes → ℕ → Bytes
unfolding text_eq job_dir
dest_base cfg op target_dir job_id =
    if text_eq op (codes "trash") then join cfg.trash_root (job_dir job_id) else target_dir

-- What a dry run says of a frame.
pub planned : Bytes → Bytes → FrameRef → ItemResult
unfolding safe_name join
planned op base f = record {
  frame_id = f.frame_id;
  action = op;
  src = f.abs_path;
  dst = join base (safe_name f.filename);
  status = codes "ok";
  detail = codes "would " ++ op;
}

dry_loop : Bytes → Bytes → JobResult → List FrameRef → JobResult
unfolding planned add_item
dry_loop op base jr [] = jr
dry_loop op base jr (f ∷ fs) = dry_loop op base (add_item jr true (planned op base f)) fs

module _ (escape : Bytes → Bytes) where
  quoted : Bytes → Bytes
  quoted = quoted_text escape

  pub create_job : Bytes → Bool → ℕ → Prog ℕ
  create_job type dry_run total = exec (
      concat (
        codes "INSERT INTO jobs (type, status, dry_run, total_items) VALUES ("
        ∷ quoted type
        ∷ codes ", 'running', "
        ∷ (if dry_run then codes "1" else codes "0")
        ∷ codes ", "
        ∷ decimal total
        ∷ codes ")"
        ∷ []))

  pub record_item : ℕ → ItemResult → Prog ℕ
  unfolding quoted
  record_item job_id it = exec (
      concat (
        codes
          "INSERT INTO job_items (job_id, frame_id, action, src_path, dst_path, status, detail) VALUES ("
        ∷ decimal job_id
        ∷ codes ", "
        ∷ decimal_int it.frame_id
        ∷ codes ", "
        ∷ quoted it.action
        ∷ codes ", "
        ∷ quoted it.src
        ∷ codes ", "
        ∷ quoted it.dst
        ∷ codes ", "
        ∷ quoted it.status
        ∷ codes ", "
        ∷ (if is_empty it.detail then codes "NULL" else quoted it.detail)
        ∷ codes ")"
        ∷ []))

  finish_job : ℕ → JobResult → Prog ℕ
  finish_job job_id jr = exec (
      concat (
        codes "UPDATE jobs SET status = '"
        ∷ (if jr.failed == 0 then codes "done" else codes "failed")
        ∷ codes "', done_items = "
        ∷ decimal jr.done
        ∷ codes ", failed_items = "
        ∷ decimal jr.failed
        ∷ codes ", finished_at = UTC_TIMESTAMP() WHERE id = "
        ∷ decimal job_id
        ∷ []))

  stage_one : Bytes → Bytes → ℕ → JobResult → FrameRef → Prog JobResult
  unfolding safe_name with_suffix join link_action is_ok message status_of add_item
  stage_one mode base job_id jr f =
      let dir = join base (if is_empty f.image_type then codes "unknown" else f.image_type) in
      let plain = join dir (safe_name f.filename) in
      let other = join dir (safe_name (with_suffix f.filename f.frame_id)) in
      do
        made ← ask (Call.create_directories dir)
        there ← ask (Call.exists plain)
        let dst = if there then other else plain
        ec ← link mode f.abs_path dst
        let it : ItemResult = record {
          frame_id = f.frame_id;
          action = link_action mode;
          src = f.abs_path;
          dst = dst;
          status = status_of (is_ok ec);
          detail = if is_ok ec then [] else message ec;
        }
        id ← record_item job_id it
        ret (add_item jr (is_ok ec) it)

  stage_loop : Bytes → Bytes → ℕ → JobResult → List FrameRef → Prog JobResult
  stage_loop mode base job_id jr [] = ret jr
  stage_loop mode base job_id jr (f ∷ fs) = do
    jr' ← stage_one mode base job_id jr f
    stage_loop mode base job_id jr' fs

  pub stage : ActionConfig → List FrameRef → Prog JobResult
  unfolding job_dir
  stage cfg frames = do
    job_id ← create_job (codes "stage") false (length frames)
    let base = join cfg.staging_root (job_dir job_id)
    jr ←
        stage_loop cfg.link_mode base job_id
          (record {
            job_id = job_id;
            type = codes "stage";
            dry_run = false;
            total = length frames;
            done = 0;
            failed = 0;
            skipped = 0;
            root = base;
            items = [];
          })
          frames
    id ← finish_job job_id jr
    ret jr

  reindex_under : FrameRef → Bytes → ℤ → Bytes → Prog ℕ
  unfolding quoted below_root
  reindex_under f dst id root = exec (
      concat (
        codes "UPDATE files SET root_id = "
        ∷ decimal_int id
        ∷ codes ", rel_path = "
        ∷ quoted (below_root root dst)
        ∷ codes ", rel_path_hash = UNHEX(MD5("
        ∷ quoted (below_root root dst)
        ∷ codes ")), status = 'ok', last_seen_utc = UTC_TIMESTAMP() WHERE id = "
        ∷ decimal_int f.file_id
        ∷ []))

  -- The row of a file that has moved: under the root that holds the new path, or missing.
  reindex_as : FrameRef → Bytes → ℤ × Bytes → Prog ℕ
  reindex_as f dst (pos zero, root) =
      exec (codes "UPDATE files SET status = 'missing' WHERE id = " ++ decimal_int f.file_id)
  reindex_as f dst (pos (suc n), root) = reindex_under f dst (pos (suc n)) root
  reindex_as f dst (negsuc n, root) = reindex_under f dst (negsuc n) root

  pub reindex : Bool → FrameRef → Bytes → Prog ℕ
  reindex false f dst = ret 0
  reindex true f dst = do found ← root_for dst; reindex_as f dst found

  pub fsop_one : Bytes → Bytes → ℕ → JobResult → FrameRef → Prog JobResult
  unfolding safe_name join is_destructive message status_of add_item
  fsop_one op base job_id jr f =
      let dst = join base (safe_name f.filename) in
      do
        made ← ask (Call.create_directories base)
        outcome ← perform op f.abs_path dst
        let it : ItemResult = record {
          frame_id = f.frame_id;
          action = op;
          src = f.abs_path;
          dst = dst;
          status = status_of outcome.0;
          detail = if outcome.0 then [] else message outcome.1;
        }
        id ← reindex (outcome.0 && is_destructive op) f dst
        item ← record_item job_id it
        ret (add_item jr outcome.0 it)

  pub fsop_loop : Bytes → Bytes → ℕ → JobResult → List FrameRef → Prog JobResult
  fsop_loop op base job_id jr [] = ret jr
  fsop_loop op base job_id jr (f ∷ fs) = do
    jr' ← fsop_one op base job_id jr f
    fsop_loop op base job_id jr' fs

  abbrev new_job : ActionConfig → Bytes → Bytes → Bool → ℕ → ℕ → JobResult
  new_job cfg op target_dir dry_run total job_id = record {
    job_id = job_id;
    type = op;
    dry_run = dry_run;
    total = total;
    done = 0;
    failed = 0;
    skipped = 0;
    root = dest_base cfg op target_dir job_id;
    items = [];
  }

  pub finish_if : ℕ → JobResult → Prog ℕ
  finish_if zero jr = ret 0
  finish_if (suc n) jr = finish_job (suc n) jr

  pub fsop : ActionConfig → Bytes → List FrameRef → Bytes → Bool → Prog JobResult
  fsop cfg op frames target_dir dry_run = elim (is_fsop op) [
    | false ↦ throw (runtime_error (concat (codes "unknown fsop '" ∷ op ∷ codes "'" ∷ [])))
    | true ↦ elim dry_run [
      | true ↦ ret (
          dry_loop op (dest_base cfg op target_dir 0)
            (new_job cfg op target_dir true (length frames) 0) frames)
      | false ↦ do
        job_id ← create_job (codes "fsop") false (length frames)
        jr ←
            fsop_loop op (dest_base cfg op target_dir job_id) job_id
              (new_job cfg op target_dir false (length frames) job_id) frames
        id ← finish_if job_id jr
        ret jr
    ]
  ]
