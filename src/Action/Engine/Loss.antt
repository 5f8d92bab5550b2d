-- ===== src/Action/Engine/Loss.antt =====
-- What src/action/action.cpp may take away.
use star_base.Action.Engine.{
  ActionConfig, FrameRef, JobResult, is_ok, perform, move_file, after_rename, after_copy, is_fsop,
  dest_base, new_job, create_job, record_item, finish_job, fsop_one, fsop_loop, fsop, finish_if,
  reindex, reindex_as, reindex_under, root_for, first_holding, holds,
}
use star_base.Db.Database.{cell}
use star_base.Db.Database.Statements.{query, exec}
use star_base.Common.Stoi.{stoi}
use star_base.Sys.{
  Row, Reply, failed, rows, lost, done, Call, Prog, ret, throw, call, ◌>>=◌, or_throw,
}
use star_base.Common.{
  ℕ, zero, suc, ◌≡◌, refl, inl, inr, Bool, true, false, Option, none, some, List, [], ◌∷◌,
  if◌then◌else◌, Bool-cases, value_or, length, Bytes, codes, text_eq,
}
use star_base.Common.Int.{ℤ, pos, negsuc}

-- A file is removed only by the call right behind a copy of it that went well; `last` is the source of
-- that copy.
abbrev pub Keeps : {A : Type 0} → Option Bytes → Prog A → Type 0
Keeps last (ret a) = Unit
Keeps last (throw e) = Unit
Keeps last (call (Call.remove path) k) =
    (last ≡ some path) × ((r : Option Bytes) → Keeps none (k r))
Keeps last (call (Call.copy_file src dst) k) =
    (r : Option Bytes) → Keeps (if is_ok r then some src else none) (k r)
Keeps last (call (Call.mysql sql) k) = (r : Reply) → Keeps none (k r)
Keeps last (call (Call.exists path) k) = (r : Bool) → Keeps none (k r)
Keeps last (call (Call.create_directories path) k) = (r : Option Bytes) → Keeps none (k r)
Keeps last (call (Call.create_hard_link src dst) k) = (r : Option Bytes) → Keeps none (k r)
Keeps last (call (Call.create_symlink src dst) k) = (r : Option Bytes) → Keeps none (k r)
Keeps last (call (Call.rename src dst) k) = (r : Option Bytes) → Keeps none (k r)

weaken-Keeps : {A : Type 0} (last : Option Bytes) (m : Prog A) → Keeps none m → Keeps last m
weaken-Keeps last (ret a) h = tt
weaken-Keeps last (throw e) h = tt
weaken-Keeps last (call (Call.remove path) k) (h, rest) = absurd (cc (h))
weaken-Keeps last (call (Call.copy_file src dst) k) h = h
weaken-Keeps last (call (Call.mysql sql) k) h = h
weaken-Keeps last (call (Call.exists path) k) h = h
weaken-Keeps last (call (Call.create_directories path) k) h = h
weaken-Keeps last (call (Call.create_hard_link src dst) k) h = h
weaken-Keeps last (call (Call.create_symlink src dst) k) h = h
weaken-Keeps last (call (Call.rename src dst) k) h = h

pub bind-Keeps :
    {A B : Type 0} (last : Option Bytes) (m : Prog A) (f : A → Prog B)
    → Keeps last m
    → ((a : A) → Keeps none (f a))
    → Keeps last (m >>= f)
bind-Keeps last (ret a) f h k = weaken-Keeps last (f a) (k a)
bind-Keeps last (throw e) f h k = tt
bind-Keeps last (call (Call.remove path) g) f (h, rest) k =
    (h, λ r. bind-Keeps none (g r) f (rest r) k)
bind-Keeps last (call (Call.copy_file src dst) g) f h k =
    λ r. bind-Keeps (if is_ok r then some src else none) (g r) f (h r) k
bind-Keeps last (call (Call.mysql sql) g) f h k = λ r. bind-Keeps none (g r) f (h r) k
bind-Keeps last (call (Call.exists path) g) f h k = λ r. bind-Keeps none (g r) f (h r) k
bind-Keeps last (call (Call.create_directories path) g) f h k = λ r. bind-Keeps none (g r) f (h r) k
bind-Keeps last (call (Call.create_hard_link src dst) g) f h k =
    λ r. bind-Keeps none (g r) f (h r) k
bind-Keeps last (call (Call.create_symlink src dst) g) f h k = λ r. bind-Keeps none (g r) f (h r) k
bind-Keeps last (call (Call.rename src dst) g) f h k = λ r. bind-Keeps none (g r) f (h r) k

exec-Keeps : (sql : Bytes) → Keeps none (exec sql)
unfolding exec
exec-Keeps sql = elim [ failed e m ↦ tt | rows rs ↦ tt | lost m ↦ tt | done i n ↦ tt ]

query-Keeps : (sql : Bytes) → Keeps none (query sql)
unfolding query
query-Keeps sql = elim [ failed e m ↦ tt | rows rs ↦ tt | lost m ↦ tt | done i n ↦ tt ]

after_copy-Keeps :
    (src : Bytes) (ec : Option Bytes)
    → Keeps (if is_ok ec then some src else none) (after_copy src ec)
unfolding after_copy is_ok
after_copy-Keeps src none = (refl, λ r. tt)
after_copy-Keeps src (some m) = tt

after_rename-Keeps : (src dst : Bytes) (ec : Option Bytes) → Keeps none (after_rename src dst ec)
unfolding after_rename
after_rename-Keeps src dst none = tt
after_rename-Keeps src dst (some m) = after_copy-Keeps src

move_file-Keeps : (src dst : Bytes) → Keeps none (move_file src dst)
unfolding move_file
move_file-Keeps src dst = after_rename-Keeps src dst

perform-Keeps : (op src dst : Bytes) → Keeps none (perform op src dst)
unfolding perform is_ok
perform-Keeps op src dst = elim (Bool-cases (text_eq op (codes "copy"))) [
  | inl e ↦ rw (e, perform) (λ r. tt)
  | inr e ↦ elim (Bool-cases (text_eq op (codes "symlink"))) [
    | inl k ↦ rw (e, k, perform) (λ r. tt)
    | inr k ↦ rw (e, k, perform) (move_file-Keeps src dst)
  ]
]

or_throw-Keeps : {A : Type 0} (o : Option A) (what : Bytes) → Keeps none (or_throw o what)
or_throw-Keeps none what = tt
or_throw-Keeps (some a) what = tt

first_holding-Keeps : (path : Bytes) (rs : List Row) → Keeps none (first_holding path rs)
unfolding first_holding
first_holding-Keeps path [] = tt
first_holding-Keeps path (r ∷ rs) = elim (Bool-cases (holds path (value_or (cell r 1) []))) [
  | inl e ↦
      rw (e, first_holding)
        (bind-Keeps none (or_throw (stoi (value_or (cell r 0) [])) (codes "stoi")) _
          (or_throw-Keeps _ _) (λ id. tt))
  | inr e ↦ rw (e, first_holding) (first_holding-Keeps path rs)
]

module _ (escape : Bytes → Bytes) where
  reindex_as-Keeps :
      (f : FrameRef) (dst : Bytes) (found : ℤ × Bytes) → Keeps none (reindex_as escape f dst found)
  unfolding reindex_as reindex_under
  reindex_as-Keeps f dst (pos zero, root) = exec-Keeps _
  reindex_as-Keeps f dst (pos (suc n), root) = exec-Keeps _
  reindex_as-Keeps f dst (negsuc n, root) = exec-Keeps _

  reindex-Keeps :
      (moved : Bool) (f : FrameRef) (dst : Bytes) → Keeps none (reindex escape moved f dst)
  unfolding reindex root_for
  reindex-Keeps false f dst = tt
  reindex-Keeps true f dst =
      bind-Keeps none (root_for dst) _
        (bind-Keeps none (query _) _ (query-Keeps _) (first_holding-Keeps dst))
        (reindex_as-Keeps f dst)

  fsop_one-Keeps :
      (op base : Bytes) (job_id : ℕ) (jr : JobResult) (f : FrameRef)
      → Keeps none (fsop_one escape op base job_id jr f)
  unfolding fsop_one record_item
  fsop_one-Keeps op base job_id jr f = λ made.
      bind-Keeps none (perform op f.abs_path _) _ (perform-Keeps op f.abs_path _) (λ outcome.
        bind-Keeps none (reindex escape _ f _) _ (reindex-Keeps _ f _)
          (λ id. bind-Keeps none (exec _) _ (exec-Keeps _) (λ item. tt)))

  fsop_loop-Keeps :
      (op base : Bytes) (job_id : ℕ) (jr : JobResult) (fs : List FrameRef)
      → Keeps none (fsop_loop escape op base job_id jr fs)
  unfolding fsop_loop
  fsop_loop-Keeps op base job_id jr [] = tt
  fsop_loop-Keeps op base job_id jr (f ∷ fs) =
      bind-Keeps none (fsop_one escape op base job_id jr f) _ (fsop_one-Keeps op base job_id jr f)
        (λ jr'. fsop_loop-Keeps op base job_id jr' fs)

  finish_if-Keeps : (job_id : ℕ) (jr : JobResult) → Keeps none (finish_if escape job_id jr)
  unfolding finish_if finish_job
  finish_if-Keeps zero jr = tt
  finish_if-Keeps (suc n) jr = exec-Keeps _

  -- No run of a file operation removes a file but one that the call just before has copied without an
  -- error, whatever the operation, the frames and the answers of the system are.
  pub fsop-Keeps :
      (cfg : ActionConfig) (op : Bytes) (frames : List FrameRef) (dir : Bytes) (dry_run : Bool)
      → Keeps none (fsop escape cfg op frames dir dry_run)
  unfolding fsop create_job
  fsop-Keeps cfg op frames dir dry_run = elim (Bool-cases (is_fsop op)) [
    | inr e ↦ rw (e, fsop) tt
    | inl e ↦ elim (Bool-cases dry_run) [
      | inl k ↦ rw (e, k, fsop) tt
      | inr k ↦
          rw (e, k, fsop)
            (bind-Keeps none (create_job escape (codes "fsop") false (length frames)) _
              (exec-Keeps _)
              (λ job_id.
                bind-Keeps none
                  (fsop_loop escape op (dest_base cfg op dir job_id) job_id
                    (new_job escape cfg op dir false (length frames) job_id) frames)
                  _ (fsop_loop-Keeps op _ job_id _ frames)
                  (λ jr.
                    bind-Keeps none (finish_if escape job_id jr) _ (finish_if-Keeps job_id jr)
                      (λ id. tt))))
    ]
  ]
