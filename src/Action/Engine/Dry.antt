-- ===== src/Action/Engine/Dry.antt =====
-- Dry runs of src/action/action.cpp.
use star_base.Action.Engine.{
  ActionConfig, FrameRef, ItemResult, JobResult, add_item, is_fsop, planned, dry_loop, dest_base,
  join, safe_name, new_job, fsop, fsop_one, fsop_loop, perform, reindex, record_item, create_job,
  finish_if,
}
use star_base.Sys.Ends.{Ends, bind-Ends, weaken-Ends}
use star_base.Sys.{Error, Prog, runtime_error, ret, throw, call, ◌>>=◌}
use star_base.Common.{
  ℕ, ◌+◌, ◌≡◌, refl, sym, ap, ◌∙◌, Bool, true, false, List, [], ◌∷◌, ◌++◌, map, append-nil,
  append_assoc, map-append, arith, length, Bytes, codes, concat,
}
use star_base.Common.Int.{ℤ}

dry_loop-planned :
    (op base : Bytes) (jr : JobResult) (fs : List FrameRef)
    → dry_loop op base jr fs
      ≡ record jr { done = jr.done + length fs; items = jr.items ++ map (planned op base) fs }
unfolding dry_loop add_item
dry_loop-planned op base jr [] = rw (append-nil jr.items) (ground arith)
dry_loop-planned op base jr (f ∷ fs) =
    dry_loop-planned op base (add_item jr true (planned op base f)) fs
    ∙ rw (append_assoc jr.items (planned op base f ∷ []) (map (planned op base) fs)) (ground arith)

-- Any error.
abbrev pub IsAny : Error → Type 0
IsAny e = Unit {0}

IsAny-Ends : {A : Type 0} (m : Prog A) → Ends (λ a. Unit {0}) IsAny m
IsAny-Ends (ret a) = tt
IsAny-Ends (throw e) = tt
IsAny-Ends (call c k) = λ r. IsAny-Ends (k r)

-- Behind a part of a program whose outcome does not matter.
after-IsAny :
    {A B : Type 0} (R : B → Type 0) (m : Prog A) (f : A → Prog B)
    → ((a : A) → Ends R IsAny (f a))
    → Ends R IsAny (m >>= f)
after-IsAny R m f h = bind-Ends (λ a. Unit {0}) R IsAny m f (IsAny-Ends m) (λ a _. h a)

-- The item of a run that goes well, in the words of a dry run.
abbrev pub would : Bytes → Bytes → FrameRef → ItemResult
would op base f = record {
  frame_id = f.frame_id;
  action = op;
  src = f.abs_path;
  dst = join base (safe_name f.filename);
  status = codes "ok";
  detail = codes "would " ++ op;
}

-- The frame, the operation, the file and the new path that an item speaks of.
abbrev pub aim : ItemResult → ℤ × Bytes × Bytes × Bytes
aim i = (i.frame_id, i.action, i.src, i.dst)

-- What they are for an operation on a frame.
abbrev pub aim_of : Bytes → Bytes → FrameRef → ℤ × Bytes × Bytes × Bytes
aim_of op base f = (f.frame_id, op, f.abs_path, join base (safe_name f.filename))

-- One item about the frame is added.
abbrev Aims : Bytes → Bytes → JobResult → List FrameRef → JobResult → Type 0
Aims op base jr fs jr' =
    (jr'.job_id ≡ jr.job_id) × (map aim jr'.items ≡ map aim jr.items ++ map (aim_of op base) fs)

Aims-added :
    (op base : Bytes) (jr : JobResult) (ok : Bool) (it : ItemResult) (f : FrameRef)
    → aim it ≡ aim_of op base f
    → Aims op base jr (f ∷ []) (add_item jr ok it)
unfolding add_item
Aims-added op base jr true it f h =
    (refl, map-append aim jr.items (it ∷ []) ∙ ap (λ e. map aim jr.items ++ e ∷ []) h)
Aims-added op base jr false it f h =
    (refl, map-append aim jr.items (it ∷ []) ∙ ap (λ e. map aim jr.items ++ e ∷ []) h)

module _ (escape : Bytes → Bytes) where
  fsop_one-Ends :
      (op base : Bytes) (job_id : ℕ) (jr : JobResult) (f : FrameRef)
      → Ends (Aims op base jr (f ∷ [])) IsAny (fsop_one escape op base job_id jr f)
  unfolding fsop_one
  fsop_one-Ends op base job_id jr f = λ made. after-IsAny _ (perform op f.abs_path _) _ (λ outcome.
      after-IsAny _ (reindex escape _ f _) _ (λ id.
        after-IsAny _ (record_item escape job_id _) _
          (λ item. Aims-added op base jr outcome.0 _ f refl)))

  fsop_loop-Ends :
      (op base : Bytes) (job_id : ℕ) (jr : JobResult) (fs : List FrameRef)
      → Ends (Aims op base jr fs) IsAny (fsop_loop escape op base job_id jr fs)
  unfolding fsop_loop
  fsop_loop-Ends op base job_id jr [] = (refl, sym (append-nil (map aim jr.items)))
  fsop_loop-Ends op base job_id jr (f ∷ fs) =
      bind-Ends (Aims op base jr (f ∷ [])) (Aims op base jr (f ∷ fs)) IsAny
        (fsop_one escape op base job_id jr f) _ (fsop_one-Ends op base job_id jr f)
        (λ jr' (i, e).
          weaken-Ends (Aims op base jr' fs) (Aims op base jr (f ∷ fs)) IsAny
            (fsop_loop escape op base job_id jr' fs)
            (λ jr'' (j, g). (
              j ∙ i,
              g ∙ ap (λ xs. xs ++ map (aim_of op base) fs) e ∙ append_assoc (map aim jr.items) _ _,
            ))
            (fsop_loop-Ends op base job_id jr' fs))

  real-Ends :
      (cfg : ActionConfig) (op : Bytes) (frames : List FrameRef) (dir : Bytes)
      → is_fsop op ≡ true
      → Ends
          (λ jr. map aim jr.items ≡ map (aim_of op (dest_base cfg op dir jr.job_id)) frames)
          IsAny
          (fsop escape cfg op frames dir false)
  unfolding fsop
  real-Ends cfg op frames dir h =
      rw (h, fsop)
        (after-IsAny _ (create_job escape (codes "fsop") false (length frames)) _ (λ job_id.
          bind-Ends
            (Aims op (dest_base cfg op dir job_id)
              (new_job escape cfg op dir false (length frames) job_id) frames)
            _ IsAny (fsop_loop escape op _ job_id _ frames) _
            (fsop_loop-Ends op (dest_base cfg op dir job_id) job_id _ frames)
            (λ jr (i, e). after-IsAny _ (finish_if escape job_id jr) _ (λ id. rw i e))))

  dry_run :
      (cfg : ActionConfig) (op : Bytes) (frames : List FrameRef) (dir : Bytes)
      → is_fsop op ≡ true
      → fsop escape cfg op frames dir true
        ≡ ret (record {
          job_id = 0;
          type = op;
          dry_run = true;
          total = length frames;
          done = length frames;
          failed = 0;
          skipped = 0;
          root = dest_base cfg op dir 0;
          items = map (would op (dest_base cfg op dir 0)) frames;
        })
  unfolding fsop planned
  dry_run cfg op frames dir h =
      rw (h, fsop)
        (ground (
          arith,
          dry_loop-planned op (dest_base cfg op dir 0)
              (new_job escape cfg op dir true (length frames) 0) frames,
        ))

  -- A dry run of one of the four operations makes no call, be it of the database or of the file system. It
  -- counts every frame as done and lists for each, in order, the item of a run that goes well, with the
  -- words "would" and the operation as its detail. A real run that returns, whatever it is answered, lists
  -- the same frames in the same order with the same operation and source, and with the same file name below
  -- its own base: the target directory, or for a trash the directory of its own job, where the dry run has
  -- that of job 0.
  pub fsop-dry :
      (cfg : ActionConfig) (op : Bytes) (frames : List FrameRef) (dir : Bytes)
      → is_fsop op ≡ true
      → (fsop escape cfg op frames dir true
          ≡ ret (record {
            job_id = 0;
            type = op;
            dry_run = true;
            total = length frames;
            done = length frames;
            failed = 0;
            skipped = 0;
            root = dest_base cfg op dir 0;
            items = map (would op (dest_base cfg op dir 0)) frames;
          }))
        × Ends
            (λ jr. map aim jr.items ≡ map (aim_of op (dest_base cfg op dir jr.job_id)) frames)
            IsAny
            (fsop escape cfg op frames dir false)
  fsop-dry cfg op frames dir h = (dry_run cfg op frames dir h, real-Ends cfg op frames dir h)

-- An operation that is not one of the four is refused before anything is asked, dry run or not.
pub fsop-refused :
    (escape : Bytes → Bytes) (cfg : ActionConfig) (op : Bytes) (frames : List FrameRef)
    (dir : Bytes) (dry_run : Bool)
    → is_fsop op ≡ false
    → fsop escape cfg op frames dir dry_run
      ≡ throw (runtime_error (concat (codes "unknown fsop '" ∷ op ∷ codes "'" ∷ [])))
unfolding fsop
fsop-refused escape cfg op frames dir dry_run h = rw (h, fsop) refl
