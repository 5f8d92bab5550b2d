-- ===== src/Action/Engine/Count.antt =====
-- The results that src/action/action.cpp reports of a job.
use star_base.Action.Engine.{
  ActionConfig, FrameRef, ItemResult, JobResult, add_item, is_ok, link, new_job, create_job,
  record_item, finish_job, stage_one, stage_loop, stage,
}
use star_base.Db.Database.Statements.{exec}
use star_base.Sys.Ends.{Ends, bind-Ends, weaken-Ends}
use star_base.Sys.{failed, rows, lost, done, Error, db_error, runtime_error}
use star_base.Common.{
  ℕ, suc, ◌+◌, ◌≡◌, refl, sym, ap, ◌∙◌, inl, inr, Bool, true, false, List, [], ◌∷◌, ◌++◌, map,
  append-nil, append_assoc, map-append, arith, Bool-cases, length, Bytes, codes, text_eq,
}
use star_base.Common.Int.{ℤ}

-- The error is the database's.
abbrev pub IsDb : Error → Type 0
IsDb (db_error what errno) = Unit
IsDb (runtime_error what) = ⊥

-- The frame and the file that an item speaks of.
pub named : ItemResult → ℤ × Bytes
named i = (i.frame_id, i.src)

-- One item is added, for the frame, and counted once.
Adds : JobResult → FrameRef → JobResult → Type 0
Adds jr f jr' =
    (jr'.total ≡ jr.total)
    × (jr'.done + jr'.failed ≡ suc (jr.done + jr.failed))
    × (map named jr'.items ≡ map named jr.items ++ (f.frame_id, f.abs_path) ∷ [])

exec-Ends : (sql : Bytes) → Ends (λ id. Unit {0}) IsDb (exec sql)
unfolding exec
exec-Ends sql = elim [ failed e m ↦ tt | rows rs ↦ tt | lost m ↦ tt | done i n ↦ tt ]

link-Ends : (mode src dst : Bytes) → Ends (λ ec. Unit {0}) IsDb (link mode src dst)
unfolding link
link-Ends mode src dst = elim (Bool-cases (text_eq mode (codes "hardlink"))) [
  | inl e ↦ rw (e, link) (λ r. tt)
  | inr e ↦ elim (Bool-cases (text_eq mode (codes "copy"))) [
    | inl k ↦ rw (e, k, link) (λ r. tt)
    | inr k ↦ rw (e, k, link) (λ r. tt)
  ]
]

named_as :
    (it : ItemResult) (f : FrameRef)
    → it.frame_id ≡ f.frame_id
    → it.src ≡ f.abs_path
    → named it ≡ (f.frame_id, f.abs_path)
unfolding named
named_as it f h k = ground (arith, h, k)

add_item-Adds :
    (jr : JobResult) (ok : Bool) (it : ItemResult) (f : FrameRef)
    → it.frame_id ≡ f.frame_id
    → it.src ≡ f.abs_path
    → Adds jr f (add_item jr ok it)
unfolding Adds add_item
add_item-Adds jr true it f h k = (
  refl,
  ground arith,
  map-append named jr.items (it ∷ []) ∙ ap (λ e. map named jr.items ++ e ∷ []) (named_as it f h k),
)
add_item-Adds jr false it f h k = (
  refl,
  ground arith,
  map-append named jr.items (it ∷ []) ∙ ap (λ e. map named jr.items ++ e ∷ []) (named_as it f h k),
)

-- A job about some frames, at its end.
pub Reports : JobResult → List FrameRef → JobResult → Type 0
unfolding named
Reports jr fs jr' =
    (jr'.total ≡ jr.total)
    × (jr'.done + jr'.failed ≡ jr.done + jr.failed + length fs)
    × (map named jr'.items
        ≡ map named jr.items ++ map (λ (f : FrameRef). (f.frame_id, f.abs_path)) fs)

Adds-Reports :
    (jr jr' jr'' : JobResult) (f : FrameRef) (fs : List FrameRef)
    → Adds jr f jr'
    → Reports jr' fs jr''
    → Reports jr (f ∷ fs) jr''
unfolding Adds Reports
Adds-Reports jr jr' jr'' f fs (t, c, n) (t', c', n') = (
  t' ∙ t,
  ground (arith, c, c'),
  n'
      ∙ ap (λ xs. xs ++ map (λ (f : FrameRef). (f.frame_id, f.abs_path)) fs) n
      ∙ append_assoc (map named jr.items) _ _,
)

module _ (escape : Bytes → Bytes) where
  record_item-Ends :
      (job_id : ℕ) (it : ItemResult) → Ends (λ id. Unit {0}) IsDb (record_item escape job_id it)
  unfolding record_item
  record_item-Ends job_id it = exec-Ends _

  stage_one-Ends :
      (mode base : Bytes) (job_id : ℕ) (jr : JobResult) (f : FrameRef)
      → Ends (Adds jr f) IsDb (stage_one escape mode base job_id jr f)
  unfolding stage_one
  stage_one-Ends mode base job_id jr f = λ made there.
      bind-Ends (λ ec. Unit {0}) (Adds jr f) IsDb (link mode f.abs_path _) _
        (link-Ends mode f.abs_path _)
        (λ ec u.
          bind-Ends (λ id. Unit {0}) (Adds jr f) IsDb (record_item escape job_id _) _
            (record_item-Ends job_id _) (λ id v. add_item-Adds jr (is_ok ec) _ f refl refl))

  stage_loop-Ends :
      (mode base : Bytes) (job_id : ℕ) (jr : JobResult) (fs : List FrameRef)
      → Ends (Reports jr fs) IsDb (stage_loop escape mode base job_id jr fs)
  unfolding stage_loop Reports
  stage_loop-Ends mode base job_id jr [] =
      (refl, ground arith, sym (append-nil (map named jr.items)))
  stage_loop-Ends mode base job_id jr (f ∷ fs) =
      bind-Ends (Adds jr f) (Reports jr (f ∷ fs)) IsDb (stage_one escape mode base job_id jr f) _
        (stage_one-Ends mode base job_id jr f)
        (λ jr' a.
          weaken-Ends (Reports jr' fs) (Reports jr (f ∷ fs)) IsDb
            (stage_loop escape mode base job_id jr' fs)
            (λ jr'' b. Adds-Reports jr jr' jr'' f fs a b) (stage_loop-Ends mode base job_id jr' fs))

  -- Staging reports on every frame, in order and once each, as done or as failed, whatever the file
  -- system answers to any call. It throws only what the database throws.
  pub stage-Ends :
      (cfg : ActionConfig) (frames : List FrameRef)
      → Ends
          (λ jr.
            (jr.total ≡ length frames)
            × (jr.done + jr.failed ≡ length frames)
            × (map named jr.items ≡ map (λ (f : FrameRef). (f.frame_id, f.abs_path)) frames))
          IsDb
          (stage escape cfg frames)
  unfolding stage create_job finish_job Reports
  stage-Ends cfg frames =
      bind-Ends (λ id. Unit {0}) _ IsDb (exec _) _ (exec-Ends _)
        (λ job_id u.
          bind-Ends
            (Reports (new_job escape cfg (codes "stage") [] false (length frames) job_id) frames) _
            IsDb (stage_loop escape cfg.link_mode _ job_id _ frames) _
            (stage_loop-Ends cfg.link_mode _ job_id _ frames)
            (λ jr r.
              bind-Ends (λ id. Unit {0}) _ IsDb (exec _) _ (exec-Ends _)
                (λ id v. let (t, c, n) = r in (t, ground (arith, c), n))))
