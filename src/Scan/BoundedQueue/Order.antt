-- ===== src/Scan/BoundedQueue/Order.antt =====
-- The bounded queue hands over every accepted item once, in order, and never deadlocks.
use star_base.Scan.BoundedQueue.{
  BoundedQueue, blocked, returned, create, push, pop, close, Event, pushed, popped, closes, Step,
  push_step, pop_step, close_step, Run, start, then_step,
}
use star_base.Common.{
  ℕ, ◌≤◌, ◌<◌, ◌≡◌, refl, sym, subst, ◌≢◌, true, false, none, some, List, [], ◌∷◌, ◌++◌, map,
  append-nil, append_assoc, arith, length, length-append,
}

module _ {ℓ} {A : Type ℓ} where
  -- The item that a call put in, if it was accepted, and the one that it took out.
  abbrev pub put_by : Event A → List A
  put_by (pushed x true) = x ∷ []
  put_by (pushed x false) = []
  put_by (popped o) = []
  put_by closes = []

  abbrev pub got_by : Event A → List A
  got_by (popped (some x)) = x ∷ []
  got_by (popped none) = []
  got_by (pushed x b) = []
  got_by closes = []

  abbrev pub accepted : List (Event A) → List A
  accepted [] = []
  accepted (e ∷ es) = put_by e ++ accepted es

  abbrev pub delivered : List (Event A) → List A
  delivered [] = []
  delivered (e ∷ es) = got_by e ++ delivered es

  accepted-append : (es fs : List (Event A)) → accepted (es ++ fs) ≡ accepted es ++ accepted fs
  accepted-append [] fs = refl
  accepted-append (e ∷ es) fs =
      rw (accepted-append es fs) (sym (append_assoc (put_by e) (accepted es) (accepted fs)))

  delivered-append : (es fs : List (Event A)) → delivered (es ++ fs) ≡ delivered es ++ delivered fs
  delivered-append [] fs = refl
  delivered-append (e ∷ es) fs =
      rw (delivered-append es fs) (sym (append_assoc (got_by e) (delivered es) (delivered fs)))

  -- One call moves its item between the queue and the history.
  Step-queue :
      {q r : BoundedQueue A} {e : Event A} → Step q e r → q.queue ++ put_by e ≡ got_by e ++ r.queue
  unfolding push pop close
  Step-queue (push_step {x = x} {b = true} h) = ground arith
  Step-queue {q} (push_step {x = x} {b = false} h) = ground (arith, append-nil q.queue)
  Step-queue {q} (pop_step {o = none} h) = ground (arith, append-nil q.queue)
  Step-queue {q} (pop_step {o = some x} h) = ground (arith, append-nil q.queue)
  Step-queue {q} (close_step h) = ground (arith, append-nil q.queue)

  Run-queue :
      {q r : BoundedQueue A} {es : List (Event A)}
      → Run q es r
      → q.queue ++ accepted es ≡ delivered es ++ r.queue
  Run-queue {q} start = append-nil q.queue
  Run-queue {q} {r = t} (then_step {es = es} {r = r} {e = e} run step) = ground (
    arith,
    accepted-append es (e ∷ []),
    delivered-append es (e ∷ []),
    append-nil (put_by e),
    append-nil (got_by e),
    append_assoc q.queue (accepted es) (put_by e),
    append_assoc (delivered es) r.queue (put_by e),
    append_assoc (delivered es) (got_by e) t.queue,
    Run-queue run,
    Step-queue step,
  )

  -- In any interleaving of the threads on a new queue, the items that `push` accepted are those that
  -- `pop` has handed over and those still queued, in the same order and each as often.
  pub Run-fifo :
      (capacity : ℕ) {r : BoundedQueue A} {es : List (Event A)}
      → Run (create capacity) es r
      → accepted es ≡ delivered es ++ r.queue
  unfolding create
  Run-fifo capacity run = Run-queue run

  -- Room for one item at least, and never more items than there is room for.
  pub record IsBounded (q : BoundedQueue A) : Type 0 where
    pub room : 0 < q.capacity
    pub fits : length q.queue ≤ q.capacity

  create-IsBounded : (capacity : ℕ) → IsBounded (create capacity)
  unfolding create
  create-IsBounded capacity = ground arith

  Step-IsBounded : {q r : BoundedQueue A} {e : Event A} → Step q e r → IsBounded q → IsBounded r
  unfolding push pop close
  Step-IsBounded {q} (push_step {x = x} h) v = ground (arith, length-append q.queue (x ∷ []))
  Step-IsBounded (pop_step {o = none} h) v = ground arith
  Step-IsBounded (pop_step {o = some x} h) v = grind arith
  Step-IsBounded (close_step h) v = ground arith

  Run-IsBounded_from :
      {q r : BoundedQueue A} {es : List (Event A)} → Run q es r → IsBounded q → IsBounded r
  Run-IsBounded_from start v = v
  Run-IsBounded_from (then_step run step) v = Step-IsBounded step (Run-IsBounded_from run v)

  -- The queue never holds more items than its capacity, whatever the threads do, and the capacity is
  -- at least one, also where the constructor was given zero.
  pub Run-IsBounded :
      (capacity : ℕ) {r : BoundedQueue A} {es : List (Event A)}
      → Run (create capacity) es r
      → IsBounded r
  Run-IsBounded capacity run = Run-IsBounded_from run (create-IsBounded capacity)

  -- Closing is final: no call opens the queue again.
  Step-closed :
      {q r : BoundedQueue A} {e : Event A} → Step q e r → q.closed ≡ true → r.closed ≡ true
  unfolding push pop close
  Step-closed (push_step h) c = ground arith
  Step-closed (pop_step {o = none} h) c = ground arith
  Step-closed (pop_step {o = some x} h) c = grind arith
  Step-closed (close_step h) c = ground arith

  Run-closed :
      {q r : BoundedQueue A} {es : List (Event A)} → Run q es r → q.closed ≡ true → r.closed ≡ true
  Run-closed start c = c
  Run-closed (then_step run step) c = Step-closed step (Run-closed run c)

  Step-refuses : {q r : BoundedQueue A} {e : Event A} → Step q e r → q.closed ≡ true → put_by e ≡ []
  unfolding push
  Step-refuses (push_step {b = true} h) c = ground arith
  Step-refuses (push_step {b = false} h) c = refl
  Step-refuses (pop_step h) c = refl
  Step-refuses (close_step h) c = refl

  accepted_after_close :
      {q r : BoundedQueue A} {es : List (Event A)} → Run q es r → q.closed ≡ true → accepted es ≡ []
  accepted_after_close start c = refl
  accepted_after_close (then_step {es = es} {e = e} run step) c = cc (
    accepted-append es (e ∷ []),
    append-nil (put_by e),
    accepted_after_close run c,
    Step-refuses step (Run-closed run c),
  )

  -- Once the queue is closed, no push is accepted any more, and neither call ever waits.
  pub Run-refuses :
      {q r : BoundedQueue A} {es : List (Event A)}
      → Run q es r
      → q.closed ≡ true
      → (accepted es ≡ []) × ((x : A) → push r x ≡ returned (r, false)) × (pop r ≢ blocked)
  unfolding push pop
  Run-refuses run c =
      let k = Run-closed run c in (accepted_after_close run c, (λ x. ground arith), ground arith)

  -- The rest of a closed queue, popped item by item, and then the end.
  abbrev pub drained : BoundedQueue A → BoundedQueue A
  drained q = record q { queue = [] }

  abbrev pub takes : List A → List (Event A)
  takes = map (λ x. popped (some x))

  run_on :
      {q r t : BoundedQueue A} {es fs : List (Event A)}
      → Run q es r
      → Run r fs t
      → Run q (es ++ fs) t
  run_on {es = es} w start = rw (append-nil es) w
  run_on {es = es} w (then_step {es = fs} {e = e} run step) =
      rw (← append_assoc es fs (e ∷ [])) (then_step (run_on w run) step)

  drain_items : (xs : List A) (q : BoundedQueue A) → q.queue ≡ xs → Run q (takes xs) (drained q)
  unfolding pop
  drain_items [] q e = let same : q ≡ drained q = ground arith in subst (λ r. Run q [] r) same start
  drain_items (x ∷ xs) q e =
      run_on (then_step start (pop_step {r = record q { queue = xs }} (ground arith)))
        (drain_items xs (record q { queue = xs }) refl)

  -- A closed queue is drained: the pops hand over every item that is left, in order, and the next
  -- one reports the end, so a worker's loop ends after the last item.
  pub Run-drains :
      (q : BoundedQueue A) → q.closed ≡ true → Run q (takes q.queue ++ popped none ∷ []) (drained q)
  unfolding pop
  Run-drains q c = then_step (drain_items q.queue q refl) (pop_step (ground arith))
