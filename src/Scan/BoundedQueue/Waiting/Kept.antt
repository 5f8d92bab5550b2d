-- ===== src/Scan/BoundedQueue/Waiting/Kept.antt =====
-- What the calls of src/scan/bounded_queue.hpp keep of the sleepers and the wake-ups.
use star_base.Scan.BoundedQueue.{BoundedQueue, blocked, returned, push, pop, close}
use star_base.Scan.BoundedQueue.Waiting.{WaitState, push_call, pop_call, close_call}
use star_base.Scan.BoundedQueue.Waiting.Covered.{
  Covered, fewer-Covered, sleep-Covered, owe-Covered, owe_all-Covered,
}
use star_base.Common.{
  ℕ, suc, ◌-◌, ◌<◌, ◌≡◌, refl, ap, ◌⊎◌, inl, inr, true, false, none, some, List, [], ◌∷◌, ◌++◌,
  arith, ltb, ltb→lt, length, length-append, Bool-cases,
}

module _ {ℓ} {A : Type ℓ} where
  pub length-zero : (l : List A) → length l ≡ 0 → l ≡ []
  length-zero [] e = refl
  length-zero (x ∷ l) e = absurd (omega arith)

  unfoldable pub room : BoundedQueue A → ℕ
  room q = q.capacity - length q.queue

  pub record Inv (s : WaitState A) : Type 0 where
    pub capacity_positive : 0 < s.shared.capacity
    pub producers_covered : Covered s.producers s.shared.closed (room s.shared)
    pub consumers_covered : Covered s.consumers s.shared.closed (length s.shared.queue)

  pub push_blocked :
      (q : BoundedQueue A) (x : A) → q.closed ≡ false → room q ≡ 0 → push q x ≡ blocked
  unfolding push room
  push_blocked q x c r = ground (arith, c, r)

  push_taken :
      (q : BoundedQueue A) (x : A)
      → q.closed ≡ false
      → 0 < room q
      → push q x ≡ returned (record q { queue = q.queue ++ x ∷ [] }, true)
  unfolding push room
  push_taken q x c r = ground (arith, c, r)

  push_refused : (q : BoundedQueue A) (x : A) → q.closed ≡ true → push q x ≡ returned (q, false)
  unfolding push
  push_refused q x c = ground (arith, c)

  -- A push, from where its thread has the mutex.
  pub push-Inv :
      (s : WaitState A) (x : A)
      → 0 < s.shared.capacity
      → (s.shared.closed ≡ false
          → 0 < room s.shared
          → Covered s.producers s.shared.closed (room s.shared - 1))
      → (s.shared.closed ≡ true → Covered s.producers s.shared.closed (room s.shared))
      → Covered s.consumers s.shared.closed (length s.shared.queue)
      → Inv (push_call s x)
  unfolding push_call room
  push-Inv s x p taken refused h = elim (Bool-cases s.shared.closed) [
    | inl c ↦
        rw (push_refused s.shared x c, push_call)
          (record { capacity_positive = p; producers_covered = refused c; consumers_covered = h })
    | inr c ↦ elim (Bool-cases (ltb 0 (room s.shared))) [
      | inl r ↦
          rw (push_taken s.shared x c (ltb→lt 0 (room s.shared) r), push_call)
            (record {
              capacity_positive = p;
              producers_covered =
                  fewer-Covered s.producers s.shared.closed _ (room s.shared - 1)
                    (omega (arith, length-append s.shared.queue (x ∷ [])))
                    (taken c (ltb→lt 0 (room s.shared) r));
              consumers_covered =
                  owe-Covered s.consumers s.shared.closed _ (length s.shared.queue)
                    (omega (arith, length-append s.shared.queue (x ∷ []))) h;
            })
      | inr r ↦
          let e : room s.shared ≡ 0 = ground (arith, r) in
          rw (push_blocked s.shared x c e, push_call)
            (record {
              capacity_positive = p;
              producers_covered = sleep-Covered s.producers s.shared.closed (room s.shared) c e;
              consumers_covered = h;
            })
    ]
  ]

  front_of : (l : List A) → (l ≡ []) ⊎ ((x : A) × (xs : List A) × (l ≡ x ∷ xs))
  front_of [] = inl refl
  front_of (x ∷ xs) = inr (x, xs, refl)

  pop_front :
      (q : BoundedQueue A) (x : A) (xs : List A)
      → q.queue ≡ x ∷ xs
      → pop q ≡ returned (record q { queue = xs }, some x)
  unfolding pop
  pop_front q x xs e = rw e refl

  pub pop_blocked : (q : BoundedQueue A) → q.closed ≡ false → q.queue ≡ [] → pop q ≡ blocked
  unfolding pop
  pop_blocked q c e = rw (c, e) refl

  pop_ended : (q : BoundedQueue A) → q.closed ≡ true → q.queue ≡ [] → pop q ≡ returned (q, none)
  unfolding pop
  pop_ended q c e = rw (c, e) refl

  -- A pop, from where its thread has the mutex.
  pub pop-Inv :
      (s : WaitState A)
      → 0 < s.shared.capacity
      → Covered s.producers s.shared.closed (room s.shared)
      → ((n : ℕ) → length s.shared.queue ≡ suc n → Covered s.consumers s.shared.closed n)
      → (s.shared.closed ≡ true → Covered s.consumers s.shared.closed (length s.shared.queue))
      → Inv (pop_call s)
  unfolding pop_call room
  pop-Inv s p h taken ended = elim (front_of s.shared.queue) [
    | inr (x, xs, e) ↦
        let k : length s.shared.queue ≡ suc (length xs) = ap length e in
        rw (pop_front s.shared x xs e, pop_call)
          (record {
            capacity_positive = p;
            producers_covered =
                owe-Covered s.producers s.shared.closed _ (room s.shared) (omega arith) h;
            consumers_covered = taken (length xs) k;
          })
    | inl e ↦ elim (Bool-cases s.shared.closed) [
      | inl c ↦
          rw (pop_ended s.shared c e, pop_call)
            (record { capacity_positive = p; producers_covered = h; consumers_covered = ended c })
      | inr c ↦
          rw (pop_blocked s.shared c e, pop_call)
            (record {
              capacity_positive = p;
              producers_covered = h;
              consumers_covered =
                  sleep-Covered s.consumers s.shared.closed (length s.shared.queue) c (ap length e);
            })
    ]
  ]

  pub close-Inv : (s : WaitState A) → 0 < s.shared.capacity → Inv (close_call s)
  unfolding close_call close
  close-Inv s p = record {
    capacity_positive = p;
    producers_covered = owe_all-Covered s.producers true _;
    consumers_covered = owe_all-Covered s.consumers true _;
  }
