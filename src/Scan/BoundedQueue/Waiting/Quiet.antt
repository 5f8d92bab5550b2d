-- ===== src/Scan/BoundedQueue/Waiting/Quiet.antt =====
-- No wake-up of src/scan/bounded_queue.hpp is lost.
use star_base.Scan.BoundedQueue.{blocked, create, push, pop}
use star_base.Scan.BoundedQueue.Waiting.{
  WaitState, initial, WaitStep, fresh_push, fresh_pop, closing, woken_push, woken_pop,
  producer_notified, consumer_notified, producers_notified, consumers_notified, producer_stirs,
  consumer_stirs, WaitReach, begin, next,
}
use star_base.Scan.BoundedQueue.Waiting.Covered.{
  Covered, fewer-Covered, used-Covered, closed-Covered, wake-Covered, notify_one-Covered,
  notify_all-Covered, quiet-Covered,
}
use star_base.Common.{ℕ, ◌≡◌, ◌⊎◌, inl, inr, arith, length}
use star_base.Scan.BoundedQueue.Waiting.Kept.{
  Inv, length-zero, room, push_blocked, push-Inv, pop_blocked, pop-Inv, close-Inv,
}

module _ {ℓ} {A : Type ℓ} where
  Step-Inv : {s t : WaitState A} → WaitStep s t → Inv s → Inv t
  Step-Inv {s} (fresh_push x) v =
      push-Inv s x v.capacity_positive
        (λ c r.
          fewer-Covered s.producers s.shared.closed _ (room s.shared) (omega arith)
            v.producers_covered)
        (λ c. v.producers_covered) v.consumers_covered
  Step-Inv {s} fresh_pop v =
      pop-Inv s v.capacity_positive v.producers_covered
        (λ n e.
          fewer-Covered s.consumers s.shared.closed n (length s.shared.queue) (omega arith)
            v.consumers_covered)
        (λ c. v.consumers_covered)
  Step-Inv {s} closing v = close-Inv s v.capacity_positive
  Step-Inv {s} (woken_push x n e) v =
      push-Inv (record s { producers = record s.producers { woken = n } }) x v.capacity_positive
        (λ c r.
          used-Covered s.producers s.shared.closed n _ (room s.shared) e (omega arith)
            v.producers_covered)
        (λ c. closed-Covered s.producers s.shared.closed n _ (room s.shared) c v.producers_covered)
        v.consumers_covered
  Step-Inv {s} (woken_pop n e) v =
      pop-Inv (record s { consumers = record s.consumers { woken = n } }) v.capacity_positive
        v.producers_covered
        (λ m k.
          used-Covered s.consumers s.shared.closed n m (length s.shared.queue) e (omega arith)
            v.consumers_covered)
        (λ c.
          closed-Covered s.consumers s.shared.closed n _ (length s.shared.queue) c
            v.consumers_covered)
  Step-Inv {s} (producer_notified n e) v = record {
    capacity_positive = v.capacity_positive;
    producers_covered = notify_one-Covered s.producers s.shared.closed n _ e v.producers_covered;
    consumers_covered = v.consumers_covered;
  }
  Step-Inv {s} (consumer_notified n e) v = record {
    capacity_positive = v.capacity_positive;
    producers_covered = v.producers_covered;
    consumers_covered = notify_one-Covered s.consumers s.shared.closed n _ e v.consumers_covered;
  }
  Step-Inv {s} (producers_notified n e) v = record {
    capacity_positive = v.capacity_positive;
    producers_covered = notify_all-Covered s.producers s.shared.closed n _;
    consumers_covered = v.consumers_covered;
  }
  Step-Inv {s} (consumers_notified n e) v = record {
    capacity_positive = v.capacity_positive;
    producers_covered = v.producers_covered;
    consumers_covered = notify_all-Covered s.consumers s.shared.closed n _;
  }
  Step-Inv {s} producer_stirs v = record {
    capacity_positive = v.capacity_positive;
    producers_covered = wake-Covered s.producers s.shared.closed _ v.producers_covered;
    consumers_covered = v.consumers_covered;
  }
  Step-Inv {s} consumer_stirs v = record {
    capacity_positive = v.capacity_positive;
    producers_covered = v.producers_covered;
    consumers_covered = wake-Covered s.consumers s.shared.closed _ v.consumers_covered;
  }

  initial-Inv : (capacity : ℕ) → Inv {A = A} (initial capacity)
  unfolding initial create Covered
  initial-Inv capacity = record {
    capacity_positive = ground arith;
    producers_covered = λ a o. absurd (omega arith);
    consumers_covered = λ a o. absurd (omega arith);
  }

  Reach-Inv : {capacity : ℕ} {s : WaitState A} → WaitReach capacity s → Inv s
  Reach-Inv {capacity} begin = initial-Inv capacity
  Reach-Inv (next r st) = Step-Inv st (Reach-Inv r)

  -- No wake-up is lost: in a state that threads reach from an empty queue by calls of `push`, `pop` and
  -- `close`, with the notifications carried out at any later time, where nobody is awake behind a wait and
  -- no notification is still to come, producers sleep only where a push has to wait, consumers sleep only
  -- where a pop has to wait, and not both of them sleep.
  pub Reach-wakes :
      {capacity : ℕ} {s : WaitState A}
      → WaitReach capacity s
      → s.producers.woken ≡ 0
      → s.producers.owed ≡ 0
      → s.producers.owed_all ≡ 0
      → s.consumers.woken ≡ 0
      → s.consumers.owed ≡ 0
      → s.consumers.owed_all ≡ 0
      → ((s.producers.asleep ≡ 0) ⊎ ((x : A) → push s.shared x ≡ blocked))
        × ((s.consumers.asleep ≡ 0) ⊎ (pop s.shared ≡ blocked))
        × ((s.producers.asleep ≡ 0) ⊎ (s.consumers.asleep ≡ 0))
  unfolding room
  Reach-wakes {s} r pw po pa cw co ca =
      let v = Reach-Inv r in
      let full =
        quiet-Covered s.producers s.shared.closed (room s.shared) pw po pa v.producers_covered in
      let drained =
        quiet-Covered s.consumers s.shared.closed (length s.shared.queue) cw co ca
          v.consumers_covered in
      (
        elim full [ inl a ↦ inl a | inr (c, e) ↦ inr (λ x. push_blocked s.shared x c e) ],
        elim drained [
          | inl a ↦ inl a
          | inr (c, e) ↦ inr (pop_blocked s.shared c (length-zero s.shared.queue e))
        ],
        elim full [
          | inl a ↦ inl a
          | inr (c, e) ↦ elim drained [
            | inl a ↦ inr a
            | inr (d, k) ↦ absurd (omega (arith, v.capacity_positive))
          ]
        ],
      )
