-- ===== src/Scan/BoundedQueue/Examples.antt =====
-- Runs of src/scan/bounded_queue.hpp.
use star_base.Scan.BoundedQueue.{
  BoundedQueue, blocked, returned, create, push, pop, Event, pushed, popped, push_step, pop_step,
  Run, start, then_step,
}
use star_base.Scan.BoundedQueue.Order.{
  accepted, delivered, Run-fifo, Run-IsBounded, IsBounded, Run-refuses, Run-drains, takes, drained,
}
use star_base.Scan.BoundedQueue.Waiting.{
  WaitState, initial, push_call, pop_call, notify_one, WaitReach, begin, next, fresh_push,
  fresh_pop, woken_push, producer_notified, consumer_notified,
}
use star_base.Scan.BoundedQueue.Waiting.Quiet.{Reach-wakes}
use star_base.Common.{ℕ, ◌⊎◌, ◌≡◌, refl, ◌≢◌, true, false, none, some, List, [], ◌∷◌, ◌++◌}

abbrev one_item : BoundedQueue ℕ
one_item = record { capacity = 1; queue = 7 ∷ []; closed = false }

abbrev history : List (Event ℕ)
history = pushed 5 true ∷ popped (some 5) ∷ pushed 7 true ∷ []

abbrev history_run : Run (create 0) history one_item
unfolding create push pop
history_run =
    then_step (then_step (then_step start (push_step refl)) (pop_step refl)) (push_step refl)

full : push one_item 8 ≡ blocked
unfolding push
full = refl

Run-fifo_example : accepted history ≡ delivered history ++ 7 ∷ []
Run-fifo_example = Run-fifo 0 history_run

Run-IsBounded_example : IsBounded one_item
Run-IsBounded_example = Run-IsBounded 0 history_run

-- A second producer sleeps at a full queue of one, is woken by a pop and puts its item; then a third
-- one sleeps.
abbrev third_waits : WaitState ℕ
third_waits = record {
  shared = record { capacity = 1; queue = 6 ∷ []; closed = false };
  producers = record { asleep = 1; woken = 0; owed = 0; owed_all = 0 };
  consumers = record { asleep = 0; woken = 0; owed = 0; owed_all = 0 };
}

third_reached : WaitReach 0 third_waits
unfolding create push pop push_call pop_call initial notify_one
third_reached =
    next
      (next
        (next
          (next
            (next
              (next (next (next begin (fresh_push 5)) (consumer_notified 0 refl)) (fresh_push 6))
              fresh_pop)
            (producer_notified 0 refl))
          (woken_push 6 0 refl))
        (consumer_notified 0 refl))
      (fresh_push 7)

Reach-wakes_example :
    ((third_waits.producers.asleep ≡ 0) ⊎ ((x : ℕ) → push third_waits.shared x ≡ blocked))
    × ((third_waits.consumers.asleep ≡ 0) ⊎ (pop third_waits.shared ≡ blocked))
    × ((third_waits.producers.asleep ≡ 0) ⊎ (third_waits.consumers.asleep ≡ 0))
Reach-wakes_example = Reach-wakes third_reached refl refl refl refl refl refl

abbrev closed_item : BoundedQueue ℕ
closed_item = record { capacity = 1; queue = 7 ∷ []; closed = true }

abbrev refused_run : Run closed_item (pushed 8 false ∷ popped (some 7) ∷ []) (drained closed_item)
unfolding push pop
refused_run = then_step (then_step start (push_step refl)) (pop_step refl)

Run-refuses_example :
    (accepted {A = ℕ} (pushed 8 false ∷ popped (some 7) ∷ []) ≡ [])
    × ((x : ℕ) → push (drained closed_item) x ≡ returned (drained closed_item, false))
    × (pop (drained closed_item) ≢ blocked)
Run-refuses_example = Run-refuses refused_run refl

Run-drains_example : Run closed_item (takes (7 ∷ []) ++ popped none ∷ []) (drained closed_item)
Run-drains_example = Run-drains closed_item refl
