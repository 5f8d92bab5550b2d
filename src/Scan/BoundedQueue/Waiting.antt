-- ===== src/Scan/BoundedQueue/Waiting.antt =====
-- The condition variables of src/scan/bounded_queue.hpp: who sleeps on them and which wake-ups are still
-- to come. A call that has to wait gives the mutex back and sleeps in one step; a wake-up comes after the
-- mutex is released, so other calls can come between.
pub mod Covered
pub mod Kept
pub mod Quiet
use star_base.Scan.BoundedQueue.{BoundedQueue, blocked, returned, create, push, pop, close}
use star_base.Common.{ℕ, zero, suc, ◌+◌, ◌≡◌, some, if◌then◌else◌, is_some}

-- A condition variable: the threads asleep on it, those that were woken and have not looked at the
-- condition again, and the calls of `notify_one` and of `notify_all` that are still to be made.
pub record Waits : Type 0 where
  pub asleep : ℕ
  pub woken : ℕ
  pub owed : ℕ
  pub owed_all : ℕ

unfoldable pub sleep : Waits → Waits
sleep w = record w { asleep = suc w.asleep }

unfoldable pub owe : Waits → Waits
owe w = record w { owed = suc w.owed }

unfoldable pub owe_all : Waits → Waits
owe_all w = record w { owed_all = suc w.owed_all }

-- One sleeper, if there is any, is woken.
unfoldable pub wake : Waits → ℕ → Waits
wake w zero = w
wake w (suc n) = record w { asleep = n; woken = suc w.woken }

unfoldable pub notify_one : Waits → ℕ → Waits
unfolding wake
notify_one w owed = wake (record w { owed = owed }) w.asleep

unfoldable pub notify_all : Waits → ℕ → Waits
notify_all w owed_all = record w { asleep = 0; woken = w.woken + w.asleep; owed_all = owed_all }

-- The queue with the producers at `not_full_` and the consumers at `not_empty_`.
pub record WaitState {ℓ} (A : Type ℓ) : Type ℓ where
  pub shared : BoundedQueue A
  pub producers : Waits
  pub consumers : Waits

module _ {ℓ} {A : Type ℓ} where
  unfoldable pub initial : ℕ → WaitState A
  initial capacity =
      let nobody : Waits = record { asleep = 0; woken = 0; owed = 0; owed_all = 0 } in
      record { shared = create capacity; producers = nobody; consumers = nobody }

  -- `push` from where it has the mutex: to its wait, or past the unlocking.
  unfoldable pub push_call : WaitState A → A → WaitState A
  unfolding sleep owe
  push_call s x = elim (push s.shared x) [
    | blocked ↦ record s { producers = sleep s.producers }
    | returned (q, b) ↦ record s {
      shared = q;
      consumers = if b then owe s.consumers else s.consumers;
    }
  ]

  unfoldable pub pop_call : WaitState A → WaitState A
  unfolding sleep owe
  pop_call s = elim (pop s.shared) [
    | blocked ↦ record s { consumers = sleep s.consumers }
    | returned (q, o) ↦ record s {
      shared = q;
      producers = if is_some o then owe s.producers else s.producers;
    }
  ]

  unfoldable pub close_call : WaitState A → WaitState A
  unfolding owe_all
  close_call s = record {
    shared = close s.shared;
    producers = owe_all s.producers;
    consumers = owe_all s.consumers;
  }

  -- A thread enters a call, a woken thread goes on with its call, a wake-up is carried out, or a thread
  -- wakes up by itself, as condition variables allow.
  pub data WaitStep (s : WaitState A) : WaitState A → Type ℓ where
    fresh_push : (x : A) → WaitStep s (push_call s x)
    fresh_pop : WaitStep s (pop_call s)
    closing : WaitStep s (close_call s)
    woken_push :
        (x : A) (n : ℕ)
        → s.producers.woken ≡ suc n
        → WaitStep s (push_call (record s { producers = record s.producers { woken = n } }) x)
    woken_pop :
        (n : ℕ)
        → s.consumers.woken ≡ suc n
        → WaitStep s (pop_call (record s { consumers = record s.consumers { woken = n } }))
    producer_notified :
        (n : ℕ)
        → s.producers.owed ≡ suc n
        → WaitStep s (record s { producers = notify_one s.producers n })
    consumer_notified :
        (n : ℕ)
        → s.consumers.owed ≡ suc n
        → WaitStep s (record s { consumers = notify_one s.consumers n })
    producers_notified :
        (n : ℕ)
        → s.producers.owed_all ≡ suc n
        → WaitStep s (record s { producers = notify_all s.producers n })
    consumers_notified :
        (n : ℕ)
        → s.consumers.owed_all ≡ suc n
        → WaitStep s (record s { consumers = notify_all s.consumers n })
    producer_stirs : WaitStep s (record s { producers = wake s.producers s.producers.asleep })
    consumer_stirs : WaitStep s (record s { consumers = wake s.consumers s.consumers.asleep })

  pub data WaitReach (capacity : ℕ) : WaitState A → Type ℓ where
    begin : WaitReach capacity (initial capacity)
    next : {s t : WaitState A} → WaitReach capacity s → WaitStep s t → WaitReach capacity t
