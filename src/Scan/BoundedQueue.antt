-- ===== src/Scan/BoundedQueue.antt =====
-- src/scan/bounded_queue.hpp: the bounded hand-off queue between the walker and the workers.
-- A call runs under the mutex, so each is one step; a call whose wait condition does not hold is
-- blocked and changes nothing. The threads are an arbitrary interleaving of such steps. The wake-ups that
-- the calls send are in Waiting, on top of these calls.
pub mod Order
pub mod Waiting
pub mod Examples
use star_base.Common.{
  ℕ, ◌≡◌, ap, Bool, true, false, not, ◌||◌, Option, none, some, List, [], ◌∷◌, ◌++◌, ltb, ◌==◌,
  if◌then◌else◌, length, is_empty, take,
}

-- The private fields of `BoundedQueue`; the mutex is in the steps, the condition variables in
-- `WaitState`.
pub record BoundedQueue {ℓ} (A : Type ℓ) : Type ℓ where
  pub capacity : ℕ
  pub queue : List A
  pub closed : Bool

-- What a call does at a moment: it waits on its condition variable, or it returns.
pub data Outcome {ℓ} (A : Type ℓ) : Type ℓ where
  blocked : Outcome A
  returned : A → Outcome A

module _ {ℓ} {A : Type ℓ} where
  -- The constructor: a capacity of zero is taken for one.
  pub create : ℕ → BoundedQueue A
  create capacity = record {
    capacity = if capacity == 0 then 1 else capacity;
    queue = [];
    closed = false;
  }

  pub push : BoundedQueue A → A → Outcome (BoundedQueue A × Bool)
  push q value =
      if not (ltb (length q.queue) q.capacity || q.closed)
      then blocked
      else if q.closed
      then returned (q, false)
      else returned (record q { queue = q.queue ++ value ∷ [] }, true)

  -- `queue_.front()` and `queue_.pop()`.
  take_front : BoundedQueue A → List A → BoundedQueue A × Option A
  take_front q [] = (q, none)
  take_front q (x ∷ xs) = (record q { queue = xs }, some x)

  pub pop : BoundedQueue A → Outcome (BoundedQueue A × Option A)
  unfolding take_front
  pop q =
      if not (not (is_empty q.queue) || q.closed) then blocked else returned (take_front q q.queue)

  pub close : BoundedQueue A → BoundedQueue A
  close q = record q { closed = true }

-- A call that returned, with its result.
pub data Event {ℓ} (A : Type ℓ) : Type ℓ where
  pushed : A → Bool → Event A
  popped : Option A → Event A
  closes : Event A

module _ {ℓ} {A : Type ℓ} where
  pub data Step (q : BoundedQueue A) : Event A → BoundedQueue A → Type ℓ where
    push_step :
        {x : A} {b : Bool} {r : BoundedQueue A} → push q x ≡ returned (r, b) → Step q (pushed x b) r
    pop_step : {o : Option A} {r : BoundedQueue A} → pop q ≡ returned (r, o) → Step q (popped o) r
    close_step : {r : BoundedQueue A} → close q ≡ r → Step q closes r

  -- Any interleaving of the threads' calls, in the order in which they took the mutex.
  pub data Run (q : BoundedQueue A) : List (Event A) → BoundedQueue A → Type ℓ where
    start : Run q [] q
    then_step :
        {es : List (Event A)} {r t : BoundedQueue A} {e : Event A}
        → Run q es r
        → Step r e t
        → Run q (es ++ e ∷ []) t
