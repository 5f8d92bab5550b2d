-- ===== src/Scan/BoundedQueue/Waiting/Covered.antt =====
-- One condition variable of src/scan/bounded_queue.hpp: enough of its sleepers are woken.
use star_base.Scan.BoundedQueue.Waiting.{Waits, sleep, owe, owe_all, wake, notify_one, notify_all}
use star_base.Common.{
  ℕ, zero, suc, ◌+◌, ◌≤◌, ◌<◌, ◌≡◌, refl, ◌⊎◌, inl, inr, Bool, true, false, arith, ltb, ltb→lt,
  Bool-cases,
}

-- Where threads sleep and no `notify_all` is to come, the queue is open, and there are no more slots that
-- they could use than threads woken or about to be.
unfoldable pub Covered : Waits → Bool → ℕ → Type 0
Covered w closed slots =
    0 < w.asleep → w.owed_all ≡ 0 → (closed ≡ false) × (slots ≤ w.woken + w.owed)

pub fewer-Covered : (w : Waits) (c : Bool) (m n : ℕ) → m ≤ n → Covered w c n → Covered w c m
unfolding Covered
fewer-Covered w c m n l h a o = let (e, k) = h a o in (e, omega arith)

pub sleep-Covered : (w : Waits) (c : Bool) (n : ℕ) → c ≡ false → n ≡ 0 → Covered (sleep w) c n
unfolding Covered sleep
sleep-Covered w c n f e a o = (f, omega arith)

pub owe-Covered : (w : Waits) (c : Bool) (m n : ℕ) → m ≤ suc n → Covered w c n → Covered (owe w) c m
unfolding Covered owe
owe-Covered w c m n l h a o = let (e, k) = h a o in (e, omega arith)

pub owe_all-Covered : (w : Waits) (c : Bool) (n : ℕ) → Covered (owe_all w) c n
unfolding Covered owe_all
owe_all-Covered w c n a o = absurd (omega arith)

-- A woken thread uses a slot.
pub used-Covered :
    (w : Waits) (c : Bool) (k m n : ℕ)
    → w.woken ≡ suc k
    → suc m ≤ n
    → Covered w c n
    → Covered (record w { woken = k }) c m
unfolding Covered
used-Covered w c k m n e l h a o = let (f, i) = h a o in (f, omega arith)

-- In a closed queue only wake-ups are left.
pub closed-Covered :
    (w : Waits) (c : Bool) (k m n : ℕ)
    → c ≡ true
    → Covered w c n
    → Covered (record w { woken = k }) c m
unfolding Covered
closed-Covered w c k m n e h a o = let (f, i) = h a o in absurd (cc (e, f))

pub wake-Covered : (w : Waits) (c : Bool) (n : ℕ) → Covered w c n → Covered (wake w w.asleep) c n
unfolding Covered wake
wake-Covered w c n h = go w.asleep refl
  where
    go : (m : ℕ) → w.asleep ≡ m → Covered (wake w m) c n
    go zero e a o = h a o
    go (suc m) e a o = let (f, i) = h (omega arith) o in (f, omega arith)

pub notify_one-Covered :
    (w : Waits) (c : Bool) (k n : ℕ) → w.owed ≡ suc k → Covered w c n → Covered (notify_one w k) c n
unfolding notify_one Covered wake
notify_one-Covered w c k n e h = go w.asleep refl
  where
    go : (m : ℕ) → w.asleep ≡ m → Covered (wake (record w { owed = k }) m) c n
    go zero q a o = absurd (omega arith)
    go (suc m) q a o = let (f, i) = h (omega arith) o in (f, omega arith)

pub notify_all-Covered : (w : Waits) (c : Bool) (k n : ℕ) → Covered (notify_all w k) c n
unfolding Covered notify_all
notify_all-Covered w c k n a o = absurd (omega arith)

-- Nobody has to look at the condition again, and no wake-up is to come.
pub quiet-Covered :
    (w : Waits) (c : Bool) (n : ℕ)
    → w.woken ≡ 0
    → w.owed ≡ 0
    → w.owed_all ≡ 0
    → Covered w c n
    → (w.asleep ≡ 0) ⊎ ((c ≡ false) × (n ≡ 0))
unfolding Covered
quiet-Covered w c n e o a h = elim (Bool-cases (ltb 0 w.asleep)) [
  | inl l ↦ let (f, k) = h (ltb→lt 0 w.asleep l) a in inr (f, omega arith)
  | inr l ↦ inl (ground (arith, l))
]
