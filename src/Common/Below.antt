-- ===== src/Common/Below.antt =====
-- Facts about the numbers below a bound, by a run over them.
use Prim.Native.Nat.{ℕ, zero, suc, ◌<◌}
use mathlib.Core.Path.{◌≡◌, ap}
use mathlib.Core.Logic.{inl, inr}
use mathlib.Core.Bool.{Bool, true, ◌&&◌}
use native.Mathlib.Omega.{arith}
use star_base.Common.Tests.{◌==◌, ==→eq, Bool-cases}

unfoldable pub all_below : (ℕ → Bool) → ℕ → Bool
all_below p zero = true
all_below p (suc n) = p n && all_below p n

pub all_below_sound : (p : ℕ → Bool) (n m : ℕ) → all_below p n ≡ true → m < n → p m ≡ true
unfolding all_below
all_below_sound p zero m h lt = absurd (omega arith)
all_below_sound p (suc n) m h lt = elim (Bool-cases (m == n)) [
  | inl e ↦ ground (arith, ap p (==→eq m n e), h)
  | inr e ↦ all_below_sound p n m (ground (arith, h)) (ground (arith, e, lt))
]
