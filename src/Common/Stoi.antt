-- ===== src/Common/Stoi.antt =====
-- `std::stoi`, `std::stoll` and `std::atoi` in base 10.
use Prim.Native.Nat.{ℕ, ◌+◌, ◌-◌, ◌*◌}
use mathlib.Core.Bool.{Bool, true, false, ◌||◌}
use mathlib.Core.List.{[], ◌∷◌}
use mathlib.Core.Option.{Option, none, some}
use star_base.Common.Ascii.{is_space, is_digit}
use star_base.Common.Int.{ℤ, pos, negsuc}
use star_base.Common.Lists.{all}
use star_base.Common.Tests.{ltb, leb, ◌==◌, if◌then◌else◌}
use star_base.Common.Text.{Bytes}

-- The value of the digits at the start, behind `n`.
unfoldable pub digits_from : ℕ → Bytes → ℕ
unfolding is_digit
digits_from n [] = n
digits_from n (c ∷ s) =
    let rest = digits_from (10 * n + (c - b'0')) s in if is_digit c then rest else n

-- The number at the start, if there is a digit.
unfoldable pub unsigned : Bytes → Option ℕ
unfolding digits_from is_digit
unsigned [] = none
unsigned (c ∷ s) = if is_digit c then some (digits_from 0 (c ∷ s)) else none

unfoldable pub negate : ℕ → ℤ
negate n = if n == 0 then pos 0 else negsuc (n - 1)

-- A number below the limit, or down to the negative of the limit; `none` where the code throws
-- `out_of_range`.
unfoldable pub in_range : ℕ → Bool → Option ℕ → Option ℤ
unfolding negate
in_range limit negative none = none
in_range limit true (some n) = if leb n limit then some (negate n) else none
in_range limit false (some n) = if ltb n limit then some (pos n) else none

unfoldable pub signed : ℕ → Bytes → Option ℤ
unfolding unsigned in_range
signed limit [] = none
signed limit (c ∷ s) =
    if c == b'-'
    then in_range limit true (unsigned s)
    else if c == b'+'
    then in_range limit false (unsigned s)
    else in_range limit false (unsigned (c ∷ s))

unfoldable pub skip_spaces : Bytes → Bytes
unfolding is_space
skip_spaces [] = []
skip_spaces (c ∷ s) = if is_space c then skip_spaces s else c ∷ s

-- `none` where the code throws.
unfoldable pub stoi : Bytes → Option ℤ
unfolding signed skip_spaces
stoi s = signed 2147483648 (skip_spaces s)

unfoldable pub stoll : Bytes → Option ℤ
unfolding signed skip_spaces
stoll s = signed 9223372036854775808 (skip_spaces s)

unfoldable pub behind_sign : Bytes → Bytes
behind_sign [] = []
behind_sign (c ∷ s) = if c == b'-' || c == b'+' then s else c ∷ s

-- `std::stoi(s, &pos)` with `pos == s.size()`: the number, if it is the whole text.
unfoldable pub stoi_whole : Bytes → Option ℤ
unfolding stoi behind_sign skip_spaces is_digit
stoi_whole s = if all is_digit (behind_sign (skip_spaces s)) then stoi s else none
