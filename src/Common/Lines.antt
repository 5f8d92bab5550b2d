-- ===== src/Common/Lines.antt =====
-- Lines, words and trimming, as the standard library reads them.
use mathlib.Core.Bool.{Bool, true, false, ◌&&◌, ◌||◌}
use mathlib.Core.List.{List, [], ◌∷◌, ◌++◌}
use star_base.Common.Ascii.{is_space}
use star_base.Common.Lists.{is_empty}
use star_base.Common.Tests.{◌==◌, if◌then◌else◌}
use star_base.Common.Text.{Bytes}
use Prim.Native.Nat.{ℕ}

unfoldable pub on_first : ℕ → List Bytes → List Bytes
on_first c [] = (c ∷ []) ∷ []
on_first c (x ∷ xs) = (c ∷ x) ∷ xs

-- The lines that `std::getline` yields: the last one needs no newline, and is not empty.
unfoldable pub lines : Bytes → List Bytes
unfolding on_first
lines [] = []
lines (c ∷ s) = let rest = lines s in if c == 10 then [] ∷ rest else on_first c rest

-- The words that `>>` reads, behind the word so far.
unfoldable pub words_from : Bytes → Bytes → List Bytes
unfolding is_space
words_from cur [] = if is_empty cur then [] else cur ∷ []
words_from cur (c ∷ s) = elim (is_space c) [
  | true ↦ let rest = words_from [] s in if is_empty cur then rest else cur ∷ rest
  | false ↦ words_from (cur ++ c ∷ []) s
]

unfoldable pub words : Bytes → List Bytes
unfolding words_from
words s = words_from [] s

-- `" \t\r\n"`, the set that the sources trim by.
unfoldable pub is_blank : ℕ → Bool
is_blank c = c == 32 || (c == 9 || (c == 13 || c == 10))

unfoldable pub trim_left : Bytes → Bytes
unfolding is_blank
trim_left [] = []
trim_left (c ∷ s) = if is_blank c then trim_left s else c ∷ s

unfoldable pub trim_right : Bytes → Bytes
unfolding is_blank
trim_right [] = []
trim_right (c ∷ s) = let r = trim_right s in if is_empty r && is_blank c then [] else c ∷ r

-- `find_first_not_of` to `find_last_not_of`.
unfoldable pub trim : Bytes → Bytes
unfolding trim_left trim_right
trim s = trim_right (trim_left s)
