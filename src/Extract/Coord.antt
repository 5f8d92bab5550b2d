-- ===== src/Extract/Coord.antt =====
-- Numbers and coordinates of src/extract/resolver.cpp. The regular expression of `parse_coord` is read from
-- left to right: its classes of bytes are disjoint, so no repetition gives a byte back.
use star_base.Query.Platform.{Platform}
use star_base.Common.Lines.{trim}
use star_base.Common.Stoi.{skip_spaces}
use star_base.Common.{
  ℕ, Bool, true, false, ◌||◌, Option, none, some, [], ◌∷◌, ◌==◌, if◌then◌else◌, ◌>>=◌, is_empty,
  drop, all, Bytes, codes,
}
use star_base.Common.Ascii.{is_space, is_digit}
use star_base.Common.Int.{ℤ, int_of_long}

-- What the resolver takes from outside besides doubles: `std::lround`, `%lf` of `sscanf`, the regular
-- expressions of the mapping, and `timegm` and the date of `gmtime_r` over the Unix time.
pub record Library (p : Platform) : Type 0 where
  pub lround : p.Double → ℤ
  pub scan_double : Bytes → Option p.Double
  pub regex_search : Bytes → Bytes → Option Bool
  pub timegm : ℤ → ℤ → ℤ → ℤ → ℤ → ℤ → ℤ
  pub gmtime : ℤ → ℤ × ℤ × ℤ

-- The longest start of a text with bytes of a class, and what is behind it.
unfoldable pub run_of : (ℕ → Bool) → Bytes → Bytes
run_of f [] = []
run_of f (c ∷ s) = let rest = run_of f s in if f c then c ∷ rest else []

unfoldable pub behind_run : (ℕ → Bool) → Bytes → Bytes
behind_run f [] = []
behind_run f (c ∷ s) = let rest = behind_run f s in if f c then rest else c ∷ s

is_gap : ℕ → Bool
unfolding is_space
is_gap c = is_space c || c == b':'

is_decimal : ℕ → Bool
unfolding is_digit
is_decimal c = is_digit c || c == b'.'

-- `[\s:]+` and a group.
group_behind : (ℕ → Bool) → Bytes → Option (Bytes × Bytes)
unfolding run_of behind_run is_gap
group_behind f s =
    let g = run_of f (behind_run is_gap s) in
    if is_empty (run_of is_gap s) || is_empty g
    then none
    else some (g, behind_run f (behind_run is_gap s))

-- The groups behind the sign.
unfoldable pub groups : Bytes → Option (Bytes × Bytes × Bytes)
unfolding run_of behind_run group_behind is_decimal is_digit
groups s = do
  m ← group_behind is_digit (behind_run is_digit s)
  n ← group_behind is_decimal m.1
  if is_empty (run_of is_digit s) then none else some (run_of is_digit s, m.0, n.0)

map_sign : Bool → Option (Bytes × Bytes × Bytes) → Option (Bool × Bytes × Bytes × Bytes)
map_sign negative none = none
map_sign negative (some (a, b, c)) = some (negative, a, b, c)

-- Whether the sign is `-`, and the groups.
unfoldable pub sexagesimal : Bytes → Option (Bool × Bytes × Bytes × Bytes)
unfolding groups skip_spaces map_sign
sexagesimal [] = none
sexagesimal (c ∷ s) =
    if c == b'-'
    then map_sign true (groups (skip_spaces s))
    else if c == b'+'
    then map_sign false (groups (skip_spaces s))
    else map_sign false (groups (skip_spaces (c ∷ s)))

module _ (p : Platform) where
  unfoldable pub to_double : Bytes → Option p.Double
  unfolding is_space
  to_double s = elim (p.stod s) [
    | none ↦ none
    | some (d, n) ↦ if all is_space (drop n s) then some d else none
  ]

  -- `std::stod` of a group, whose end is not looked at; `none` where it throws.
  group_value : Bytes → Option p.Double
  group_value s = elim (p.stod s) [ none ↦ none | some (d, n) ↦ some d ]

  sign_of : Bool → p.Double
  sign_of negative = if negative then p.literal (codes "-1.0") else p.literal (codes "1.0")

  degrees : Bool → Bool → p.Double → p.Double → p.Double → p.Double
  unfolding sign_of
  degrees is_ra negative a b c =
      let deg = p.mul (sign_of negative) (
        p.add (p.add a (p.div b (p.literal (codes "60.0"))))
          (p.div c (p.literal (codes "3600.0")))) in
      if is_ra then p.mul deg (p.literal (codes "15.0")) else deg

  of_groups : Bool → Option (Bool × Bytes × Bytes × Bytes) → Option (Option p.Double)
  unfolding group_value degrees
  of_groups is_ra none = some none
  of_groups is_ra (some (negative, m2, m3, m4)) = do
    a ← group_value m2
    b ← group_value m3
    c ← group_value m4
    some (some (degrees is_ra negative a b c))

  of_trimmed : Bool → Bytes → Option (Option p.Double)
  unfolding to_double of_groups sexagesimal
  of_trimmed is_ra [] = some none
  of_trimmed is_ra (c ∷ s) = elim (to_double (c ∷ s)) [
    | some d ↦ some (some d)
    | none ↦ of_groups is_ra (sexagesimal (c ∷ s))
  ]

  -- `none` where a group makes `std::stod` throw.
  unfoldable pub parse_coord : Bytes → Bool → Option (Option p.Double)
  unfolding of_trimmed trim
  parse_coord value is_ra = of_trimmed is_ra (trim value)

  -- `static_cast<int>(std::lround(d))`.
  unfoldable pub to_int_round : Library p → Bytes → Option ℤ
  unfolding to_double int_of_long
  to_int_round lib s = elim (to_double s) [
    | none ↦ none
    | some d ↦ some (int_of_long (lib.lround d))
  ]
