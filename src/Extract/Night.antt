-- ===== src/Extract/Night.antt =====
-- `night_of` of src/extract/resolver.cpp. Numbers that `%d` reads are taken as they are written; one that does not
-- fit in an `int` is undefined in C.
pub mod Noon
pub mod Civil
pub mod Examples
use star_base.Query.Platform.{Platform}
use star_base.Extract.Coord.{Library}
use star_base.Common.Stoi.{skip_spaces, digits_from, negate}
use star_base.Common.{
  ℕ, zero, suc, ◌-◌, Bool, true, false, Option, none, some, [], ◌∷◌, ◌++◌, ◌==◌, if◌then◌else◌,
  ◌>>=◌, or_else, length, Bytes, codes,
}
use star_base.Common.Ascii.{is_digit}
use star_base.Common.Decimal.{decimal}
use star_base.Common.Int.{ℤ, pos, negsuc, ◌+ℤ◌}

behind_digits : Bytes → Bytes
unfolding is_digit
behind_digits [] = []
behind_digits (c ∷ s) = let rest = behind_digits s in if is_digit c then rest else c ∷ s

-- The number of a run of digits, with its sign, and what is behind it.
counted : Bool → Bytes → Option (ℤ × Bytes)
unfolding digits_from negate is_digit behind_digits
counted negative [] = none
counted negative (c ∷ s) =
    if is_digit c
    then some (
      if negative then negate (digits_from 0 (c ∷ s)) else pos (digits_from 0 (c ∷ s)),
      behind_digits s,
    )
    else none

signed_int : Bytes → Option (ℤ × Bytes)
unfolding counted
signed_int [] = none
signed_int (c ∷ s) =
    if c == b'-'
    then counted true s
    else if c == b'+'
    then counted false s
    else counted false (c ∷ s)

-- `%d`.
unfoldable pub scan_int : Bytes → Option (ℤ × Bytes)
unfolding signed_int skip_spaces
scan_int s = signed_int (skip_spaces s)

-- A byte of the format that is not a blank.
scan_byte : ℕ → Bytes → Option Bytes
scan_byte d [] = none
scan_byte d (c ∷ s) = if c == d then some s else none

-- `T`, or the blank of the second format, which stands for any number of blanks.
scan_between : Bool → Bytes → Option Bytes
unfolding skip_spaces scan_byte
scan_between true s = scan_byte b'T' s
scan_between false s = some (skip_spaces s)

pub record Stamp : Type 0 where
  pub year : ℤ
  pub month : ℤ
  pub day : ℤ
  pub hour : ℤ
  pub minute : ℤ
  -- The text behind the minute.
  pub rest : Bytes

-- The first five conversions of either format.
unfoldable pub scan_stamp : Bool → Bytes → Option Stamp
unfolding scan_int scan_byte scan_between
scan_stamp with_t s = do
  y ← scan_int s
  s1 ← scan_byte b'-' y.1
  mo ← scan_int s1
  s2 ← scan_byte b'-' mo.1
  d ← scan_int s2
  s3 ← scan_between with_t d.1
  h ← scan_int s3
  s4 ← scan_byte b':' h.1
  mi ← scan_int s4
  some record { year = y.0; month = mo.0; day = d.0; hour = h.0; minute = mi.0; rest = mi.1 }

unfoldable pub stamp_of : Bytes → Option Stamp
unfolding scan_stamp
stamp_of s = or_else (scan_stamp true s) (scan_stamp false s)

-- `%04d` and `%02d`: zeros between the sign and the digits.
unfoldable pub zeros : ℕ → Bytes
zeros zero = []
zeros (suc n) = b'0' ∷ zeros n

padded : ℕ → ℤ → Bytes
unfolding zeros decimal
padded width (pos n) = zeros (width - length (decimal n)) ++ decimal n
padded width (negsuc n) = b'-' ∷ (zeros (width - 1 - length (decimal (suc n))) ++ decimal (suc n))

unfoldable pub show_date : ℤ × ℤ × ℤ → Bytes
unfolding padded
show_date (y, m, d) = padded 4 y ++ b'-' ∷ (padded 2 m ++ b'-' ∷ padded 2 d)

module _ (p : Platform) (lib : Library p) where
  -- `:%lf` behind the minute, and its cast to `int`; 0 where it does not match.
  unfoldable pub seconds_of : Bytes → ℤ
  unfolding scan_byte
  seconds_of s = elim (scan_byte b':' s) [
    | none ↦ pos 0
    | some s1 ↦ elim (lib.scan_double s1) [ none ↦ pos 0 | some d ↦ p.to_long d ]
  ]

  unfoldable pub utc_of : Stamp → ℤ
  unfolding seconds_of
  utc_of t = lib.timegm t.year t.month t.day t.hour t.minute (seconds_of t.rest)

  unfoldable pub offset_seconds : p.Double → ℤ
  offset_seconds hours = lib.lround (p.mul hours (p.literal (codes "3600.0")))

  -- The date 12 hours before the local time.
  unfoldable pub night_label : ℤ → ℤ → Bytes
  unfolding ◌+ℤ◌ show_date
  night_label utc offset = show_date (lib.gmtime ((utc +ℤ offset) +ℤ negsuc 43199))

  is_minus_one : ℤ → Bool
  is_minus_one (pos n) = false
  is_minus_one (negsuc n) = n == 0

  unfoldable pub night_of : Bytes → p.Double → Option Bytes
  unfolding stamp_of utc_of offset_seconds night_label is_minus_one
  night_of date_obs hours = elim (stamp_of date_obs) [
    | none ↦ none
    | some t ↦
        if is_minus_one (utc_of t)
        then none
        else some (night_label (utc_of t) (offset_seconds hours))
  ]
