-- ===== src/Extract/Night/Civil.antt =====
-- A calendar for the runs of the resolver: the proleptic Gregorian one, from 1970 on, over whole numbers.
use star_base.Query.Platform.{Platform}
use star_base.Query.Whole.{whole}
use star_base.Extract.Coord.{Library, run_of}
use star_base.Extract.Night.Noon.{IsCalendar}
use star_base.Common.Stoi.{digits_from}
use star_base.Common.{
  ℕ, zero, suc, ◌+◌, ◌-◌, ◌*◌, ◌/◌, ◌%◌, ◌<◌, ◌≡◌, refl, ap, none, some, arith, leb, if◌then◌else◌,
  length, is_empty,
}
use star_base.Common.Ascii.{is_digit}
use star_base.Common.Int.{ℤ, pos, pos_part}

abbrev pub whole_numbers : Platform
whole_numbers =
    whole (λ s. 3600)
      (λ s.
        if is_empty (run_of is_digit s)
        then none
        else some (digits_from 0 s, length (run_of is_digit s)))

-- The number of the day before the first one of month `mo`, where March of year 0 is day 0.
abbrev pub before_month : ℕ → ℕ → ℕ
before_month y mo =
    let y' = if leb mo 2 then y - 1 else y in
    let mp = if leb mo 2 then mo + 9 else mo - 3 in
    365 * y' + y' / 4 - y' / 100 + y' / 400 + (153 * mp + 2) / 5 - 1

-- Where 1970-01-01 is day 0.
abbrev pub first_day : ℕ → ℕ → ℕ
first_day y mo = before_month y mo + 1 - 719468

-- How many days of the month are over.
abbrev pub day_before : ℕ → ℕ
day_before zero = 0
day_before (suc d) = d

abbrev pub timegm : ℤ → ℤ → ℤ → ℤ → ℤ → ℤ → ℤ
timegm y mo d h mi s = pos (
    86400 * (first_day (pos_part y) (pos_part mo) + day_before (pos_part d))
    + (3600 * pos_part h + 60 * pos_part mi + pos_part s))

abbrev pub date_on : ℕ → ℤ × ℤ × ℤ
date_on n =
    let z = n + 719468 in
    let doe = z % 146097 in
    let yoe = (doe + doe / 36524 - doe / 1460 - doe / 146096) / 365 in
    let doy = doe + yoe / 100 - (365 * yoe + yoe / 4) in
    let mp = (5 * doy + 2) / 153 in
    let y = yoe + 400 * (z / 146097) in
    (
      pos (if leb 10 mp then y + 1 else y),
      pos (if leb 10 mp then mp - 9 else mp + 3),
      pos (doy + 1 - (153 * mp + 2) / 5),
    )

abbrev pub library : Library whole_numbers
library = record {
  lround = pos;
  scan_double = λ s. if is_empty (run_of is_digit s) then none else some (digits_from 0 s);
  regex_search = λ pattern s. none;
  timegm = timegm;
  gmtime = λ t. date_on (pos_part t / 86400);
}

pub day_of_time : (n s : ℕ) → s < 86400 → (86400 * n + s) / 86400 ≡ n
day_of_time n s h = omega arith

abbrev pub calendar : IsCalendar whole_numbers library
calendar = record {
  first_day = first_day;
  date_on = date_on;
  timegm_days = λ y mo d h mi s _ _ _ _ _ _ _ _. refl;
  gmtime_days = λ n s _ h. ap date_on (day_of_time n s h);
}
