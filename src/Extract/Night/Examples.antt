-- ===== src/Extract/Night/Examples.antt =====
-- Runs of `night_of`.
use star_base.Extract.Coord.{run_of}
use star_base.Common.Stoi.{digits_from}
use star_base.Extract.Night.Civil.{whole_numbers, library, calendar, first_day}
use star_base.Extract.Night.Noon.{night_of-noon}
use star_base.Extract.Night.{Stamp, stamp_of, show_date, night_of, seconds_of, offset_seconds}
use star_base.Common.{◌+◌, ◌*◌, ◌≡◌, refl, some, arith, codes}
use star_base.Common.Ascii.{is_digit}
use star_base.Common.Int.{pos}

morning_test :
    night_of whole_numbers library (codes "2026-03-01T03:30:10.5") 0 ≡ some (codes "2026-02-28")
unfolding night_of stamp_of run_of
morning_test = refl

evening_test :
    night_of whole_numbers library (codes "2024-02-29 20:05:00") 0 ≡ some (codes "2024-02-29")
unfolding night_of stamp_of run_of
evening_test = refl

abbrev stamp : Stamp
stamp = record {
  year = pos 2026;
  month = pos 3;
  day = pos 1;
  hour = pos 3;
  minute = pos 30;
  rest = codes ":10";
}

stamped : stamp_of (codes "2026-03-01T03:30:10") ≡ some stamp
unfolding stamp_of
stamped = refl

ten : seconds_of whole_numbers library (codes ":10") ≡ pos 10
unfolding seconds_of run_of is_digit digits_from
ten = refl

no_offset : offset_seconds whole_numbers library 0 ≡ pos 0
unfolding offset_seconds
no_offset = refl

night_of-noon_example :
    night_of whole_numbers library (codes "2026-03-01T03:30:10") 0
    ≡ some (show_date (library.gmtime (pos (86400 * 20512 + 43200))))
night_of-noon_example =
    night_of-noon whole_numbers library calendar (codes "2026-03-01T03:30:10") 0 stamp 2026 3 0 3 30
      10 20512 55810 stamped refl refl refl refl refl ten (omega arith) (omega arith) (omega arith)
      (omega arith) (omega arith) (omega arith) (omega arith) (omega arith) (rw no_offset refl)
      (omega arith) (omega arith)

epoch_test : first_day 1970 1 ≡ 0
epoch_test = refl
