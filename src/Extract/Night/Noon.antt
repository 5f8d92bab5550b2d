-- ===== src/Extract/Night/Noon.antt =====
-- Observing nights go from noon to noon.
use star_base.Query.Platform.{Platform}
use star_base.Extract.Coord.{Library}
use star_base.Extract.Night.{
  Stamp, stamp_of, seconds_of, utc_of, offset_seconds, show_date, night_label, is_minus_one,
  night_of,
}
use star_base.Common.{ℕ, suc, ◌+◌, ◌*◌, ◌≤◌, ◌<◌, ◌≡◌, sym, ap, ◌∙◌, some, arith, Bytes}
use star_base.Common.Int.{ℤ, pos, negsuc, pos_part, neg_part, ◌+ℤ◌, +ℤ_parts, eq_of_parts}

-- What is documented of the calendar of the C library, for the dates from 1970-01-01 to 9999-12-31.
-- `first_day` is the number of a month's first day, where 1970-01-01 is day 0, and `date_on` the date of
-- a day. A day behind the end of its month is carried over, as `timegm` does.
pub record IsCalendar (p : Platform) (lib : Library p) : Type 0 where
  pub first_day : ℕ → ℕ → ℕ
  pub date_on : ℕ → ℤ × ℤ × ℤ
  pub timegm_days :
      (y mo d h mi s : ℕ)
      → 1970 ≤ y
      → y ≤ 9999
      → 1 ≤ mo
      → mo ≤ 12
      → d < 31
      → h < 24
      → mi < 60
      → s ≤ 60
      → lib.timegm (pos y) (pos mo) (pos (suc d)) (pos h) (pos mi) (pos s)
        ≡ pos (86400 * (first_day y mo + d) + (3600 * h + 60 * mi + s))
  pub gmtime_days :
      (n s : ℕ) → n ≤ 2932896 → s < 86400 → lib.gmtime (pos (86400 * n + s)) ≡ date_on n

-- Twelve hours before a time that is at least that much behind the start of a day.
back_to_noon :
    (u o : ℤ) (n s : ℕ)
    → pos_part u + pos_part o ≡ 86400 * n + 43200 + s + neg_part u + neg_part o
    → (u +ℤ o) +ℤ negsuc 43199 ≡ pos (86400 * n + s)
back_to_noon u o n s h =
    let q = +ℤ_parts u o in
    let r = +ℤ_parts (u +ℤ o) (negsuc 43199) in
    eq_of_parts ((u +ℤ o) +ℤ negsuc 43199) (pos (86400 * n + s)) (omega arith)

module _ (p : Platform) (lib : Library p) (calendar : IsCalendar p lib) where
  night_label-noon :
      (u o : ℤ) (n s : ℕ)
      → n ≤ 2932896
      → s < 86400
      → pos_part u + pos_part o ≡ 86400 * n + 43200 + s + neg_part u + neg_part o
      → night_label p lib u o ≡ show_date (lib.gmtime (pos (86400 * n + 43200)))
  unfolding night_label
  night_label-noon u o n s r k h =
      ap (λ z. show_date (lib.gmtime z)) (back_to_noon u o n s h)
      ∙ ap show_date
          (calendar.gmtime_days n s r k ∙ sym (calendar.gmtime_days n 43200 r (omega arith)))

  -- A frame belongs to the night of the last noon before it: where its date has a year from 1970 to 9999, a
  -- month from 1 to 12, a day from 1 to 31 and a time of day, and its local time is less than a day behind
  -- the noon of day `n`, at most 9999-12-31, its night is the date at that noon, on whichever side of
  -- midnight it was taken and whatever the offset of the zone is.
  pub night_of-noon :
      (text : Bytes) (hours : p.Double) (t : Stamp) (y mo d h mi se n s : ℕ)
      → stamp_of text ≡ some t
      → t.year ≡ pos y
      → t.month ≡ pos mo
      → t.day ≡ pos (suc d)
      → t.hour ≡ pos h
      → t.minute ≡ pos mi
      → seconds_of p lib t.rest ≡ pos se
      → 1970 ≤ y
      → y ≤ 9999
      → 1 ≤ mo
      → mo ≤ 12
      → d < 31
      → h < 24
      → mi < 60
      → se ≤ 60
      → 86400 * (calendar.first_day y mo + d)
          + (3600 * h + 60 * mi + se)
          + pos_part (offset_seconds p lib hours)
        ≡ 86400 * n + 43200 + s + neg_part (offset_seconds p lib hours)
      → n ≤ 2932896
      → s < 86400
      → night_of p lib text hours ≡ some (show_date (lib.gmtime (pos (86400 * n + 43200))))
  unfolding night_of utc_of is_minus_one
  night_of-noon text hours t y mo d h mi se n s e ey eo ed eh em es y0 y1 m0 m1 d1 h1 i1 s1 k r lt =
      let utc : utc_of p lib t
          ≡ pos (86400 * (calendar.first_day y mo + d) + (3600 * h + 60 * mi + se)) =
        cc (ey, eo, ed, eh, em, es, calendar.timegm_days y mo d h mi se y0 y1 m0 m1 d1 h1 i1 s1) in
      rw (e, utc, night_of)
        (ap some (
          night_label-noon (pos (86400 * (calendar.first_day y mo + d) + (3600 * h + 60 * mi + se)))
            (offset_seconds p lib hours) n s r lt (omega arith)))
