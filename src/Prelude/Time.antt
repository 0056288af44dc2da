-- ===== src/Prelude/Time.antt =====
-- What the program prints of a `datetime` in UTC. A moment is a number of microseconds since the
-- beginning of 1970; the calendar date is that of the proleptic Gregorian calendar.
use Prim.Native.Nat.{ℕ, ◌+◌, ◌-◌, ◌*◌, ◌/◌, ◌%◌}
use Prim.Native.String.{String}
use mathlib.Core.Path.{◌≡◌, refl}
use mcp_business_assistant.Prelude.Tests.{ltb, leb, ◌==◌, if◌then◌else◌}
use mcp_business_assistant.Prelude.Text.{◌⊕◌, digit, str_ℕ}

pub record Date : Type 0 where
  pub year : ℕ
  pub month : ℕ
  pub day : ℕ

-- The days from 0000-03-01 to 1970-01-01
abbrev pub epoch_day : ℕ
epoch_day = 719468

-- The date of a day, counted from 0000-03-01. The years begin with March here, in cycles of 400, so
-- that the leap day is the last one.
unfoldable pub date_of_day : ℕ → Date
date_of_day shifted =
    let cycle = shifted / 146097 in
    let in_cycle = shifted % 146097 in
    let year = (in_cycle - in_cycle / 1460 + in_cycle / 36524 - in_cycle / 146096) / 365 in
    let in_year = in_cycle - (365 * year + year / 4 - year / 100) in
    let month = (5 * in_year + 2) / 153 in
    record {
      year = year + cycle * 400 + (if leb 10 month then 1 else 0);
      month = if ltb month 10 then month + 3 else month - 9;
      day = in_year - (153 * month + 2) / 5 + 1;
    }

-- `%d`, `%m`, `%H` and `%M`: two digits
unfoldable pub two_digits : ℕ → String
unfolding digit
two_digits n = digit (n / 10) ⊕ digit (n % 10)

-- `date.isoformat()` of a year with four digits
unfoldable pub iso_date : Date → String
unfolding two_digits str_ℕ
iso_date date = str_ℕ date.year ⊕ "-" ⊕ two_digits date.month ⊕ "-" ⊕ two_digits date.day

-- The day of a moment, counted from 0000-03-01
abbrev pub day_of : ℕ → ℕ
day_of moment = moment / 86400000000 + epoch_day

-- `strftime("%Y-%m-%d")`
unfoldable pub format_date : ℕ → String
unfolding iso_date date_of_day
format_date moment = iso_date (date_of_day (day_of moment))

-- `strftime("%Y-%m-%d %H:%M")`
unfoldable pub format_minute : ℕ → String
unfolding format_date two_digits
format_minute moment =
    format_date moment
    ⊕ " "
    ⊕ two_digits (moment / 3600000000 % 24)
    ⊕ ":"
    ⊕ two_digits (moment / 60000000 % 60)

-- `isoformat()` of a moment in UTC: the microseconds are left out where they are zero.
unfoldable pub iso_format : ℕ → String
unfolding format_date two_digits
iso_format moment =
    let fraction = moment % 1000000 in
    format_date moment
    ⊕ "T"
    ⊕ two_digits (moment / 3600000000 % 24)
    ⊕ ":"
    ⊕ two_digits (moment / 60000000 % 60)
    ⊕ ":"
    ⊕ two_digits (moment / 1000000 % 60)
    ⊕ (if fraction == 0
        then ""
        else "."
          ⊕ two_digits (fraction / 10000)
          ⊕ two_digits (fraction / 100 % 100)
          ⊕ two_digits (fraction % 100))
    ⊕ "+00:00"

-- `weekday()` of a day that is counted from 0000-03-01, a Wednesday; Monday is 0.
abbrev pub weekday : ℕ → ℕ
weekday day = (day + 2) % 7

-- 2024-02-29 was a Thursday.
weekday_test : weekday (day_of 1709209800000000) ≡ 3
weekday_test = refl

iso_test : iso_format 1709209800000250 ≡ "2024-02-29T12:30:00.000250+00:00"
unfolding iso_format
iso_test = refl

leap_day_test : format_minute 1709209800000000 ≡ "2024-02-29 12:30"
unfolding format_minute
leap_day_test = refl

epoch_test : format_date 0 ≡ "1970-01-01"
unfolding format_date
epoch_test = refl

new_year_test : format_date 1798761599000000 ≡ "2026-12-31"
unfolding format_date
new_year_test = refl
