-- ===== src/Timefmt.antt =====
-- src/timefmt.rs: dates of the proleptic Gregorian calendar, counted from 1970-01-01.
pub mod Table
pub mod Civil
pub mod Inverse
pub mod Years
pub mod Stamp
pub mod Shape
mod Tests
use scanr.Common.{ℕ, ◌+◌, ◌-◌, ◌*◌, ◌/◌, ◌%◌, ltb, leb, if◌then◌else◌}
use scanr.Common.Int.{ℤ, pos, pos_part, ◌+ℤ◌, ◌-ℤ◌, times, div_trunc, div_euclid, is_negative}

-- the days of an era before its year `yoe`, which begins in March
abbrev pub before_year : ℕ → ℕ
before_year yoe = yoe * 365 + yoe / 4 - yoe / 100

-- the days of a year before the month of this number, from March on
abbrev pub before_month : ℕ → ℕ
before_month mp = (153 * mp + 2) / 5

-- `yoe` is never negative
unfoldable pub days_from_civil : ℤ → ℕ → ℕ → ℤ
days_from_civil y m d =
    let y' = if leb m 2 then y -ℤ pos 1 else y in
    let era = div_euclid y' 400 in
    let yoe = pos_part (y' -ℤ times era 400) in
    let mp = (m + 9) % 12 in
    let doy = pos (before_month mp + d) -ℤ pos 1 in
    let doe = pos (before_year yoe) +ℤ doy in (times era 146_097 +ℤ doe) -ℤ pos 719_468

abbrev pub year_of_era : ℕ → ℕ
year_of_era doe = (doe - doe / 1460 + doe / 36_524 - doe / 146_096) / 365

abbrev pub month_of : ℕ → ℕ
month_of mp = if ltb mp 10 then mp + 3 else mp - 9

abbrev pub era_of : ℤ → ℤ
era_of z = div_trunc (if is_negative z then z -ℤ pos 146_096 else z) 146_097

-- the date of a day, whose place in the era is `doe`
abbrev pub date_in : ℤ → ℕ → ℤ × ℕ × ℕ
date_in era doe =
    let yoe = year_of_era doe in
    let y = pos yoe +ℤ times era 400 in
    let doy = doe - before_year yoe in
    let mp = (5 * doy + 2) / 153 in
    let d = doy - before_month mp + 1 in
    let m = month_of mp in ((if leb m 2 then y +ℤ pos 1 else y), m, d)

-- `doe` is never negative
unfoldable pub civil_from_days : ℤ → ℤ × ℕ × ℕ
civil_from_days z =
    let w = z +ℤ pos 719_468 in
    let era = era_of w in date_in era (pos_part (w -ℤ times era 146_097))
