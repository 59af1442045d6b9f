-- ===== src/Timefmt/Inverse.antt =====
-- `days_from_civil` undoes `civil_from_days` in src/timefmt.rs.
use scanr.Common.{
  ℕ, ◌+◌, ◌-◌, ◌*◌, ◌/◌, ◌≤◌, ◌<◌, ◌≡◌, refl, ◌∙◌, Bool, true, false, leb, if◌then◌else◌, arith,
}
use scanr.Common.Int.{ℤ, pos, ◌+ℤ◌, ◌-ℤ◌, times, +ℤ_parts, -ℤ_parts, times_parts, eq_of_parts}
use scanr.Timefmt.{
  before_year, before_month, year_of_era, month_of, era_of, date_in, days_from_civil,
  civil_from_days,
}
use scanr.Timefmt.Civil.{
  year_of_era-IsInYear, month-IsDay, month_of-IsMonth, era_of-IsInEra, div_euclid-era,
}

-- the year moves on in January, and is moved back
moved_year :
    (b : Bool) (y : ℤ)
    → (if b then (if b then y +ℤ pos 1 else y) -ℤ pos 1 else (if b then y +ℤ pos 1 else y)) ≡ y
moved_year true y =
    eq_of_parts (y +ℤ pos 1 -ℤ pos 1) y
      (omega (arith, +ℤ_parts y (pos 1), -ℤ_parts (y +ℤ pos 1) (pos 1)))
moved_year false y = refl

year_apart : (era : ℤ) (yoe : ℕ) → pos yoe +ℤ times era 400 -ℤ times era 400 ≡ pos yoe
year_apart era yoe = eq_of_parts (pos yoe +ℤ times era 400 -ℤ times era 400) (pos yoe) (
    omega (
      arith,
      +ℤ_parts (pos yoe) (times era 400),
      -ℤ_parts (pos yoe +ℤ times era 400) (times era 400),
    ))

-- A date in range.
pub record IsDate (date : ℤ × ℕ × ℕ) : Type 0 where
  pub from_january : 1 ≤ date.1
  pub to_december : date.1 ≤ 12
  pub from_first : 1 ≤ date.2
  pub to_last : date.2 ≤ 31

date_in-days :
    (era : ℤ) (doe : ℕ)
    → doe < 146_097
    → IsDate (date_in era doe)
      × (days_from_civil (date_in era doe).0 (date_in era doe).1 (date_in era doe).2
          ≡ times era 146_097 +ℤ pos doe -ℤ pos 719_468)
unfolding days_from_civil
date_in-days era doe l =
    let yoe = year_of_era doe in
    let y = year_of_era-IsInYear doe l in
    let doy = doe - before_year yoe in
    let mp = (5 * doy + 2) / 153 in
    let d = month-IsDay doy (omega (arith, y.near, y.begun)) in
    let (first, last, march, winter) = month_of-IsMonth mp d.month in
    let year : ℤ = pos yoe +ℤ times era 400 in
    let first_of = pos (before_month mp + (doy - before_month mp + 1)) -ℤ pos 1 in
    let inner : pos (before_year yoe) +ℤ first_of ≡ pos doe =
      eq_of_parts (pos (before_year yoe) +ℤ first_of) (pos doe) (
        omega (
          arith,
          +ℤ_parts (pos (before_year yoe)) first_of,
          -ℤ_parts (pos (before_month mp + (doy - before_month mp + 1))) (pos 1),
          d.together,
          y.begun,
        )) in
    (
      record { from_january = first; to_december = last; from_first = d.first; to_last = d.last },
      rw
          (
            moved_year (leb (month_of mp) 2) year,
            div_euclid-era era yoe y.within,
            year_apart era yoe,
            march,
            inner,
          )
          refl,
    )

-- For every day, counted from 1970-01-01 in either direction, `civil_from_days` gives a month from 1 to 12 and a
-- day from 1 to 31, and `days_from_civil` of that date is the day again.
pub days_from_civil-civil_from_days :
    (z : ℤ)
    → IsDate (civil_from_days z)
      × (days_from_civil (civil_from_days z).0 (civil_from_days z).1 (civil_from_days z).2 ≡ z)
unfolding civil_from_days
days_from_civil-civil_from_days z =
    let w = z +ℤ pos 719_468 in
    let era = era_of w in
    let e = era_of-IsInEra w in
    let offset : w -ℤ times era 146_097 ≡ pos e.place =
      eq_of_parts (w -ℤ times era 146_097) (pos e.place)
        (omega (arith, -ℤ_parts w (times era 146_097), times_parts era 146_097, e.split)) in
    let (date, days) = date_in-days era e.place e.within in
    let back : times era 146_097 +ℤ pos e.place -ℤ pos 719_468 ≡ z =
      eq_of_parts (times era 146_097 +ℤ pos e.place -ℤ pos 719_468) z (
        omega (
          arith,
          +ℤ_parts z (pos 719_468),
          times_parts era 146_097,
          +ℤ_parts (times era 146_097) (pos e.place),
          -ℤ_parts (times era 146_097 +ℤ pos e.place) (pos 719_468),
          e.split,
        )) in
    (rw offset date, rw offset (days ∙ back))
