-- ===== src/Timefmt/Years.antt =====
-- The years of the dates that `civil_from_days` of src/timefmt.rs gives from 1970 on.
use scanr.Common.{
  ℕ, ◌+◌, ◌-◌, ◌*◌, ◌/◌, ◌%◌, ◌≤◌, ◌<◌, ◌≡◌, refl, Bool, true, false, leb, if◌then◌else◌, arith,
}
use scanr.Common.Int.{ℤ, pos, ◌+ℤ◌, ◌-ℤ◌, times, +ℤ_parts, -ℤ_parts, times_parts, eq_of_parts}
use scanr.Timefmt.{before_year, year_of_era, month_of, date_in, civil_from_days}
use scanr.Timefmt.Civil.{year_of_era-IsInYear, month-IsDay, month_of-IsMonth, era_of_pos}

-- The year is a number of four digits at most.
pub record IsYear (y : ℤ) : Type 0 where
  pub year : ℕ
  pub is : y ≡ pos year
  pub short : year < 10_000

moved-IsYear :
    (b : Bool) (y : ℕ)
    → y < 10_000
    → (b ≡ true → y < 9_999)
    → IsYear (if b then pos y +ℤ pos 1 else pos y)
moved-IsYear true y l h = record {
  year = y + 1;
  is = eq_of_parts (pos y +ℤ pos 1) (pos (y + 1)) (omega (arith, +ℤ_parts (pos y) (pos 1)));
  short = omega (arith, h refl);
}
moved-IsYear false y l h = record { year = y; is = refl; short = l }

-- The year 10000 begins 306 days after the March of its year of the era.
date_in-IsYear :
    (era doe : ℕ)
    → doe < 146_097
    → era * 146_097 + doe ≤ 3_652_364
    → IsYear (date_in (pos era) doe).0
date_in-IsYear era doe l last =
    let yoe = year_of_era doe in
    let y = year_of_era-IsInYear doe l in
    let doy = doe - before_year yoe in
    let mp = (5 * doy + 2) / 153 in
    let d = month-IsDay doy (omega (arith, y.near, y.begun)) in
    let (_, _, _, winter) = month_of-IsMonth mp d.month in
    let whole : pos yoe +ℤ times (pos era) 400 ≡ pos (yoe + era * 400) =
      eq_of_parts (pos yoe +ℤ times (pos era) 400) (pos (yoe + era * 400))
        (omega (arith, +ℤ_parts (pos yoe) (times (pos era) 400), times_parts (pos era) 400)) in
    let early : leb (month_of mp) 2 ≡ true → yoe + era * 400 < 9_999 = λ h.
      (let late : 10 ≤ mp = ground (arith, winter, h) in omega (arith, y.within, y.begun, late)) in
    rw whole (moved-IsYear (leb (month_of mp) 2) (yoe + era * 400) (omega (arith, y.within)) early)

pub civil_from_days-IsYear : (n : ℕ) → n ≤ 2_932_896 → IsYear (civil_from_days (pos n)).0
unfolding civil_from_days
civil_from_days-IsYear n l =
    let m = n + 719_468 in
    let era = m / 146_097 in
    let w : pos n +ℤ pos 719_468 ≡ pos m =
      eq_of_parts (pos n +ℤ pos 719_468) (pos m) (omega (arith, +ℤ_parts (pos n) (pos 719_468))) in
    let offset : pos m -ℤ times (pos era) 146_097 ≡ pos (m % 146_097) =
      eq_of_parts (pos m -ℤ times (pos era) 146_097) (pos (m % 146_097)) (
        omega (arith, -ℤ_parts (pos m) (times (pos era) 146_097), times_parts (pos era) 146_097)) in
    rw (w, era_of_pos m, offset) (date_in-IsYear era (m % 146_097) (omega arith) (omega arith))
