-- ===== src/Timefmt/Civil.antt =====
-- The parts of the date algorithms of src/timefmt.rs: eras, years of an era, and months.
use scanr.Common.{
  ℕ, suc, ◌+◌, ◌-◌, ◌*◌, ◌/◌, ◌%◌, ◌≤◌, ◌<◌, ◌≡◌, refl, inl, inr, Bool, true, false, not, ◌&&◌, ltb,
  leb, Bool-cases, arith,
}
use scanr.Common.Int.{
  ℤ, pos, negsuc, pos_part, neg_part, ◌+ℤ◌, ◌-ℤ◌, times, div_trunc, div_euclid, +ℤ_parts, -ℤ_parts,
  times_parts, eq_of_parts,
}
use scanr.Timefmt.Table.{passes, passes-at}
use scanr.Timefmt.{before_year, before_month, year_of_era, month_of, era_of}

-- the start of the year, and how far the day is behind it
fits : ℕ → ℕ → Bool
fits doe yoe = leb (before_year yoe) doe && ltb doe (before_year yoe + 366) && ltb yoe 400

-- 400 rounds of 366 days each cover an era
in_year : ℕ → ℕ → Bool
in_year y d = fits (y * 366 + d) (year_of_era (y * 366 + d))

year_table : passes (λ y. passes (in_year y) 366) 399 ≡ true
unfolding passes in_year fits
year_table = refl

rest_table : passes (in_year 399) 63 ≡ true
unfolding passes in_year fits
rest_table = refl

pub record IsInYear (doe yoe : ℕ) : Type 0 where
  pub begun : before_year yoe ≤ doe
  pub near : doe < before_year yoe + 366
  pub within : yoe < 400

fits-IsInYear : (doe yoe : ℕ) → fits doe yoe ≡ true → IsInYear doe yoe
unfolding fits
fits-IsInYear doe yoe h = record {
  begun = ground (arith, h);
  near = ground (arith, h);
  within = ground (arith, h);
}

-- Each of the 146,097 days of an era lies in the year that is computed for it.
pub year_of_era-IsInYear : (doe : ℕ) → doe < 146_097 → IsInYear doe (year_of_era doe)
unfolding in_year
year_of_era-IsInYear doe l =
    fits-IsInYear doe (year_of_era doe) (elim (Bool-cases (ltb doe 146_034)) [
      | inl h ↦
          (let row : passes (in_year (doe / 366)) 366 ≡ true =
              passes-at (λ y. passes (in_year y) 366) 399 (doe / 366) (ground arith) year_table in
            let one : in_year (doe / 366) (doe % 366) ≡ true =
              passes-at (in_year (doe / 366)) 366 (doe % 366) (omega arith) row in
            let same : doe / 366 * 366 + doe % 366 ≡ doe = omega arith in (rw same at one))
      | inr h ↦
          (let one : in_year 399 (doe - 146_034) ≡ true =
              passes-at (in_year 399) 63 (doe - 146_034) (ground arith) rest_table in
            let same : 399 * 366 + (doe - 146_034) ≡ doe = ground arith in (rw same at one))
    ])

-- What is computed for a day of the year: its month, and its day in it.
pub record IsDay (doy mp d : ℕ) : Type 0 where
  pub month : mp < 12
  pub first : 1 ≤ d
  pub last : d ≤ 31
  pub together : before_month mp + d ≡ doy + 1

pub month-IsDay :
    (doy : ℕ)
    → doy < 366
    → IsDay doy ((5 * doy + 2) / 153) (doy - before_month ((5 * doy + 2) / 153) + 1)
month-IsDay doy l = record {
  month = omega arith;
  first = omega arith;
  last = omega arith;
  together = omega arith;
}

-- The number of a month, from January and from March on.
pub month_of-IsMonth :
    (mp : ℕ)
    → mp < 12
    → (1 ≤ month_of mp)
      × (month_of mp ≤ 12)
      × ((month_of mp + 9) % 12 ≡ mp)
      × (leb (month_of mp) 2 ≡ not (ltb mp 10))
month_of-IsMonth mp l = (ground arith, ground arith, ground arith, ground arith)

-- The era of a day, and the place in it.
pub record IsInEra (w era : ℤ) : Type 0 where
  pub place : ℕ
  pub within : place < 146_097
  pub split : pos_part w + neg_part era * 146_097 ≡ neg_part w + pos_part era * 146_097 + place

pub era_of_pos : (n : ℕ) → era_of (pos n) ≡ pos (n / 146_097)
unfolding div_trunc
era_of_pos n = let h : ltb n 0 ≡ false = ground arith in rw h refl

era_of_negsuc : (n : ℕ) → era_of (negsuc n) ≡ negsuc (n / 146_097)
unfolding div_trunc
era_of_negsuc n =
    let h : ltb 0 (suc n) ≡ true = ground arith in
    let shifted : negsuc n -ℤ pos 146_096 ≡ negsuc (n + 146_096) =
      eq_of_parts (negsuc n -ℤ pos 146_096) (negsuc (n + 146_096))
        (omega (arith, -ℤ_parts (negsuc n) (pos 146_096))) in
    rw (h, shifted) (ground arith)

pub era_of-IsInEra : (w : ℤ) → IsInEra w (era_of w)
era_of-IsInEra (pos n) = record {
  place = n % 146_097;
  within = omega arith;
  split = rw (era_of_pos n) (omega arith);
}
era_of-IsInEra (negsuc n) = record {
  place = 146_096 - n % 146_097;
  within = omega arith;
  split = rw (era_of_negsuc n) (omega arith);
}

-- The year that is put together from an era and its year comes apart again.
pub div_euclid-era :
    (era : ℤ) (yoe : ℕ) → yoe < 400 → div_euclid (pos yoe +ℤ times era 400) 400 ≡ era
unfolding div_euclid
div_euclid-era (pos e) yoe l =
    let whole : pos yoe +ℤ times (pos e) 400 ≡ pos (yoe + e * 400) =
      eq_of_parts (pos yoe +ℤ times (pos e) 400) (pos (yoe + e * 400))
        (omega (arith, +ℤ_parts (pos yoe) (times (pos e) 400), times_parts (pos e) 400)) in
    let year : (yoe + e * 400) / 400 ≡ e = omega arith in rw (whole, year) refl
div_euclid-era (negsuc e) yoe l =
    let whole : pos yoe +ℤ times (negsuc e) 400 ≡ negsuc (e * 400 + (399 - yoe)) =
      eq_of_parts (pos yoe +ℤ times (negsuc e) 400) (negsuc (e * 400 + (399 - yoe)))
        (omega (arith, +ℤ_parts (pos yoe) (times (negsuc e) 400), times_parts (negsuc e) 400)) in
    let year : (e * 400 + (399 - yoe)) / 400 ≡ e = omega arith in rw (whole, year) refl
