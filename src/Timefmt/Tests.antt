-- ===== src/Timefmt/Tests.antt =====
-- Runs of the date algorithms of src/timefmt.rs.
use scanr.Common.{◌≡◌, refl}
use scanr.Common.Int.{pos, negsuc, ◌+ℤ◌, ◌-ℤ◌, times, div_trunc}
use scanr.Timefmt.{days_from_civil, civil_from_days}
use scanr.Common.{true, arith}
use scanr.Common.Int.{div_euclid}
use scanr.Common.Text.{codes, decimal}
use scanr.Timefmt.Stamp.{padded, rfc3339_ms, filename_stamp, is_rfc3339_ms}
use scanr.Timefmt.Shape.{is_rfc3339_ms-rfc3339_ms}
use scanr.Timefmt.Inverse.{IsDate, days_from_civil-civil_from_days}

-- leap days, of a year that is a multiple of 400 and of 1968
leap_day_2000 : civil_from_days (pos 11_016) ≡ (pos 2000, 2, 29)
unfolding civil_from_days ◌+ℤ◌ ◌-ℤ◌ times div_trunc
leap_day_2000 = refl

leap_day_1968 : civil_from_days (negsuc 671) ≡ (pos 1968, 2, 29)
unfolding civil_from_days ◌+ℤ◌ ◌-ℤ◌ times div_trunc
leap_day_1968 = refl

days_from_civil-civil_from_days_example :
    IsDate (civil_from_days (negsuc 671))
    × (days_from_civil
          (civil_from_days (negsuc 671)).0
          (civil_from_days (negsuc 671)).1
          (civil_from_days (negsuc 671)).2
        ≡ negsuc 671)
days_from_civil-civil_from_days_example = days_from_civil-civil_from_days (negsuc 671)

stamp_example : rfc3339_ms 1_785_294_704_201 ≡ codes "2026-07-29T03:11:44.201Z"
unfolding rfc3339_ms civil_from_days ◌+ℤ◌ ◌-ℤ◌ times div_trunc div_euclid padded decimal
stamp_example = refl

filename_example : filename_stamp 1_709_208_000_000 ≡ codes "2024_02_29T12_00_00Z"
unfolding filename_stamp civil_from_days ◌+ℤ◌ ◌-ℤ◌ times div_trunc div_euclid padded decimal
filename_example = refl

is_rfc3339_ms-rfc3339_ms_example : is_rfc3339_ms (rfc3339_ms 1_785_294_704_201) ≡ true
is_rfc3339_ms-rfc3339_ms_example = is_rfc3339_ms-rfc3339_ms 1_785_294_704_201 (omega arith)
