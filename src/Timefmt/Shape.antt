-- ===== src/Timefmt/Shape.antt =====
-- The stamps that `rfc3339_ms` of src/timefmt.rs prints have the shape that `is_rfc3339_ms` asks for.
use scanr.Common.{
  ℕ, ◌+◌, ◌-◌, ◌/◌, ◌%◌, ◌^◌, ◌≤◌, ◌<◌, ◌≡◌, refl, Bool, true, [], ◌∷◌, ◌++◌, ◌==◌, arith,
}
use scanr.Common.Int.{pos, div_euclid}
use scanr.Common.Text.{Text, decimal, parse_uint, all_digits, is_ascii_digit, text_eq}
use scanr.Common.Text.Equality.{text_eq→≡}
use scanr.Timefmt.Table.{passes, passes-at}
use scanr.Timefmt.{civil_from_days}
use scanr.Timefmt.Inverse.{days_from_civil-civil_from_days}
use scanr.Timefmt.Years.{civil_from_days-IsYear}
use scanr.Timefmt.Stamp.{padded, rfc3339_ms, is_rfc3339_ms, u32_or_max, in_ranges}

abbrev shown_digit : ℕ → ℕ
shown_digit d = b'0' + d

abbrev two : ℕ → Text
two n = shown_digit (n / 10) ∷ shown_digit (n % 10) ∷ []

abbrev three : ℕ → Text
three n = shown_digit (n / 100) ∷ two (n % 100)

abbrev four : ℕ → Text
four n = shown_digit (n / 1000) ∷ three (n % 1000)

shown_digit-IsDigit : (d : ℕ) → d < 10 → is_ascii_digit (shown_digit d) ≡ true
unfolding is_ascii_digit
shown_digit-IsDigit d l = ground arith

-- two digits are read as the number they show
shows : ℕ → Bool
unfolding parse_uint
shows n = u32_or_max (parse_uint (2 ^ 32 - 1) (two n)) == n

shows_table : passes shows 100 ≡ true
unfolding passes shows parse_uint
shows_table = refl

number-two : (n : ℕ) → n < 100 → u32_or_max (parse_uint (2 ^ 32 - 1) (two n)) ≡ n
unfolding shows
number-two n l = let h : shows n ≡ true = passes-at shows 100 n l shows_table in ground (arith, h)

two_table : passes (λ n. text_eq (padded 2 n) (two n)) 100 ≡ true
unfolding passes text_eq padded decimal
two_table = refl

three_table : passes (λ n. text_eq (padded 3 n) (three n)) 1000 ≡ true
unfolding passes text_eq padded decimal
three_table = refl

four_table : passes (λ n. text_eq (padded 4 n) (four n)) 10_000 ≡ true
unfolding passes text_eq padded decimal
four_table = refl

padded-two : (n : ℕ) → n < 100 → padded 2 n ≡ two n
padded-two n l =
    text_eq→≡ (padded 2 n) (two n) (passes-at (λ n. text_eq (padded 2 n) (two n)) 100 n l two_table)

padded-three : (n : ℕ) → n < 1000 → padded 3 n ≡ three n
padded-three n l =
    text_eq→≡ (padded 3 n) (three n)
      (passes-at (λ n. text_eq (padded 3 n) (three n)) 1000 n l three_table)

padded-four : (n : ℕ) → n < 10_000 → padded 4 n ≡ four n
padded-four n l =
    text_eq→≡ (padded 4 n) (four n)
      (passes-at (λ n. text_eq (padded 4 n) (four n)) 10_000 n l four_table)

all_digits-two : (n : ℕ) → n < 100 → all_digits (two n) ≡ true
unfolding all_digits
all_digits-two n l =
    rw (shown_digit-IsDigit (n / 10) (omega arith), shown_digit-IsDigit (n % 10) (omega arith)) refl

all_digits-three : (n : ℕ) → n < 1000 → all_digits (three n) ≡ true
unfolding all_digits
all_digits-three n l =
    rw (shown_digit-IsDigit (n / 100) (omega arith), all_digits-two (n % 100) (omega arith)) refl

all_digits-four : (n : ℕ) → n < 10_000 → all_digits (four n) ≡ true
unfolding all_digits
all_digits-four n l =
    rw (shown_digit-IsDigit (n / 1000) (omega arith), all_digits-three (n % 1000) (omega arith))
      refl

-- a stamp with these parts
abbrev stamp_of : ℕ → ℕ → ℕ → ℕ → ℕ → ℕ → ℕ → Text
stamp_of y mo d h mi s ms =
    four y
    ++ b'-' ∷ two mo
    ++ b'-' ∷ two d
    ++ b'T' ∷ two h
    ++ b':' ∷ two mi
    ++ b':' ∷ two s
    ++ b'.' ∷ three ms
    ++ b'Z' ∷ []

stamp_of-accepted :
    (y mo d h mi s ms : ℕ)
    → y < 10_000
    → ((1 ≤ mo) × (mo ≤ 12))
    → ((1 ≤ d) × (d ≤ 31))
    → h < 24
    → mi < 60
    → s < 60
    → ms < 1000
    → is_rfc3339_ms (stamp_of y mo d h mi s ms) ≡ true
unfolding is_rfc3339_ms
stamp_of-accepted y mo d h mi s ms ly lmo ld lh lmi ls lms =
    let ranges : in_ranges mo d h mi s ≡ true = ground arith in
    rw
      (
        all_digits-four y ly,
        all_digits-two mo (omega arith),
        all_digits-two d (omega arith),
        all_digits-two h (omega arith),
        all_digits-two mi (omega arith),
        all_digits-two s (omega arith),
        all_digits-three ms lms,
        number-two mo (omega arith),
        number-two d (omega arith),
        number-two h (omega arith),
        number-two mi (omega arith),
        number-two s (omega arith),
        ranges,
      )
      refl

-- `is_rfc3339_ms` accepts what `rfc3339_ms` prints for every number of milliseconds since 1970 up to the end
-- of the year 9999.
pub is_rfc3339_ms-rfc3339_ms :
    (epoch_ms : ℕ) → epoch_ms < 253_402_300_800_000 → is_rfc3339_ms (rfc3339_ms epoch_ms) ≡ true
unfolding rfc3339_ms div_euclid
is_rfc3339_ms-rfc3339_ms epoch_ms l =
    let days = epoch_ms / 1000 / 86_400 in
    let rem = epoch_ms / 1000 % 86_400 in
    let date = civil_from_days (pos days) in
    let y = civil_from_days-IsYear days (omega arith) in
    let d = (days_from_civil-civil_from_days (pos days)).0 in
    rw
      (
        y.is,
        padded-four y.year y.short,
        padded-two date.1 (omega (arith, d.to_december)),
        padded-two date.2 (omega (arith, d.to_last)),
        padded-two (rem / 3600) (omega arith),
        padded-two (rem % 3600 / 60) (omega arith),
        padded-two (rem % 60) (omega arith),
        padded-three (epoch_ms % 1000) (omega arith),
      )
      (stamp_of-accepted y.year date.1 date.2 (rem / 3600) (rem % 3600 / 60) (rem % 60)
        (epoch_ms % 1000) y.short (d.from_january, d.to_december) (d.from_first, d.to_last)
        (omega arith) (omega arith) (omega arith) (omega arith))
