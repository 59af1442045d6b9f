-- ===== src/Timefmt/Stamp.antt =====
-- The printed stamps of src/timefmt.rs, and the test of their shape.
use scanr.Common.{
  ℕ, zero, suc, ◌-◌, ◌/◌, ◌%◌, ◌^◌, Bool, false, not, ◌&&◌, Option, none, some, [], ◌∷◌, ◌++◌, ltb,
  leb, ◌==◌, if◌then◌else◌, length, take, drop, get_or,
}
use scanr.Common.Int.{ℤ, pos, negsuc, div_euclid}
use scanr.Common.Text.{Text, decimal, parse_uint, all_digits}
use scanr.Timefmt.{civil_from_days}

abbrev pub zeros : ℕ → Text
zeros zero = []
zeros (suc k) = b'0' ∷ zeros k

-- `{n:0width}`
unfoldable pub padded : ℕ → ℕ → Text
padded width n = zeros (width - length (decimal n)) ++ decimal n

-- `{y:04}` of an `i64`, where a sign counts
abbrev pub padded_year : ℤ → Text
padded_year (pos n) = padded 4 n
padded_year (negsuc n) = b'-' ∷ padded 3 (suc n)

-- a stamp with these separators, up to its seconds
abbrev pub up_to_seconds : ℕ → ℕ → ℤ × ℕ × ℕ → ℕ → Text
up_to_seconds dash colon date rem =
    padded_year date.0
    ++ dash ∷ padded 2 date.1
    ++ dash ∷ padded 2 date.2
    ++ b'T' ∷ padded 2 (rem / 3600)
    ++ colon ∷ padded 2 (rem % 3600 / 60)
    ++ colon ∷ padded 2 (rem % 60)

-- The seconds are never negative, so that `rem_euclid` is the remainder.
unfoldable pub rfc3339_ms : ℕ → Text
rfc3339_ms epoch_ms =
    let secs = epoch_ms / 1000 in
    let ms = epoch_ms % 1000 in
    let days = div_euclid (pos secs) 86_400 in
    let rem = secs % 86_400 in
    up_to_seconds b'-' b':' (civil_from_days days) rem ++ b'.' ∷ padded 3 ms ++ b'Z' ∷ []

unfoldable pub filename_stamp : ℕ → Text
filename_stamp epoch_ms =
    let secs = epoch_ms / 1000 in
    let days = div_euclid (pos secs) 86_400 in
    let rem = secs % 86_400 in up_to_seconds b'_' b'_' (civil_from_days days) rem ++ b'Z' ∷ []

-- the bytes from one place to another
abbrev pub slice : Text → ℕ → ℕ → Text
slice b from to = take (to - from) (drop from b)

abbrev pub u32_or_max : Option ℕ → ℕ
u32_or_max (some n) = n
u32_or_max none = 2 ^ 32 - 1

abbrev pub number_in : Text → ℕ → ℕ → ℕ
number_in b from to = u32_or_max (parse_uint (2 ^ 32 - 1) (slice b from to))

abbrev pub has_digits : Text → Bool
has_digits b =
    all_digits (slice b 0 4)
    && all_digits (slice b 5 7)
    && all_digits (slice b 8 10)
    && all_digits (slice b 11 13)
    && all_digits (slice b 14 16)
    && all_digits (slice b 17 19)
    && all_digits (slice b 20 23)

abbrev pub has_separators : Text → Bool
has_separators b =
    get_or b 4 0 == b'-'
    && get_or b 7 0 == b'-'
    && get_or b 10 0 == b'T'
    && get_or b 13 0 == b':'
    && get_or b 16 0 == b':'
    && get_or b 19 0 == b'.'
    && get_or b 23 0 == b'Z'

abbrev pub in_ranges : ℕ → ℕ → ℕ → ℕ → ℕ → Bool
in_ranges mo d h mi sec =
    (leb 1 mo && leb mo 12) && (leb 1 d && leb d 31) && ltb h 24 && ltb mi 60 && leb sec 60

-- of the bytes of a string
unfoldable pub is_rfc3339_ms : Text → Bool
is_rfc3339_ms b =
    if not (length b == 24)
    then false
    else if not (has_digits b)
    then false
    else if not (has_separators b)
    then false
    else in_ranges (number_in b 5 7) (number_in b 8 10) (number_in b 11 13) (number_in b 14 16)
        (number_in b 17 19)
