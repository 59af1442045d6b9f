-- ===== src/Net/Target/Parse.antt =====
-- The parser of target specifications in src/net/target.rs.
pub mod Laws
use scanr.Common.{
  ℕ, ◌+◌, ◌-◌, Bool, true, false, not, ◌&&◌, ◌||◌, Option, none, some, List, [], ◌∷◌, ◌++◌, length,
  ltb, leb, ◌==◌, if◌then◌else◌,
}
use scanr.Common.Result.{Result, ok, err, ◌>>=◌, ◌>>◌}
use scanr.Common.Text.{
  Text, codes, is_empty, between, trim, split, split_once, is_ascii_digit, all_digits, parse_uint,
}
use scanr.Common.Text.Utf8.{as_bytes}
use scanr.Net.Addr.{IpAddr, v4, v6}
use scanr.Net.Target.{TargetSpec, addr, cidr, range, host, number, mask, width, same_family}

pub data TargetParseError : Type 0 where
  empty : TargetParseError
  malformed : Text → TargetParseError
  bad_prefix : Text → ℕ → ℕ → Text → TargetParseError
  mixed_families : Text → TargetParseError
  reversed_range : Text → TargetParseError
  looks_like_bad_ip : Text → TargetParseError
  bad_hostname : Text → TargetParseError

abbrev family_name : IpAddr → Text
family_name (v4 n) = codes "IPv4"
family_name (v6 n) = codes "IPv6"

abbrev pub prefixed : Text → IpAddr → Option ℕ → Result TargetParseError TargetSpec
prefixed spec a none = err (malformed spec)
prefixed spec a (some prefix) =
    if ltb (width a) prefix
    then err (bad_prefix spec prefix (width a) (family_name a))
    else ok (cidr (mask a prefix) prefix)

abbrev pub cidr_of : Text → Option IpAddr → Text → Result TargetParseError TargetSpec
cidr_of spec none prefix = err (malformed spec)
cidr_of spec (some a) prefix = prefixed spec a (parse_uint 255 prefix)

unfoldable pub parse_cidr :
    (Text → Option IpAddr) → Text → Text → Text → Result TargetParseError TargetSpec
unfolding mask parse_uint
parse_cidr parse_ip spec base prefix = cidr_of spec (parse_ip base) prefix

-- `trim_end_matches`
unfoldable trim_end_matches : ℕ → Text → Text
trim_end_matches c [] = []
trim_end_matches c (d ∷ s) =
    let rest = trim_end_matches c s in if is_empty rest && d == c then [] else d ∷ rest

unfoldable pub is_hexdigit : ℕ → Bool
is_hexdigit c = is_ascii_digit c || between b'a' b'f' c || between b'A' b'F' c

unfoldable pub is_label_byte : ℕ → Bool
is_label_byte c =
    is_ascii_digit c || between b'a' b'z' c || between b'A' b'Z' c || c == b'-' || c == b'_'

abbrev all_chars : (ℕ → Bool) → Text → Bool
all_chars p [] = true
all_chars p (c ∷ s) = p c && all_chars p s

abbrev all_texts : (Text → Bool) → List Text → Bool
all_texts p [] = true
all_texts p (t ∷ ts) = p t && all_texts p ts

abbrev starts_with_dash : Text → Bool
starts_with_dash [] = false
starts_with_dash (c ∷ s) = c == b'-'

abbrev ends_with_dash : Text → Bool
ends_with_dash [] = false
ends_with_dash (c ∷ []) = c == b'-'
ends_with_dash (c ∷ d ∷ s) = ends_with_dash (d ∷ s)

abbrev is_short_label : Text → Bool
is_short_label l = not (is_empty l) && leb (length (as_bytes l)) 63

abbrev is_label : Text → Bool
is_label l = not (starts_with_dash l) && not (ends_with_dash l) && all_chars is_label_byte l

unfoldable pub validate_hostname : Text → Result TargetParseError (Unit {0})
unfolding trim_end_matches is_hexdigit is_label_byte
validate_hostname s =
    if ltb 253 (length (as_bytes s))
    then err (bad_hostname s)
    else if all_texts (λ l. not (is_empty l) && all_digits l) (split b'.' s)
    then err (looks_like_bad_ip s)
    else if ltb 1 (length (split b':' s)) && all_chars (λ c. is_hexdigit c || c == b':') s
    then err (looks_like_bad_ip s)
    else if all_texts is_short_label (split b'.' (trim_end_matches b'.' s))
    then (if all_texts is_label (split b'.' (trim_end_matches b'.' s))
        then ok tt
        else err (bad_hostname s))
    else err (bad_hostname s)

unfoldable pub range_of : Text → IpAddr → IpAddr → Result TargetParseError TargetSpec
unfolding number
range_of s start end =
    if not (same_family start end)
    then err (mixed_families s)
    else if ltb (number end) (number start)
    then err (reversed_range s)
    else ok (range start end)

abbrev pub both_of : Option IpAddr → Option IpAddr → Option (IpAddr × IpAddr)
both_of (some a) (some b) = some (a, b)
both_of _ _ = none

-- the halves of a range, when both of them are addresses
abbrev pub ends_of : (Text → Option IpAddr) → Option (Text × Text) → Option (IpAddr × IpAddr)
ends_of parse_ip none = none
ends_of parse_ip (some (a, b)) = both_of (parse_ip (trim a)) (parse_ip (trim b))

abbrev pub single_of : Text → Option IpAddr → Result TargetParseError TargetSpec
single_of s (some a) = ok (addr a)
single_of s none = validate_hostname s >> ok (host s)

abbrev pub range_or_single :
    (Text → Option IpAddr) → Text → Option (IpAddr × IpAddr) → Result TargetParseError TargetSpec
range_or_single parse_ip s (some (start, end)) = range_of s start end
range_or_single parse_ip s none = single_of s (parse_ip s)

abbrev pub slashed :
    (Text → Option IpAddr) → Text → Option (Text × Text) → Result TargetParseError TargetSpec
slashed parse_ip s (some (base, prefix)) = parse_cidr parse_ip s (trim base) (trim prefix)
slashed parse_ip s none = range_or_single parse_ip s (ends_of parse_ip (split_once b'-' s))

-- `parse_ip` reads an address, as `str::parse` of std does
unfoldable pub parse_target : (Text → Option IpAddr) → Text → Result TargetParseError TargetSpec
unfolding parse_cidr validate_hostname range_of
parse_target parse_ip input =
    let s = trim input in if is_empty s then err empty else slashed parse_ip s (split_once b'/' s)
