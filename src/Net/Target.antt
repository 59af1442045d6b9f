-- ===== src/Net/Target.antt =====
-- Targets of src/net/target.rs: what a specification covers, and the expansion of a set of them.
pub mod Parse
pub mod Network
pub mod Interval
pub mod Matches
pub mod Equality
pub mod Expand
mod Tests
use scanr.Common.{
  ℕ, zero, suc, ◌+◌, ◌-◌, ◌*◌, ◌/◌, ◌%◌, ◌^◌, min, Bool, true, false, not, ◌&&◌, ◌||◌, Option, none,
  some, List, [], ◌∷◌, ◌++◌, ltb, leb, ◌==◌, if◌then◌else◌,
}
use scanr.Common.Bits.{bit_and}
use scanr.Common.Result.{Result, ok, err, ◌>>=◌}
use scanr.Common.Text.{Text, codes, text_eq, eq_ignore_ascii_case, decimal}
use scanr.Net.Addr.{IpAddr, v4, v6, is_ipv4}

abbrev pub u128_max : ℕ
u128_max = 2 ^ 128 - 1

abbrev pub u64_max : ℕ
u64_max = 2 ^ 64 - 1

abbrev pub min_ipv6_prefix : ℕ
min_ipv6_prefix = 112

abbrev pub max_expandable : ℕ
max_expandable = 16_777_216

pub data TargetSpec : Type 0 where
  addr : IpAddr → TargetSpec
  cidr : IpAddr → ℕ → TargetSpec
  range : IpAddr → IpAddr → TargetSpec
  host : Text → TargetSpec

pub data Target : Type 0 where
  target_addr : IpAddr → Target
  target_host : Text → Target

pub data ExpandError : Type 0 where
  too_large : ℕ → ℕ → ExpandError
  beyond_expansion : Text → Text → ℕ → ExpandError
  ipv6_prefix_too_short : Text → ℕ → Text → ℕ → ExpandError

-- `to_u128`
unfoldable pub number : IpAddr → ℕ
number (v4 n) = n
number (v6 n) = n

unfoldable pub from_u128 : Bool → ℕ → IpAddr
from_u128 true v = v4 (v % 2 ^ 32)
from_u128 false v = v6 v

-- `MAX << (w - prefix)` of a w-bit number, and no bits for the prefix 0
unfoldable pub prefix_mask : ℕ → ℕ → ℕ
prefix_mask w prefix = if prefix == 0 then 0 else (2 ^ w - 1) * 2 ^ (w - prefix) % 2 ^ w

unfoldable pub mask : IpAddr → ℕ → IpAddr
unfolding prefix_mask
mask (v4 n) prefix = v4 (bit_and n (prefix_mask 32 prefix))
mask (v6 n) prefix = v6 (bit_and n (prefix_mask 128 prefix))

abbrev pub width : IpAddr → ℕ
width (v4 n) = 32
width (v6 n) = 128

abbrev pub same_family : IpAddr → IpAddr → Bool
same_family (v4 a) (v4 b) = true
same_family (v6 a) (v6 b) = true
same_family _ _ = false

abbrev pub ip_eq : IpAddr → IpAddr → Bool
ip_eq (v4 a) (v4 b) = a == b
ip_eq (v6 a) (v6 b) = a == b
ip_eq _ _ = false

-- the mask of `matches` over the host bits
unfoldable pub network_mask : ℕ → ℕ
network_mask host_bits = if leb 128 host_bits then 0 else (2 ^ 128 - 1) * 2 ^ host_bits % 2 ^ 128

-- `matches` of an address
unfoldable pub matches_ip : TargetSpec → IpAddr → Bool
unfolding number network_mask
matches_ip (addr a) ip = ip_eq a ip
matches_ip (cidr base prefix) ip =
    let m = network_mask (width ip - prefix) in
    same_family base ip && bit_and (number ip) m == bit_and (number base) m
matches_ip (range start end) ip =
    same_family start ip && (leb (number start) (number ip) && leb (number ip) (number end))
matches_ip (host h) ip = false

unfoldable pub matches_read : TargetSpec → Option IpAddr → Bool
unfolding matches_ip
matches_read spec none = false
matches_read spec (some ip) = matches_ip spec ip

-- `parse_ip` reads an address, as `str::parse` of std does
unfoldable pub matches : (Text → Option IpAddr) → TargetSpec → Text → Bool
unfolding matches_read
matches parse_ip (host h) target = eq_ignore_ascii_case h target
matches parse_ip (addr a) target = matches_read (addr a) (parse_ip target)
matches parse_ip (cidr base prefix) target = matches_read (cidr base prefix) (parse_ip target)
matches parse_ip (range start end) target = matches_read (range start end) (parse_ip target)

-- `1u128.checked_shl(host_bits).unwrap_or(u128::MAX)`
abbrev pub shifted_one : ℕ → ℕ
shifted_one host_bits = if ltb host_bits 128 then 2 ^ host_bits else u128_max

unfoldable pub count : TargetSpec → ℕ
unfolding number
count (addr a) = 1
count (host h) = 1
count (cidr base prefix) = shifted_one (width base - prefix)
count (range start end) = min (number end - number start + 1) u128_max

unfoldable pub approx : ℕ → Text
approx n =
    if leb 1_000_000_000_000 n
    then codes "~" ++ (decimal (n / 1_000_000_000_000) ++ codes " trillion")
    else if leb 1_000_000_000 n
    then codes "~" ++ (decimal (n / 1_000_000_000) ++ codes " billion")
    else if leb 1_000_000 n
    then codes "~" ++ (decimal (n / 1_000_000) ++ codes " million")
    else decimal n

-- `Display`, over the text of an address
unfoldable pub show_spec : (IpAddr → Text) → TargetSpec → Text
show_spec show_ip (addr a) = show_ip a
show_spec show_ip (cidr base prefix) = show_ip base ++ b'/' ∷ decimal prefix
show_spec show_ip (range start end) = show_ip start ++ b'-' ∷ show_ip end
show_spec show_ip (host h) = h

-- an IPv6 prefix that needs the opt-in
abbrev pub is_short_prefix : TargetSpec → Bool
is_short_prefix (cidr (v6 n) prefix) = ltb prefix min_ipv6_prefix
is_short_prefix _ = false

abbrev pub prefix_of : TargetSpec → ℕ
prefix_of (cidr base prefix) = prefix
prefix_of _ = 0

unfoldable pub check_expandable :
    (IpAddr → Text) → Bool → TargetSpec → Result ExpandError (Unit {0})
unfolding count approx show_spec
check_expandable show_ip allow_large spec =
    if not allow_large && is_short_prefix spec
    then err (
        ipv6_prefix_too_short (show_spec show_ip spec) (prefix_of spec) (approx (count spec))
          min_ipv6_prefix)
    else if ltb max_expandable (count spec)
    then err (beyond_expansion (show_spec show_ip spec) (approx (count spec)) max_expandable)
    else ok tt

-- the addresses from a number on
unfoldable pub addresses : Bool → ℕ → ℕ → List Target
unfolding from_u128
addresses is_v4 start zero = []
addresses is_v4 start (suc n) = target_addr (from_u128 is_v4 start) ∷ addresses is_v4 (start + 1) n

unfoldable pub expand_into : TargetSpec → List Target
unfolding addresses number count
expand_into (addr a) = target_addr a ∷ []
expand_into (host h) = target_host h ∷ []
expand_into (cidr base prefix) = addresses (is_ipv4 base) (number base) (count (cidr base prefix))
expand_into (range start end) =
    addresses (is_ipv4 start) (number start) (number end + 1 - number start)

abbrev pub target_eq : Target → Target → Bool
target_eq (target_addr a) (target_addr b) = ip_eq a b
target_eq (target_host h) (target_host k) = text_eq h k
target_eq _ _ = false

-- `contains` of a hash set
unfoldable pub target_in : Target → List Target → Bool
target_in t [] = false
target_in t (u ∷ us) = target_eq t u || target_in t us

-- the loop over the targets: what is neither excluded nor seen is kept, and seen from then on
unfoldable pub keep_new : List Target → List Target → List Target → List Target
unfolding target_in
keep_new excluded seen [] = []
keep_new excluded seen (t ∷ ts) =
    let kept = keep_new excluded (t ∷ seen) ts in
    let passed = keep_new excluded seen ts in
    if not (target_in t excluded) && not (target_in t seen) then t ∷ kept else passed

unfoldable pub expand_specs : List TargetSpec → List Target
unfolding expand_into
expand_specs [] = []
expand_specs (s ∷ ss) = expand_into s ++ expand_specs ss

-- the checks of the specifications, and the sum of their counts
unfoldable pub checked_total : (IpAddr → Text) → Bool → List TargetSpec → Result ExpandError ℕ
unfolding check_expandable count
checked_total show_ip allow_large [] = ok 0
checked_total show_ip allow_large (s ∷ ss) =
    check_expandable show_ip allow_large s
    >>= (λ _. checked_total show_ip allow_large ss >>= (λ total. ok (count s + total)))

pub record TargetSet : Type 0 where
  pub include : List TargetSpec
  pub exclude : List TargetSpec

unfoldable pub expand : (IpAddr → Text) → TargetSet → Bool → ℕ → Result ExpandError (List Target)
unfolding checked_total keep_new expand_specs
expand show_ip set allow_large limit = checked_total show_ip allow_large set.include >>= (λ total.
    if not allow_large && ltb limit total
    then err (too_large (min total u64_max) limit)
    else checked_total show_ip allow_large set.exclude
      >>= (λ _. ok (keep_new (expand_specs set.exclude) [] (expand_specs set.include))))

abbrev sum_counts : List TargetSpec → ℕ
sum_counts [] = 0
sum_counts (s ∷ ss) = count s + sum_counts ss

unfoldable pub approx_count : TargetSet → ℕ
unfolding count
approx_count set = sum_counts set.include
