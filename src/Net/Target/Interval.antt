-- ===== src/Net/Target/Interval.antt =====
-- The addresses of an expansion of src/net/target.rs are an interval of numbers.
use scanr.Common.{
  ℕ, zero, suc, ◌+◌, ◌-◌, ◌%◌, ◌^◌, ◌≤◌, ◌<◌, ◌≡◌, refl, ap, sym, ◌∙◌, ◌↔◌, inl, inr, Bool, true,
  false, ◌&&◌, In, ltb, ◌==◌, Bool-cases, arith,
}
use scanr.Net.Addr.{IpAddr, v4, v6, is_ipv4, IsAddress}
use scanr.Net.Target.{
  Target, target_addr, target_host, TargetSpec, addr, cidr, range, host, number, from_u128, width,
  same_family, count, max_expandable, addresses,
}

-- What a parsed specification is like: its addresses are in bounds, a network's base has no host bits,
-- and a range is of one family and not reversed.
abbrev pub IsSpec : TargetSpec → Type 0
IsSpec (addr a) = IsAddress a
IsSpec (cidr base prefix) =
    IsAddress base × (prefix ≤ width base) × (number base % 2 ^ (width base - prefix) ≡ 0)
IsSpec (range start end) =
    IsAddress start × IsAddress end × (same_family start end ≡ true) × (number start ≤ number end)
IsSpec (host h) = Unit

abbrev pub bound : Bool → ℕ
bound true = 2 ^ 32
bound false = 2 ^ 128

abbrev pub ip_of : Target → IpAddr
ip_of (target_addr a) = a
ip_of (target_host h) = v4 0

from_u128-number : (ip : IpAddr) → IsAddress ip → from_u128 (is_ipv4 ip) (number ip) ≡ ip
unfolding from_u128 number
from_u128-number (v4 n) l = ap v4 (omega arith)
from_u128-number (v6 n) l = refl

from_u128-parts :
    (b : Bool) (v : ℕ) (ip : IpAddr)
    → v < bound b
    → ip ≡ from_u128 b v
    → (is_ipv4 ip ≡ b) × (number ip ≡ v)
unfolding from_u128 number
from_u128-parts true v ip l e = rw e (refl, omega arith)
from_u128-parts false v ip l e = rw e (refl, refl)

module _ (ip : IpAddr) (a : IsAddress ip) where
  addresses→ :
      (b : Bool) (start n : ℕ)
      → start + n ≤ bound b
      → In (target_addr ip) (addresses b start n)
      → (is_ipv4 ip ≡ b) × ((start ≤ number ip) × (number ip < start + n))
  unfolding addresses
  addresses→ b start zero l m = absurd m
  addresses→ b start (suc n) l (inl e) =
      let (f, v) = from_u128-parts b start ip (omega arith) (ap ip_of e) in
      (f, (omega (arith, v), omega (arith, v)))
  addresses→ b start (suc n) l (inr m) =
      let (f, (lo, hi)) = addresses→ b (start + 1) n (omega arith) m in
      (f, (omega arith, omega arith))

  addresses← :
      (start n : ℕ)
      → start ≤ number ip
      → number ip < start + n
      → In (target_addr ip) (addresses (is_ipv4 ip) start n)
  unfolding addresses
  addresses← start zero lo hi = absurd (omega arith)
  addresses← start (suc n) lo hi = elim (Bool-cases (start == number ip)) [
    | inl e ↦ inl (
        ap target_addr (
          let v : number ip ≡ start = ground arith in
          sym (from_u128-number ip a) ∙ ap (from_u128 (is_ipv4 ip)) v))
    | inr e ↦ inr (addresses← (start + 1) n (ground arith) (omega arith))
  ]

family : (a b : IpAddr) → (same_family a b ≡ true) ↔ (is_ipv4 b ≡ is_ipv4 a)
family (v4 a) (v4 b) = (λ _. refl, λ _. refl)
family (v6 a) (v6 b) = (λ _. refl, λ _. refl)
family (v4 a) (v6 b) = (λ e. cc, λ e. cc)
family (v6 a) (v4 b) = (λ e. cc, λ e. cc)

pub both : (b c : Bool) → ((b && c) ≡ true) ↔ ((b ≡ true) × (c ≡ true))
both true c = (λ e. (refl, e), λ e. e.1)
both false c = (λ e. absurd cc, λ e. e.0)

-- The addresses from a first one on are those of its family in the interval.
pub In-addresses :
    (first ip : IpAddr) (n : ℕ)
    → IsAddress ip
    → number first + n ≤ bound (is_ipv4 first)
    → In (target_addr ip) (addresses (is_ipv4 first) (number first) n) ↔ (
        (same_family first ip ≡ true)
        × ((number first ≤ number ip) × (number ip < number first + n)))
In-addresses first ip n a l = (
  λ m.
      (let (f, i) = addresses→ ip a (is_ipv4 first) (number first) n l m in
        ((family first ip).1 f, i)),
  λ k. (let f = (family first ip).0 k.0 in rw f at (addresses← ip a (number first) n k.1.0 k.1.1)),
)

pub address_bound :
    (a : IpAddr) → IsAddress a → (number a < bound (is_ipv4 a)) × (number a < 2 ^ 128)
unfolding number
address_bound (v4 n) l = (l, omega arith)
address_bound (v6 n) l = (l, l)

pub width-bound : (a : IpAddr) → (bound (is_ipv4 a) ≡ 2 ^ width a) × (width a ≤ 128)
width-bound (v4 n) = (refl, omega arith)
width-bound (v6 n) = (refl, omega arith)

pub same_width : (a b : IpAddr) → same_family a b ≡ true → width b ≡ width a
same_width (v4 a) (v4 b) e = refl
same_width (v6 a) (v6 b) e = refl
same_width (v4 a) (v6 b) e = absurd cc
same_width (v6 a) (v4 b) e = absurd cc

pub range_bound :
    (start end : IpAddr)
    → same_family start end ≡ true
    → IsAddress end
    → number end < bound (is_ipv4 start)
unfolding number
range_bound (v4 a) (v4 b) e l = l
range_bound (v6 a) (v6 b) e l = l
range_bound (v4 a) (v6 b) e l = absurd cc
range_bound (v6 a) (v4 b) e l = absurd cc

-- Within the count that may be expanded, the count of a network is its size.
pub network_count :
    (base : IpAddr) (prefix : ℕ)
    → count (cidr base prefix) ≤ max_expandable
    → count (cidr base prefix) ≡ 2 ^ (width base - prefix)
unfolding count
network_count base prefix l = elim (Bool-cases (ltb (width base - prefix) 128)) [
  | inl e ↦ rw e refl
  | inr e ↦ absurd (let r = rw e at l in omega arith)
]
