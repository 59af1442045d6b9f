-- ===== src/Net/Target/Matches.antt =====
-- `matches` of src/net/target.rs agrees with the expansion that it spares.
use scanr.Common.{
  ℕ, ◌+◌, ◌-◌, ◌^◌, ◌≤◌, ◌≡◌, ap, sym, ◌↔◌, inl, inr, true, Option, some, In, leb, ==_iff, arith,
}
use scanr.Common.Text.{Text}
use scanr.Net.Addr.{IpAddr, is_ipv4, IsAddress}
use scanr.Net.Target.{
  target_addr, TargetSpec, addr, cidr, range, host, number, width, matches_ip, matches_read,
  matches, count, max_expandable, expand_into,
}
use scanr.Net.Target.Equality.{ip_eq→≡, ip_eq_refl}
use scanr.Net.Target.Network.{network_interval, network_end}
use scanr.Net.Target.Interval.{
  IsSpec, bound, ip_of, both, In-addresses, address_bound, width-bound, same_width, range_bound,
  network_count,
}

-- A specification of addresses, and no host name.
abbrev pub IsNumeric : TargetSpec → Type 0
IsNumeric (host h) = ⊥
IsNumeric _ = Unit

addr-matches :
    (a ip : IpAddr) → (matches_ip (addr a) ip ≡ true) ↔ In (target_addr ip) (expand_into (addr a))
unfolding matches_ip expand_into
addr-matches a ip = (
  λ e. inl (ap target_addr (sym (ip_eq→≡ a ip e))),
  λ m. elim m [
    | inl e ↦ (let same : ip ≡ a = ap ip_of e in rw (← same) (ip_eq_refl ip))
    | inr z ↦ absurd z
  ],
)

cidr-matches :
    (base : IpAddr) (prefix : ℕ) (ip : IpAddr)
    → IsSpec (cidr base prefix)
    → count (cidr base prefix) ≤ max_expandable
    → IsAddress ip
    → (matches_ip (cidr base prefix) ip ≡ true)
      ↔ In (target_addr ip) (expand_into (cidr base prefix))
unfolding matches_ip expand_into
cidr-matches base prefix ip (b, p, z) l a =
    let size = network_count base prefix l in
    let (wb, wl) = width-bound base in
    let fits : number base + 2 ^ (width base - prefix) ≤ bound (is_ipv4 base) = rw wb (
      network_end (width base) (width base - prefix) (number base) (omega arith)
        (let k = (address_bound base b).0 in rw wb at k) z) in
    let members = In-addresses base ip (2 ^ (width base - prefix)) a fits in
    let net =
      network_interval (width base - prefix) (number ip) (number base) (omega (arith, wl))
        (address_bound ip a).1 (address_bound base b).1 z in
    rw size (
      λ e.
          (let (f, m) = (both _ _).0 e in
            members.1 (f, net.0 (let w = same_width base ip f in rw w at ((==_iff _ _).0 m)))),
      λ m.
          (let (f, i) = members.0 m in
            (both _ _).1 (f, let w = same_width base ip f in rw w ((==_iff _ _).1 (net.1 i)))),
    )

range-matches :
    (start end ip : IpAddr)
    → IsSpec (range start end)
    → IsAddress ip
    → (matches_ip (range start end) ip ≡ true) ↔ In (target_addr ip) (expand_into (range start end))
unfolding matches_ip expand_into
range-matches start end ip (s, e, f, o) a =
    let members =
      In-addresses start ip (number end + 1 - number start) a
        (omega (arith, o, range_bound start end f e)) in
    (
      λ h.
          (let (g, i) = (both _ _).0 h in
            let (lo, hi) =
              (both (leb (number start) (number ip)) (leb (number ip) (number end))).0 i in
            members.1 (g, (ground (arith, lo), ground (arith, hi, o)))),
      λ m.
          (let (g, i) = members.0 m in
            (both _ _).1 (
              g,
              (both (leb (number start) (number ip)) (leb (number ip) (number end))).1
                  (ground (arith, i.0), ground (arith, i.1, o)),
            )),
    )

matches_ip-In :
    (spec : TargetSpec) (ip : IpAddr)
    → IsSpec spec
    → IsNumeric spec
    → count spec ≤ max_expandable
    → IsAddress ip
    → (matches_ip spec ip ≡ true) ↔ In (target_addr ip) (expand_into spec)
matches_ip-In (addr b) ip s n l a = addr-matches b ip
matches_ip-In (cidr base prefix) ip s n l a = cidr-matches base prefix ip s l a
matches_ip-In (range start end) ip s n l a = range-matches start end ip s a
matches_ip-In (host h) ip s n l a = absurd n

-- A specification of addresses that is well formed and small enough to be expanded matches the text of
-- an address exactly when the address is in its expansion.
pub matches-In :
    (parse_ip : Text → Option IpAddr) (spec : TargetSpec) (target : Text) (ip : IpAddr)
    → IsSpec spec
    → IsNumeric spec
    → count spec ≤ max_expandable
    → parse_ip target ≡ some ip
    → IsAddress ip
    → (matches parse_ip spec target ≡ true) ↔ In (target_addr ip) (expand_into spec)
unfolding matches matches_read
matches-In parse_ip (addr b) target ip s n l e a = rw e (matches_ip-In (addr b) ip s n l a)
matches-In parse_ip (cidr base prefix) target ip s n l e a =
    rw e (matches_ip-In (cidr base prefix) ip s n l a)
matches-In parse_ip (range start end) target ip s n l e a =
    rw e (matches_ip-In (range start end) ip s n l a)
matches-In parse_ip (host h) target ip s n l e a = absurd n
