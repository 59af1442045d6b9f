-- ===== src/Net/Target/Tests.antt =====
-- Targets of src/net/target.rs on concrete specifications.
use scanr.Common.{
  ◌≡◌, refl, ◌↔◌, inl, inr, true, false, Bool-cases, Option, none, some, List, [], ◌∷◌, In,
  if◌then◌else◌, arith,
}
use scanr.Common.Text.{Text, codes, text_eq, trim, is_whitespace, split_once}
use scanr.Net.Addr.{IpAddr, v4, IsAddress}
use scanr.Net.Target.{
  Target, target_addr, TargetSpec, addr, cidr, TargetSet, matches, expand_into, expand, count,
  number,
}
use scanr.Net.Target.Interval.{IsSpec}
use scanr.Net.Target.Matches.{matches-In}
use scanr.Net.Target.Expand.{IsExpansion, expand-IsExpansion}
use scanr.Net.Target.Parse.{parse_target}
use scanr.Net.Target.Parse.Laws.{parse_target-IsSpec}

-- 10.0.0.0 and 10.0.0.7
abbrev ten : IpAddr
ten = v4 167772160

abbrev seven : IpAddr
seven = v4 167772167

-- a reader that knows one address
abbrev one_address : Text → Option IpAddr
one_address s = if text_eq s (codes "10.0.0.7") then some seven else none

one_address-IsAddress : (s : Text) (ip : IpAddr) → one_address s ≡ some ip → IsAddress ip
one_address-IsAddress s ip h = elim (Bool-cases (text_eq s (codes "10.0.0.7"))) [
  | inl e ↦
      (let known : some seven ≡ some ip = rw e at h in
        let same : seven ≡ ip = cc in rw (← same) (omega arith))
  | inr e ↦ absurd (let r : none ≡ some ip = rw e at h in cc)
]

abbrev small_net : TargetSpec
small_net = cidr ten 29

matches-In_example :
    (matches one_address small_net (codes "10.0.0.7") ≡ true)
    ↔ In (target_addr seven) (expand_into small_net)
unfolding count number text_eq
matches-In_example =
    matches-In one_address small_net (codes "10.0.0.7") seven (omega arith, omega arith, refl) tt
      (omega arith) refl (omega arith)

abbrev plain : IpAddr → Text
plain a = codes "ip"

-- a network of four addresses without its first one, named twice
abbrev set : TargetSet
set = record { include = cidr ten 30 ∷ addr (v4 167772161) ∷ []; exclude = addr ten ∷ [] }

abbrev three : List Target
three = target_addr (v4 167772161) ∷ target_addr (v4 167772162) ∷ target_addr (v4 167772163) ∷ []

expand-IsExpansion_example : IsExpansion set false 10 three
unfolding expand
expand-IsExpansion_example = expand-IsExpansion plain set false 10 three refl

parse_target-IsSpec_example : IsSpec (cidr ten 29)
unfolding parse_target text_eq trim is_whitespace split_once
parse_target-IsSpec_example =
    parse_target-IsSpec one_address one_address-IsAddress (codes " 10.0.0.7/29") (cidr ten 29) refl
