-- ===== src/Net/Target/Equality.antt =====
-- The tests of src/net/target.rs on targets decide equality, and membership of a hash set.
use scanr.Common.{◌≡◌, refl, ap, ◌⊎◌, inl, inr, true, List, [], ◌∷◌, In, Bool-cases, arith}
use scanr.Common.Text.Equality.{text_eq→≡, text_eq_refl}
use scanr.Net.Addr.{IpAddr, v4, v6}
use scanr.Net.Target.{Target, target_addr, target_host, ip_eq, target_eq, target_in}

pub ip_eq→≡ : (a b : IpAddr) → ip_eq a b ≡ true → a ≡ b
ip_eq→≡ (v4 a) (v4 b) h = ap v4 (ground arith)
ip_eq→≡ (v6 a) (v6 b) h = ap v6 (ground arith)
ip_eq→≡ (v4 a) (v6 b) h = absurd cc
ip_eq→≡ (v6 a) (v4 b) h = absurd cc

pub ip_eq_refl : (a : IpAddr) → ip_eq a a ≡ true
ip_eq_refl (v4 a) = ground arith
ip_eq_refl (v6 a) = ground arith

target_eq→≡ : (t u : Target) → target_eq t u ≡ true → t ≡ u
target_eq→≡ (target_addr a) (target_addr b) h = ap target_addr (ip_eq→≡ a b h)
target_eq→≡ (target_host s) (target_host t) h = ap target_host (text_eq→≡ s t h)
target_eq→≡ (target_addr a) (target_host t) h = absurd cc
target_eq→≡ (target_host s) (target_addr b) h = absurd cc

target_eq_refl : (t : Target) → target_eq t t ≡ true
target_eq_refl (target_addr a) = ip_eq_refl a
target_eq_refl (target_host s) = text_eq_refl s

pub target_decided : (t u : Target) → (t ≡ u) ⊎ (¬ (t ≡ u))
target_decided t u = elim (Bool-cases (target_eq t u)) [
  | inl e ↦ inl (target_eq→≡ t u e)
  | inr e ↦ inr (λ p. (let r : target_eq t u ≡ true = rw (← p) (target_eq_refl t) in cc))
]

pub target_in_sound : (t : Target) (us : List Target) → target_in t us ≡ true → In t us
unfolding target_in
target_in_sound t [] h = absurd cc
target_in_sound t (u ∷ us) h = elim (Bool-cases (target_eq t u)) [
  | inl e ↦ inl (target_eq→≡ t u e)
  | inr e ↦ inr (target_in_sound t us (rw e at h))
]

pub target_in_complete : (t : Target) (us : List Target) → In t us → target_in t us ≡ true
unfolding target_in
target_in_complete t [] m = absurd m
target_in_complete t (u ∷ us) (inl e) =
    let r : target_eq t u ≡ true = rw (← e) (target_eq_refl t) in rw r refl
target_in_complete t (u ∷ us) (inr m) = ground (arith, target_in_complete t us m)
