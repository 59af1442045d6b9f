-- ===== src/Diag/Host.antt =====
-- `HostFacts` of src/diag.rs: how many probes a second the local ports can bear.
use scanr.Common.{
  ◌↔◌, ℕ, ◌%◌, ◌^◌, ◌*◌, ◌≤◌, ◌<◌, ◌≡◌, ◌⊎◌, refl, inl, inr, Bool-cases, Option-cases, true, false,
  arith, ◌+◌, ◌-◌, ◌/◌, Bool, not, ◌&&◌, ◌||◌, Option, none, some, ◌==◌, if◌then◌else◌,
}

abbrev pub time_wait_secs : ℕ
time_wait_secs = 60

pub record PortRange : Type 0 where
  pub lo : ℕ
  pub hi : ℕ

pub record HostFacts : Type 0 where
  pub ephemeral_range : Option PortRange
  pub tcp_tw_reuse : Option ℕ
  pub rlimit_nofile : Option ℕ

-- `saturating_sub`, and then `+ 1` in a `u32`, as a release build wraps it
unfoldable pub range_ports : Option PortRange → Option ℕ
range_ports none = none
range_ports (some r) = some ((r.hi - r.lo + 1) % 2 ^ 32)

unfoldable pub ephemeral_ports : HostFacts → Option ℕ
unfolding range_ports
ephemeral_ports facts = range_ports facts.ephemeral_range

unfoldable pub unwrap_or : ℕ → Option ℕ → ℕ
unwrap_or d none = d
unwrap_or d (some n) = n

unfoldable pub exempt : HostFacts → Bool → Bool
unfolding unwrap_or
exempt facts remote =
    let reuse = unwrap_or 0 facts.tcp_tw_reuse in reuse == 1 || reuse == 2 && not remote

unfoldable pub ceiling_of : Bool → Option ℕ → Option ℕ
ceiling_of exempted none = none
ceiling_of exempted (some ports) = if exempted then none else some (ports / time_wait_secs)

unfoldable pub sustained_rate_ceiling : HostFacts → Bool → Option ℕ
unfolding ceiling_of exempt ephemeral_ports
sustained_rate_ceiling facts remote = ceiling_of (exempt facts remote) (ephemeral_ports facts)

-- What the ceiling promises: the ports of the range, each held for a minute, bear the rate for ever,
-- and no whole probe a second more.
pub record IsCeiling (ports rate : ℕ) : Type 0 where
  pub bears : rate * time_wait_secs ≤ ports
  pub no_more : ports < (rate + 1) * time_wait_secs

-- The kernel hands a port out again while it is held: its setting 1 does, and 2 on loopback only.
abbrev pub IsExempt : HostFacts → Bool → Type 0
IsExempt facts remote =
    (facts.tcp_tw_reuse ≡ some 1) ⊎ ((facts.tcp_tw_reuse ≡ some 2) × (remote ≡ false))

reuse-IsExempt :
    (reuse : Option ℕ) (remote : Bool)
    → ((unwrap_or 0 reuse == 1 || unwrap_or 0 reuse == 2 && not remote) ≡ true)
      ↔ ((reuse ≡ some 1) ⊎ ((reuse ≡ some 2) × (remote ≡ false)))
unfolding unwrap_or
reuse-IsExempt none remote = ground arith
reuse-IsExempt (some n) remote = ground arith

exempt-IsExempt :
    (facts : HostFacts) (remote : Bool) → (exempt facts remote ≡ true) ↔ IsExempt facts remote
unfolding exempt
exempt-IsExempt facts remote = reuse-IsExempt facts.tcp_tw_reuse remote

-- There is a ceiling exactly when the range of local ports is known and reuse does not exempt the
-- host: the kernel's setting 1 does, and the setting 2 unless the scan leaves the host. It is the
-- highest whole rate that the ports of the range bear, which are counted in 32 bits.
pub sustained_rate_ceiling-IsCeiling :
    (facts : HostFacts) (remote : Bool)
    → ((sustained_rate_ceiling facts remote ≡ none)
        × (IsExempt facts remote ⊎ (facts.ephemeral_range ≡ none)))
      ⊎ ((rate : ℕ) × (range : PortRange) × (sustained_rate_ceiling facts remote ≡ some rate)
          × (facts.ephemeral_range ≡ some range)
          × (¬ IsExempt facts remote)
          × IsCeiling ((range.hi - range.lo + 1) % 2 ^ 32) rate)
unfolding sustained_rate_ceiling ceiling_of ephemeral_ports range_ports
sustained_rate_ceiling-IsCeiling facts remote = elim (Option-cases facts.ephemeral_range) [
  | inl h ↦ rw h (inl (refl, inr refl))
  | inr (r, h) ↦ rw h (elim (Bool-cases (exempt facts remote)) [
    | inl e ↦ rw e (inl (refl, inl ((exempt-IsExempt facts remote).0 e)))
    | inr e ↦ rw e (
        inr (
          (r.hi - r.lo + 1) % 2 ^ 32 / time_wait_secs,
          r,
          refl,
          refl,
          λ x. (let y = (exempt-IsExempt facts remote).1 x in cc),
          record { bears = omega arith; no_more = omega arith },
        ))
  ])
]
