-- ===== src/Plan/Probes.antt =====
-- The probes of a `ScanPlan` of src/plan/types.rs: how many there are, and which one an index stands for.
-- An index beyond the plan would panic, and is `none`.
pub mod Enumeration
pub mod Visits
use scanr.Common.{
  ℕ, zero, suc, ◌+◌, ◌*◌, ◌-◌, ◌/◌, ◌%◌, ◌^◌, min, max, Bool, true, false, Option, none, some, List,
  [], ◌∷◌, ◌++◌, map, length, get_elem?, ltb, leb, ◌==◌, if◌then◌else◌,
}
use scanr.Common.Text.{Text}
use scanr.Net.Addr.{IpAddr}
use scanr.Net.Target.{Target}
use scanr.Plan.Types.{Timing}

pub record ResolvedHost : Type 0 where
  pub hostname : Text
  pub addresses : List IpAddr

-- the fields that the engine reads
pub record ScanPlan (P : Type 0) : Type 0 where
  pub timing : Timing P
  pub targets : List Target
  pub ports : List ℕ
  pub pairs : Option (List (Target × ℕ))
  pub resolved_hosts : List ResolvedHost
  pub seed : ℕ
  pub spans : Bool

abbrev pub both : Option Target → Option ℕ → Option (Target × ℕ)
both (some t) (some p) = some (t, p)
both (some t) none = none
both none p = none

-- the count, in 64 bits, of the pairs or else of the matrix
abbrev pub count_of : Option (List (Target × ℕ)) → List Target → List ℕ → ℕ
count_of (some pairs) targets ports = length pairs
count_of none targets ports = length targets * length ports % 2 ^ 64

abbrev pub at_index : Option (List (Target × ℕ)) → List Target → List ℕ → ℕ → Option (Target × ℕ)
at_index (some pairs) targets ports index = get_elem? pairs index
at_index none targets ports index =
    if length ports == 0
    then none
    else both (get_elem? targets (index / length ports)) (get_elem? ports (index % length ports))

abbrev pub name_index : Option (List (Target × ℕ)) → List ℕ → ℕ → Option ℕ
name_index (some pairs) ports index = some index
name_index none ports index = if length ports == 0 then none else some (index / length ports)

abbrev pub target_part : Target × ℕ → Target
target_part pair = pair.0

abbrev pub named_targets : Option (List (Target × ℕ)) → List Target → List Target
named_targets (some pairs) targets = map target_part pairs
named_targets none targets = targets

module _ {P : Type 0} where
  unfoldable pub probe_count : ScanPlan P → ℕ
  probe_count plan = count_of plan.pairs plan.targets plan.ports

  unfoldable pub is_pair_scan : ScanPlan P → Bool
  is_pair_scan plan = elim plan.pairs [ none ↦ false | some pairs ↦ true ]

  unfoldable pub probe_at : ScanPlan P → ℕ → Option (Target × ℕ)
  probe_at plan index = at_index plan.pairs plan.targets plan.ports index

  unfoldable pub target_index_at : ScanPlan P → ℕ → Option ℕ
  target_index_at plan index = name_index plan.pairs plan.ports index

  -- `show` is the text of a target
  unfoldable pub target_names : (Target → Text) → ScanPlan P → List Text
  target_names show plan = map show (named_targets plan.pairs plan.targets)

  -- `silent_duration`: rounds of the whole connect budget, in 32 bits, and at most the longest `Duration`
  unfoldable pub silent_duration : ℕ → ScanPlan P → ℕ
  silent_duration longest plan =
      let t = plan.timing in
      let per_probe = t.connect_timeout * (1 + t.retries) + t.retry_delay * t.retries in
      let width = max t.concurrency 1 in
      let rounds = (probe_count plan + (width - 1)) / width in
      min (per_probe * min rounds (2 ^ 32 - 1)) longest
