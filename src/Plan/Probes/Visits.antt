-- ===== src/Plan/Probes/Visits.antt =====
-- The order of a scan: the permutation of src/plan/permute.rs over the endpoints of src/plan/types.rs.
use scanr.Common.{ℕ, ◌*◌, ◌^◌, ◌<◌, ◌≡◌, ◌∙◌, max, some, length, get_elem?, get_elem?-some, arith}
use scanr.Net.Target.{Target}
use scanr.Plan.Permute.{new, apply}
use scanr.Plan.Permute.Bijection.{apply-IsBijection}
use scanr.Plan.Probes.{ScanPlan, probe_count, probe_at}
use scanr.Plan.Probes.Enumeration.{endpoints, enumerated}

-- Index `i` of the counter stands for endpoint `j`.
abbrev pub Visits : {P : Type 0} → ScanPlan P → ℕ → ℕ → Type 0
Visits plan i j = apply (new (max (probe_count plan) 1) plan.seed) i ≡ some j

-- Every endpoint is visited by one index, and every index visits one.
pub record VisitsEach {P : Type 0} (plan : ScanPlan P) : Type 0 where
  pub reached :
      (j : ℕ) → j < length (endpoints plan) → (i : ℕ) × (i < probe_count plan) × Visits plan i j
  pub once :
      (i i' j : ℕ)
      → i < probe_count plan
      → i' < probe_count plan
      → Visits plan i j
      → Visits plan i' j
      → i ≡ i'
  pub named :
      (i : ℕ)
      → i < probe_count plan
      → (j : ℕ) × (e : Target × ℕ) × Visits plan i j
        × (probe_at plan j ≡ some e)
        × (get_elem? (endpoints plan) j ≡ some e)

-- In a plan of fewer than 2 ^ 64 probes, the indices below the count stand for the endpoints of the plan:
-- each pair, or each target with each port, is reached by exactly one of them, and none stands for
-- anything else or is out of range.
pub plan-VisitsEach :
    {P : Type 0} (plan : ScanPlan P)
    → length plan.targets * length plan.ports < 2 ^ 64
    → probe_count plan < 2 ^ 64
    → VisitsEach plan
plan-VisitsEach plan small few =
    let (size, at) = enumerated plan small in
    let b = apply-IsBijection (max (probe_count plan) 1) plan.seed (omega arith) in
    record {
      reached = λ j l.
          let (i, below, e) = b.onto j (omega (arith, size)) in
          (i, omega (arith, below, size, l), e);
      once = λ i i' j l l' e e'. b.one_to_one i i' j (omega arith) (omega arith) e e';
      named = λ i l.
          let (j, e, below) = b.total i (omega arith) in
          let (p, found) = get_elem?-some (endpoints plan) j (omega (arith, size)) in
          (j, p, e, at j ∙ found, found);
    }
