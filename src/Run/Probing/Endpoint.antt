-- ===== src/Run/Probing/Endpoint.antt =====
-- The record that a worker of src/run.rs makes for an index of the counter is one of the planned endpoint
-- that the permutation gives to this index.
use scanr.Common.{
  ℕ, zero, suc, ◌*◌, ◌/◌, ◌%◌, ◌^◌, ◌<◌, ◌≡◌, refl, ap, inl, inr, Option, none, some, List, [], ◌∷◌,
  map, length, get_elem?, ◌==◌, Bool-cases, arith,
}
use scanr.Common.Text.{Text}
use scanr.Net.Addr.{IpAddr}
use scanr.Net.Target.{Target}
use scanr.Output.Record.{ProbeRecord}
use scanr.Plan.Probes.{
  ScanPlan, both, at_index, name_index, named_targets, target_part, probe_count, probe_at,
  target_index_at, target_names,
}
use scanr.Plan.Probes.Enumeration.{endpoints}
use scanr.Plan.Probes.Visits.{Visits, plan-VisitsEach}
use scanr.Run.Probing.{
  Env, address_of, destination_of, probe_retrying, endpoint_record, name_at, worker_probe,
  permutation_of,
}

get_elem?-map :
    {A B : Type 0} (f : A → B) (xs : List A) (i : ℕ) {a : A}
    → get_elem? xs i ≡ some a
    → get_elem? (map f xs) i ≡ some (f a)
get_elem?-map f [] i h = absurd cc
get_elem?-map f (x ∷ xs) zero h = ap some (ap f (cc))
get_elem?-map f (x ∷ xs) (suc i) h = get_elem?-map f xs i h

both-some :
    (t : Option Target) (p : Option ℕ) (e : Target × ℕ)
    → both t p ≡ some e
    → (t ≡ some e.0) × (p ≡ some e.1)
both-some (some t) (some p) e h = ground arith
both-some (some t) none e h = absurd cc
both-some none p e h = absurd cc

module _ (show : Target → Text) where
  name_lem :
      (pairs : Option (List (Target × ℕ))) (targets : List Target) (ports : List ℕ) (j : ℕ)
      (e : Target × ℕ)
      → at_index pairs targets ports j ≡ some e
      → name_at (map show (named_targets pairs targets)) (name_index pairs ports j)
        ≡ some (show e.0)
  name_lem (some pairs) targets ports j e h =
      get_elem?-map show (map target_part pairs) j (get_elem?-map target_part pairs j h)
  name_lem none targets ports j e h = elim (Bool-cases (length ports == 0)) [
    | inl z ↦ absurd (let n : none ≡ some e = (rw z at h) in cc)
    | inr z ↦ rw z (
        get_elem?-map show targets (j / length ports)
          (both-some (get_elem? targets (j / length ports)) (get_elem? ports (j % length ports)) e
            ((rw z at h))).0)
  ]

  -- What a record for index `i` of the counter is about.
  pub record IsRecordOf {T P : Type 0} (plan : ScanPlan P) (i : ℕ) (r : ProbeRecord T)
      : Type 0 where
    pub endpoint : Target × ℕ
    pub visited : Visits plan i r.probe_index
    pub planned : get_elem? (endpoints plan) r.probe_index ≡ some endpoint
    pub name : r.target ≡ show endpoint.0
    pub port : r.port ≡ endpoint.1
    pub address : r.resolved_address ≡ address_of endpoint.0

-- For each index that the counter of a plan of fewer than 2 ^ 64 probes can issue, a worker makes a record
-- and does not panic on an index out of range: the record bears the index that the permutation gives, and
-- names the target, the port and the address of the planned endpoint of this index; its outcome and its
-- attempts are those of the retry loop on this endpoint's destination.
pub worker_probe-IsRecordOf :
    {T P S : Type 0} (show : Target → Text) (env : Env T P S) (plan : ScanPlan P)
    (sni : List (IpAddr × Text)) (i : ℕ) (s : S)
    → length plan.targets * length plan.ports < 2 ^ 64
    → probe_count plan < 2 ^ 64
    → i < probe_count plan
    → (r : ProbeRecord T) × (s' : S) × (worker_probe env plan
          (target_names show plan)
          sni
          (permutation_of plan)
          i
          s
        ≡ some (r, s'))
      × (about : IsRecordOf show plan i r) × (r.outcome
          ≡ (probe_retrying env
              (destination_of sni about.endpoint.0 about.endpoint.1)
              plan.timing
              s).outcome)
      × (r.attempts
          ≡ (probe_retrying env
              (destination_of sni about.endpoint.0 about.endpoint.1)
              plan.timing
              s).attempts)
unfolding worker_probe probe_at target_index_at target_names
worker_probe-IsRecordOf show env plan sni i s small few l =
    let (j, e, visited, found, planned) = (plan-VisitsEach plan small few).named i l in
    let named = name_lem show plan.pairs plan.targets plan.ports j e found in
    let (r, s') = endpoint_record env plan sni j (show e.0) e s in
    (
      r,
      s',
      rw (visited, named, found) refl,
      record {
        endpoint = e;
        visited = visited;
        planned = planned;
        name = refl;
        port = refl;
        address = refl;
      },
      refl,
      refl,
    )
