-- ===== src/Run/Probing.antt =====
-- What `worker` of src/run.rs does with an index: the endpoint it stands for, the probe with its retries,
-- and the record. `sni_names` and `AttemptStates` are those of the source.
pub mod Retries
pub mod Endpoint
use scanr.Common.{
  ℕ, zero, suc, ◌+◌, ◌%◌, ◌^◌, Bool, true, false, ◌&&◌, ◌||◌, max, Option, none, some, List, [],
  ◌∷◌, ◌++◌, get_elem?, leb, ◌==◌, if◌then◌else◌,
}
use scanr.Common.Text.{Text}
use scanr.Net.Addr.{IpAddr, SocketAddr}
use scanr.Net.Target.{Target, target_addr, target_host, ip_eq}
use scanr.Output.Record.{ProbeRecord}
use scanr.Plan.Permute.{Permutation, new, apply}
use scanr.Plan.Probes.{ResolvedHost, ScanPlan, probe_count, probe_at, target_index_at, target_names}
use scanr.Plan.Types.{Timing}
use scanr.Probe.Attempts.{AttemptStates, first, push}
use scanr.Probe.Outcome.{ProbeOutcome, is_retryable}
use scanr.Transport.Destination.{Destination, addr, resolved, host}

-- `names.entry(*a).or_insert_with(..)`
unfoldable pub name_of : IpAddr → List (IpAddr × Text) → Option Text
name_of ip [] = none
name_of ip ((a, name) ∷ rest) = if ip_eq a ip then some name else name_of ip rest

abbrev pub or_insert : IpAddr → Text → List (IpAddr × Text) → List (IpAddr × Text)
or_insert ip name names = elim (name_of ip names) [
  | none ↦ names ++ (ip, name) ∷ []
  | some old ↦ names
]

unfoldable pub insert_addresses : List IpAddr → Text → List (IpAddr × Text) → List (IpAddr × Text)
unfolding name_of
insert_addresses [] name names = names
insert_addresses (a ∷ as_) name names = insert_addresses as_ name (or_insert a name names)

unfoldable pub sni_from : List ResolvedHost → List (IpAddr × Text) → List (IpAddr × Text)
unfolding insert_addresses
sni_from [] names = names
sni_from (h ∷ hosts) names = sni_from hosts (insert_addresses h.addresses h.hostname names)

unfoldable pub sni_names : {P : Type 0} → ScanPlan P → List (IpAddr × Text)
unfolding sni_from
sni_names plan = sni_from plan.resolved_hosts []

unfoldable pub destination_of : List (IpAddr × Text) → Target → ℕ → Destination
unfolding name_of
destination_of names (target_addr ip) port = elim (name_of ip names) [
  | some name ↦ resolved (record { ip = ip; port = port }) name
  | none ↦ addr (record { ip = ip; port = port })
]
destination_of names (target_host h) port = host h port

abbrev pub address_of : Target → Option IpAddr
address_of (target_addr ip) = some ip
address_of (target_host h) = none

-- What a worker does to the world `S`: the transport's probe, a look at the cancel flag, a pause.
pub record Env (T P S : Type 0) : Type 0 where
  pub probe : Destination → Timing P → S → ProbeOutcome T × S
  pub is_cancelled : S → Bool × S
  pub sleep : ℕ → S → S

-- the variables of the retry loop
pub record Tried (T S : Type 0) : Type 0 where
  pub outcome : ProbeOutcome T
  pub attempt_states : AttemptStates
  pub attempts : ℕ
  pub world : S

abbrev pub name_at : List Text → Option ℕ → Option Text
name_at names none = none
name_at names (some i) = get_elem? names i

-- `Permutation::new(total.max(1), plan.seed)`
abbrev pub permutation_of : {P : Type 0} → ScanPlan P → Permutation
permutation_of plan = new (max (probe_count plan) 1) plan.seed

module _ {T P S : Type 0} where
  -- The retry loop. As many rounds as there are retries are enough: `Retries.probe_retrying-IsTried`.
  unfoldable pub retry : Env T P S → Destination → Timing P → ℕ → Tried T S → Tried T S
  unfolding is_retryable
  retry env dest timing zero t = t
  retry env dest timing (suc rounds) t =
      let (stop, s) = env.is_cancelled t.world in
      let s' = if timing.retry_delay == 0 then s else env.sleep timing.retry_delay s in
      let (stop', s2) = env.is_cancelled s' in
      let (o, s3) = env.probe dest timing s2 in
      let again = retry env dest timing rounds (record {
        outcome = o;
        attempt_states = push t.attempt_states o.state;
        attempts = (t.attempts + 1) % 2 ^ 32;
        world = s3;
      }) in
      if is_retryable t.outcome && leb t.attempts timing.retries
      then (if stop
          then record t { world = s }
          else if stop'
          then record t { world = s2 }
          else again)
      else t

  unfoldable pub probe_retrying : Env T P S → Destination → Timing P → S → Tried T S
  unfolding retry first
  probe_retrying env dest timing s =
      let (o, s') = env.probe dest timing s in
      retry env dest timing timing.retries
        (record { outcome = o; attempt_states = first o.state; attempts = 1; world = s' })

  abbrev pub endpoint_record :
      Env T P S → ScanPlan P → List (IpAddr × Text) → ℕ → Text → Target × ℕ → S → ProbeRecord T × S
  endpoint_record env plan sni permuted name (target, port) s =
      let t = probe_retrying env (destination_of sni target port) plan.timing s in
      (
        record {
          probe_index = permuted;
          target = name;
          resolved_address = address_of target;
          port = port;
          outcome = t.outcome;
          attempts = t.attempts;
          attempt_states = t.attempt_states;
        },
        t.world,
      )

  abbrev pub named_record :
      Env T P S
      → ScanPlan P
      → List (IpAddr × Text)
      → ℕ
      → Option Text
      → Option (Target × ℕ)
      → S
      → Option (ProbeRecord T × S)
  named_record env plan sni permuted (some name) (some e) s =
      some (endpoint_record env plan sni permuted name e s)
  named_record env plan sni permuted (some name) none s = none
  named_record env plan sni permuted none e s = none

  abbrev pub permuted_record :
      Env T P S
      → ScanPlan P
      → List Text
      → List (IpAddr × Text)
      → Option ℕ
      → S
      → Option (ProbeRecord T × S)
  permuted_record env plan names sni none s = none
  permuted_record env plan names sni (some i) s =
      named_record env plan sni i (name_at names (target_index_at plan i)) (probe_at plan i) s

  -- the record for an index of the counter; the panics on an index out of range are `none`
  unfoldable pub worker_probe :
      Env T P S
      → ScanPlan P
      → List Text
      → List (IpAddr × Text)
      → Permutation
      → ℕ
      → S
      → Option (ProbeRecord T × S)
  unfolding probe_retrying destination_of apply target_index_at probe_at
  worker_probe env plan names sni permutation index s =
      permuted_record env plan names sni (apply permutation index) s
