-- ===== src/Run/Tests.antt =====
-- A small scan: two hosts, two ports, one worker.
use scanr.Common.{
  ℕ, ◌+◌, ◌<◌, ◌≡◌, ◌↔◌, inl, inr, refl, Bool, true, false, none, some, List, [], ◌∷◌, In, length,
  ltb, if◌then◌else◌, arith,
}
use scanr.Common.Text.{Text, codes}
use scanr.Net.Addr.{v4}
use scanr.Net.Target.{Target, target_addr, target_host}
use scanr.Output.Record.{ProbeRecord}
use scanr.Plan.Probes.{ScanPlan, probe_count, target_names}
use scanr.Plan.Probes.Visits.{VisitsEach, plan-VisitsEach}
use scanr.Plan.Types.{Timing}
use scanr.Probe.Attempts.{from_states}
use scanr.Probe.Outcome.{
  open_state, filtered, local_stack, timeout, Phases, ProbeOutcome, outcome_open, outcome_new,
}
use scanr.Run.Collector.{collector_new, collect_all}
use scanr.Run.Engine.{Event, turn_of, receive, hang_up, interrupt, scan_new, scan_run}
use scanr.Run.Engine.Accounting.{IsConcluded, scan-IsConcluded}
use scanr.Run.Engine.Natural.{IsComplete, scan-IsComplete}
use scanr.Run.Probing.{Env, probe_retrying, destination_of, worker_probe, permutation_of}
use scanr.Run.Probing.Endpoint.{IsRecordOf, worker_probe-IsRecordOf}
use scanr.Run.Probing.Retries.{IsTrying, IsOver, probe_retrying-IsTried}
use scanr.Run.Reported.{Reported, words, word_count, reported_new, mark, mark_all, abandoned}
use scanr.Run.Reported.Abandoned.{abandoned-mark_all}
use scanr.Run.Terminal.{Resume, conclude}
use scanr.Run.Worker.{Completed, result, panic}
use scanr.Transport.Destination.{host}

abbrev tracker : Reported
tracker = record { bits = words (word_count 100); planned = 100 }

apart : ¬ In {A = ℕ} 3 (70 ∷ [])
apart (inl e) = absurd (omega arith)
apart (inr m) = absurd m

abandoned-mark_all_example :
    ((j : ℕ)
      → In j (abandoned (mark_all (3 ∷ 70 ∷ []) tracker) 72)
        ↔ ((j < 72) × ¬ In {A = ℕ} j (3 ∷ 70 ∷ [])))
    × (length (abandoned (mark_all (3 ∷ 70 ∷ []) tracker) 72) + 2 ≡ 72)
unfolding reported_new
abandoned-mark_all_example =
    abandoned-mark_all 100 72 (3 ∷ 70 ∷ []) tracker refl (omega arith)
      (omega arith, (omega arith, tt)) (apart, (λ m. absurd m, tt))

abbrev no_phases : Phases
no_phases = record { proxy_connect = none; handshake = none; connect = none; total = 0 }

abbrev silent : ProbeOutcome Bool
silent = outcome_new Bool filtered timeout (codes "connect timed out") no_phases

abbrev twice : Timing Bool
twice = record {
  concurrency = 1;
  rate = 0;
  proxy_connect_timeout = 1000;
  handshake_timeout = 1000;
  connect_timeout = 1000;
  retries = 2;
  retry_delay = 5;
  banner = none;
  tls = none;
}

abbrev small_plan : ScanPlan Bool
small_plan = record {
  timing = twice;
  targets = target_addr (v4 0x0a00_0001) ∷ target_host (codes "db.lab") ∷ [];
  ports = 22 ∷ 443 ∷ [];
  pairs = none;
  resolved_hosts = [];
  seed = 1;
  spans = true;
}

-- the world is a clock; the port opens at the second look
abbrev slow_port : Env Bool Bool ℕ
slow_port = record {
  probe = λ d t s. ((if ltb s 5 then silent else outcome_open Bool no_phases local_stack), s + 1);
  is_cancelled = λ s. (false, s);
  sleep = λ n s. s + n;
}

probe_retrying-IsTried_example :
    IsTrying slow_port
      (host (codes "db.lab") 22)
      twice
      (probe_retrying slow_port (host (codes "db.lab") 22) twice 0)
    × IsOver slow_port
        (host (codes "db.lab") 22)
        twice
        (probe_retrying slow_port (host (codes "db.lab") 22) twice 0)
probe_retrying-IsTried_example =
    probe_retrying-IsTried slow_port (host (codes "db.lab") 22) twice 0 (omega arith)

asked_twice : (probe_retrying slow_port (host (codes "db.lab") 22) twice 0).attempts ≡ 2
unfolding probe_retrying outcome_new outcome_open
asked_twice = refl

plan-VisitsEach_example : VisitsEach small_plan
unfolding probe_count
plan-VisitsEach_example = plan-VisitsEach small_plan (omega arith) (omega arith)

abbrev show : Target → Text
show (target_addr a) = codes "address"
show (target_host h) = h

worker_probe-IsRecordOf_example :
    (r : ProbeRecord Bool) × (s' : ℕ) × (worker_probe slow_port small_plan
        (target_names show small_plan)
        []
        (permutation_of small_plan)
        3
        0
      ≡ some (r, s'))
    × (about : IsRecordOf show small_plan 3 r) × (r.outcome
        ≡ (probe_retrying slow_port
            (destination_of [] about.endpoint.0 about.endpoint.1)
            twice
            0).outcome)
    × (r.attempts
        ≡ (probe_retrying slow_port
            (destination_of [] about.endpoint.0 about.endpoint.1)
            twice
            0).attempts)
unfolding probe_count
worker_probe-IsRecordOf_example =
    worker_probe-IsRecordOf show slow_port small_plan [] 3 0 (omega arith) (omega arith)
      (omega arith)

-- a port that was found open
abbrev found : ProbeRecord Bool
found = record {
  probe_index = 0;
  target = codes "10.0.0.1";
  resolved_address = some (v4 0x0a00_0001);
  port = 443;
  outcome = outcome_open Bool no_phases local_stack;
  attempts = 1;
  attempt_states = from_states open_state [];
}

abbrev go : Event Bool
go = turn_of 0 (result found true)

-- one probe, from the counter to the collector, and the worker's end
abbrev whole : List (Event Bool)
whole = go ∷ go ∷ go ∷ go ∷ go ∷ go ∷ go ∷ go ∷ receive ∷ []

quiet : result found true ≡ panic → ⊥
quiet h = cc

scan-IsComplete_example : IsComplete Bool 1 (scan_run Bool whole (scan_new Bool 1 1 true))
unfolding scan_run scan_new outcome_open
scan-IsComplete_example =
    scan-IsComplete Bool 1 1 true whole (omega arith) (omega arith) (omega arith)
      (quiet, (quiet, (quiet, (quiet, (quiet, (quiet, (quiet, (quiet, (tt, tt)))))))))
      ((refl, refl), tt) refl

-- three probes: one reported, one in hand when the scan is interrupted, one never started
abbrev cut : List (Event Bool)
cut = go ∷ go ∷ go ∷ go ∷ go ∷ go ∷ receive ∷ go ∷ go ∷ interrupt ∷ go ∷ hang_up ∷ []

scan-IsConcluded_example :
    (log : List (Completed Bool)) × ((scan_run Bool cut (scan_new Bool 1 3 true)).collected
      ≡ collect_all Bool log (collector_new Bool 3 true))
    × (r : Resume) × ((conclude Bool
          (scan_run Bool cut (scan_new Bool 1 3 true)).collected
          (scan_run Bool cut (scan_new Bool 1 3 true)).shared.counter).1
        ≡ some r)
    × IsConcluded Bool 3 log
        (conclude Bool
          (scan_run Bool cut (scan_new Bool 1 3 true)).collected
          (scan_run Bool cut (scan_new Bool 1 3 true)).shared.counter).0
        r
scan-IsConcluded_example = scan-IsConcluded Bool 1 3 true cut (omega arith) (omega arith)

-- the probe that was cut short is abandoned
resumes_with_one :
    (conclude Bool
      (scan_run Bool cut (scan_new Bool 1 3 true)).collected
      (scan_run Bool cut (scan_new Bool 1 3 true)).shared.counter).1
    ≡ some (record { not_started_from = 2; abandoned_indices = 1 ∷ [] })
unfolding conclude scan_run scan_new outcome_open mark
resumes_with_one = refl
