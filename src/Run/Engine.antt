-- ===== src/Run/Engine.antt =====
-- A running scan of src/run.rs: the workers, the channel and the collector, in any order of their steps.
pub mod Live
pub mod Invariant
pub mod Accounting
pub mod Undisturbed
pub mod Completion
pub mod Natural
use scanr.Common.{ℕ, zero, suc, Bool, true, false, List, [], ◌∷◌, if◌then◌else◌}
use scanr.Cancel.{Cancel, cancel_new, request_graceful, request_forced}
use scanr.Sched.WorkCounter.{WorkCounter, counter_new}
use scanr.Run.Worker.{Completed, Channel, Worker, Shared, Finish, worker_new, worker_step}
use scanr.Run.Collector.{Collected, collector_new, collect_all}

-- Whose turn it is: a worker's; the collector's, to receive a batch or, when it stops, to drop the
-- receiver; an interrupt's.
pub data Event (T : Type 0) : Type 0 where
  turn_of : ℕ → Finish T → Event T
  receive : Event T
  hang_up : Event T
  interrupt : Event T
  force : Event T

pub record Scan (T : Type 0) : Type 0 where
  pub shared : Shared T
  pub workers : List (Worker T)
  pub collected : Collected T

module _ (T : Type 0) where
  abbrev pub workers_new : ℕ → List (Worker T)
  workers_new zero = []
  workers_new (suc n) = worker_new T ∷ workers_new n

  unfoldable pub scan_new : ℕ → ℕ → Bool → Scan T
  unfolding counter_new cancel_new worker_new collector_new
  scan_new n_workers total spans = record {
    shared = record {
      counter = counter_new total;
      cancel = cancel_new;
      channel = record { queue = []; receiver = true };
    };
    workers = workers_new n_workers;
    collected = collector_new T total spans;
  }

  unfoldable pub worker_turn :
      ℕ → Finish T → Shared T → List (Worker T) → Shared T × List (Worker T)
  unfolding worker_step
  worker_turn i f s [] = (s, [])
  worker_turn zero f s (w ∷ ws) = let (s', w') = worker_step T f s w in (s', w' ∷ ws)
  worker_turn (suc i) f s (w ∷ ws) = let (s', ws') = worker_turn i f s ws in (s', w ∷ ws')

  -- `recv_timeout`, with what follows on a batch
  unfoldable pub receive_from : List (List (Completed T)) → Scan T → Scan T
  unfolding collect_all
  receive_from [] s = s
  receive_from (batch ∷ queue) s = record s {
    shared = record s.shared { channel = record s.shared.channel { queue = queue } };
    collected = collect_all T batch s.collected;
  }

  unfoldable pub scan_step : Event T → Scan T → Scan T
  unfolding worker_turn receive_from request_graceful request_forced
  scan_step (turn_of i f) s =
      let (shared, workers) = worker_turn i f s.shared s.workers in
      record s { shared = shared; workers = workers }
  scan_step receive s = receive_from s.shared.channel.queue s
  scan_step hang_up s = record s {
    shared = record s.shared { channel = record { queue = []; receiver = false } };
  }
  scan_step interrupt s = record s {
    shared = record s.shared { cancel = request_graceful s.shared.cancel };
  }
  scan_step force s = record s {
    shared = record s.shared { cancel = request_forced s.shared.cancel };
  }

  unfoldable pub scan_run : List (Event T) → Scan T → Scan T
  unfolding scan_step
  scan_run [] s = s
  scan_run (e ∷ es) s = scan_run es (scan_step e s)
