-- ===== src/Run/Engine/Invariant.antt =====
-- The invariant of a running scan of src/run.rs: each index that the counter issued is in at most one
-- place, and what the collector knows comes from the results that it received.
use scanr.Common.{
  ℕ, zero, suc, ◌+◌, ◌^◌, ◌≤◌, ◌<◌, ◌≡◌, ◌≢◌, refl, sym, ap, ◌∙◌, Bool, true, false, Option, none,
  some, List, [], ◌∷◌, ◌++◌, All, length, arith,
}
use scanr.Cancel.{is_cancelled}
use scanr.Sched.WorkCounter.{WorkCounter, counter_new}
use scanr.Sched.WorkCounter as WorkCounter
use scanr.Run.Worker.{
  Completed, Phase, ready, Worker, Shared, Finish, panic, loop_step, send, sending, worker_step,
  worker_new,
}
use scanr.Run.Collector.{Collected, collector_new, collect_all}
use scanr.Run.Engine.{
  Event, turn_of, receive, hang_up, interrupt, force, Scan, scan_new, workers_new, worker_turn,
  receive_from, scan_step, scan_run,
}
use scanr.Run.Engine.Live.{issued_one, in_batch, in_batch-append, in_queue, held, worker_step-Moved}

module _ (T : Type 0) where
  abbrev pub all_held : ℕ → List (Worker T) → ℕ
  all_held k [] = 0
  all_held k (w ∷ ws) = held T k w + all_held k ws

  -- Nothing stops the scan, and no worker has given up on the channel.
  pub record IsCalmScan (f : Finish T) (s : Shared T) (ws : List (Worker T)) : Type 0 where
    pub running : is_cancelled s.cancel ≡ false
    pub receiving : s.channel.receiver ≡ true
    pub listening : All (λ w. w.closed ≡ false) ws
    pub quiet : f ≢ panic

  pub worker_turn-Moved :
      (k i : ℕ) (f : Finish T) (s : Shared T) (ws : List (Worker T))
      → s.counter.next + 1 < 2 ^ 64
      → (lost : ℕ) × (all_held k (worker_turn T i f s ws).1
            + in_queue T k (worker_turn T i f s ws).0.channel.queue
            + lost
            + issued_one k s.counter
          ≡ all_held k ws
            + in_queue T k s.channel.queue
            + issued_one k (worker_turn T i f s ws).0.counter)
        × (IsCalmScan f s ws → lost ≡ 0)
  unfolding worker_turn
  worker_turn-Moved k i f s [] l = (0, omega arith, λ c. refl)
  worker_turn-Moved k zero f s (w ∷ ws) l =
      let (lost, e, calm) = worker_step-Moved T k f s w l in
      (
        lost,
        omega (arith, e),
        λ c. calm (record {
          running = c.running;
          receiving = c.receiving;
          listening = c.listening.0;
          quiet = c.quiet;
        }),
      )
  worker_turn-Moved k (suc i) f s (w ∷ ws) l =
      let (lost, e, calm) = worker_turn-Moved k i f s ws l in
      (
        lost,
        omega (arith, e),
        λ c. calm (record {
          running = c.running;
          receiving = c.receiving;
          listening = c.listening.1;
          quiet = c.quiet;
        }),
      )

  -- What a step of a worker leaves alone, and by how much the counter may move.
  pub record IsLocal (s s' : Shared T) : Type 0 where
    pub total_kept : s'.counter.total ≡ s.counter.total
    pub next_near : s'.counter.next ≤ s.counter.next + 1
    pub next_grows : s.counter.next + 1 < 2 ^ 64 → s.counter.next ≤ s'.counter.next
    pub cancel_kept : s'.cancel ≡ s.cancel
    pub receiver_kept : s'.channel.receiver ≡ s.channel.receiver

  loop_step-IsLocal :
      (p : Phase) (f : Finish T) (s : Shared T) (w : Worker T) → IsLocal s (loop_step T p f s w).0
  unfolding loop_step WorkCounter.take
  loop_step-IsLocal ready f s w = record {
    total_kept = refl;
    next_near = omega arith;
    next_grows = λ l. omega arith;
    cancel_kept = refl;
    receiver_kept = refl;
  }
  loop_step-IsLocal p f s w = record {
    total_kept = refl;
    next_near = omega arith;
    next_grows = λ l. omega arith;
    cancel_kept = refl;
    receiver_kept = refl;
  }

  sending-IsLocal :
      (o : Option (List (Completed T))) (f : Finish T) (s : Shared T) (w : Worker T)
      → IsLocal s (sending T o f s w).0
  unfolding sending send
  sending-IsLocal none f s w = loop_step-IsLocal w.phase f s w
  sending-IsLocal (some b) f s w = record {
    total_kept = refl;
    next_near = omega arith;
    next_grows = λ l. omega arith;
    cancel_kept = refl;
    receiver_kept = ground arith;
  }

  pub worker_turn-IsLocal :
      (i : ℕ) (f : Finish T) (s : Shared T) (ws : List (Worker T))
      → IsLocal s (worker_turn T i f s ws).0
  unfolding worker_turn worker_step
  worker_turn-IsLocal i f s [] = record {
    total_kept = refl;
    next_near = omega arith;
    next_grows = λ l. omega arith;
    cancel_kept = refl;
    receiver_kept = refl;
  }
  worker_turn-IsLocal zero f s (w ∷ ws) = sending-IsLocal w.outgoing f s w
  worker_turn-IsLocal (suc i) f s (w ∷ ws) = worker_turn-IsLocal i f s ws

  -- `log` are the results that the collector has received, in order.
  pub record IsAccounted (total : ℕ) (spans : Bool) (s : Scan T) : Type 0 where
    pub log : List (Completed T)
    pub known : s.collected ≡ collect_all T log (collector_new T total spans)
    pub once :
        (k : ℕ)
        → in_batch T k log + all_held k s.workers + in_queue T k s.shared.channel.queue
          ≤ issued_one k s.shared.counter
    pub size : s.shared.counter.total ≡ total

  pub collect_all-append :
      (xs ys : List (Completed T)) (c : Collected T)
      → collect_all T (xs ++ ys) c ≡ collect_all T ys (collect_all T xs c)
  unfolding collect_all
  collect_all-append [] ys c = refl
  collect_all-append (x ∷ xs) ys c = collect_all-append xs ys _

  receive-IsAccounted :
      (total : ℕ) (spans : Bool) (q : List (List (Completed T))) (s : Scan T)
      → q ≡ s.shared.channel.queue
      → IsAccounted total spans s
      → IsAccounted total spans (receive_from T q s)
  unfolding receive_from
  receive-IsAccounted total spans [] s e a = a
  receive-IsAccounted total spans (b ∷ q) s e a = record {
    log = a.log ++ b;
    known =
        ap (collect_all T b) a.known
        ∙ sym (collect_all-append a.log b (collector_new T total spans));
    once = λ k.
        let same = ap (in_queue T k) e in
        omega (arith, a.once k, in_batch-append T k a.log b, same);
    size = a.size;
  }

  pub receive-counter :
      (q : List (List (Completed T))) (s : Scan T)
      → (receive_from T q s).shared.counter ≡ s.shared.counter
  unfolding receive_from
  receive-counter [] s = refl
  receive-counter (b ∷ q) s = refl

  scan_step-IsAccounted :
      (total : ℕ) (spans : Bool) (e : Event T) (s : Scan T)
      → s.shared.counter.next + 1 < 2 ^ 64
      → IsAccounted total spans s
      → IsAccounted total spans (scan_step T e s)
        × ((scan_step T e s).shared.counter.next ≤ s.shared.counter.next + 1)
  unfolding scan_step
  scan_step-IsAccounted total spans (turn_of i f) s l a =
      let near = worker_turn-IsLocal i f s.shared s.workers in
      (
        record {
          log = a.log;
          known = a.known;
          once = λ k.
              let (lost, e, calm) = worker_turn-Moved k i f s.shared s.workers l in
              omega (arith, a.once k, e);
          size = near.total_kept ∙ a.size;
        },
        near.next_near,
      )
  scan_step-IsAccounted total spans receive s l a = (
    receive-IsAccounted total spans s.shared.channel.queue s refl a,
    omega (arith, ap (λ (c : WorkCounter). c.next) (receive-counter s.shared.channel.queue s)),
  )
  scan_step-IsAccounted total spans hang_up s l a = (
    record { log = a.log; known = a.known; once = λ k. omega (arith, a.once k); size = a.size },
    omega arith,
  )
  scan_step-IsAccounted total spans interrupt s l a =
      (record { log = a.log; known = a.known; once = a.once; size = a.size }, omega arith)
  scan_step-IsAccounted total spans force s l a =
      (record { log = a.log; known = a.known; once = a.once; size = a.size }, omega arith)

  scan_run-IsAccounted :
      (total : ℕ) (spans : Bool) (es : List (Event T)) (s : Scan T)
      → s.shared.counter.next + length es < 2 ^ 64
      → IsAccounted total spans s
      → IsAccounted total spans (scan_run T es s)
  unfolding scan_run
  scan_run-IsAccounted total spans [] s l a = a
  scan_run-IsAccounted total spans (e ∷ es) s l a =
      let (a', near) = scan_step-IsAccounted total spans e s (omega arith) a in
      scan_run-IsAccounted total spans es (scan_step T e s) (omega arith) a'

  pub new-all_held : (k n : ℕ) → all_held k (workers_new T n) ≡ 0
  unfolding worker_new
  new-all_held k zero = refl
  new-all_held k (suc n) = omega (arith, new-all_held k n)

  -- Whatever the order of the steps, a scan stays accounted for.
  pub scan_new-IsAccounted :
      (n total : ℕ) (spans : Bool) (es : List (Event T))
      → length es < 2 ^ 64
      → IsAccounted total spans (scan_run T es (scan_new T n total spans))
  unfolding scan_new counter_new collect_all
  scan_new-IsAccounted n total spans es l =
      scan_run-IsAccounted total spans es (scan_new T n total spans) (omega arith) (record {
        log = [];
        known = refl;
        once = λ k. omega (arith, new-all_held k n);
        size = refl;
      })
