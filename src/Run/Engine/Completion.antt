-- ===== src/Run/Engine/Completion.antt =====
-- A scan of src/run.rs that ends by itself: `scan_completed` stands for every planned probe.
use scanr.Common.{
  ℕ, zero, suc, ◌+◌, ◌^◌, ◌≤◌, ◌<◌, ◌≡◌, ◌≢◌, refl, sym, ap, ◌∙◌, Bool, true, false, List, [], ◌∷◌,
  ◌++◌, All, length, arith,
}
use scanr.Cancel.{cancel_new, is_cancelled}
use scanr.Sched.WorkCounter.{WorkCounter, counter_new}
use scanr.Run.Worker.{Completed, Worker, Shared, Finish, panic, worker_new}
use scanr.Run.Collector.{collector_new, collect_all}
use scanr.Run.Engine.{
  Event, turn_of, receive, hang_up, interrupt, force, Scan, scan_new, workers_new, worker_turn,
  receive_from, scan_step, scan_run,
}
use scanr.Run.Engine.Live.{issued_one, in_batch, in_batch-append, in_queue}
use scanr.Run.Engine.Invariant.{
  all_held, IsCalmScan, worker_turn-Moved, worker_turn-IsLocal, collect_all-append, receive-counter,
  new-all_held,
}
use scanr.Run.Engine.Undisturbed.{IsSpent-later, IsSoundWorker, worker_step-IsSound}

module _ (T : Type 0) where
  -- Nobody interrupts the scan, the collector does not stop, and no worker panics.
  abbrev pub IsUndisturbed : Event T → Type 0
  IsUndisturbed (turn_of i f) = f ≢ panic
  IsUndisturbed receive = Unit
  IsUndisturbed hang_up = ⊥
  IsUndisturbed interrupt = ⊥
  IsUndisturbed force = ⊥

  sound-later :
      (c d : WorkCounter) (ws : List (Worker T))
      → c.total ≡ d.total
      → c.next ≤ d.next
      → All (IsSoundWorker T c) ws
      → All (IsSoundWorker T d) ws
  sound-later c d [] e l h = tt
  sound-later c d (w ∷ ws) e l h =
      ((h.0.0, IsSpent-later c d w.phase w.items e l h.0.1), sound-later c d ws e l h.1)

  worker_turn-IsSound :
      (i : ℕ) (f : Finish T) (s : Shared T) (ws : List (Worker T))
      → s.counter.next + 1 < 2 ^ 64
      → IsCalmScan T f s ws
      → All (IsSoundWorker T s.counter) ws
      → All (IsSoundWorker T (worker_turn T i f s ws).0.counter) (worker_turn T i f s ws).1
        × (length (worker_turn T i f s ws).1 ≡ length ws)
  unfolding worker_turn
  worker_turn-IsSound i f s [] l c h = (tt, refl)
  worker_turn-IsSound zero f s (w ∷ ws) l c h =
      let near = worker_turn-IsLocal T zero f s (w ∷ ws) in
      (
        (
          worker_step-IsSound T f s w l
              (record {
                running = c.running;
                receiving = c.receiving;
                listening = c.listening.0;
                quiet = c.quiet;
              })
              h.0.1,
          sound-later s.counter (worker_turn T zero f s (w ∷ ws)).0.counter ws (sym near.total_kept)
              (near.next_grows l) h.1,
        ),
        refl,
      )
  worker_turn-IsSound (suc i) f s (w ∷ ws) l c h =
      let near = worker_turn-IsLocal T i f s ws in
      let (rest, same) =
        worker_turn-IsSound i f s ws l
          (record {
            running = c.running;
            receiving = c.receiving;
            listening = c.listening.1;
            quiet = c.quiet;
          })
          h.1 in
      (
        (
          (
            h.0.0,
            IsSpent-later s.counter (worker_turn T i f s ws).0.counter w.phase w.items
                (sym near.total_kept) (near.next_grows l) h.0.1,
          ),
          rest,
        ),
        ap suc same,
      )

  -- Each issued index is in exactly one place.
  pub record IsWhole (total : ℕ) (spans : Bool) (n : ℕ) (s : Scan T) : Type 0 where
    pub log : List (Completed T)
    pub known : s.collected ≡ collect_all T log (collector_new T total spans)
    pub each :
        (k : ℕ)
        → in_batch T k log + all_held T k s.workers + in_queue T k s.shared.channel.queue
          ≡ issued_one k s.shared.counter
    pub size : s.shared.counter.total ≡ total
    pub running : is_cancelled s.shared.cancel ≡ false
    pub receiving : s.shared.channel.receiver ≡ true
    pub sound : All (IsSoundWorker T s.shared.counter) s.workers
    pub crew : length s.workers ≡ n

  none_closed :
      (c : WorkCounter) (ws : List (Worker T))
      → All (IsSoundWorker T c) ws
      → All (λ w. w.closed ≡ false) ws
  none_closed c [] h = tt
  none_closed c (w ∷ ws) h = (h.0.0, none_closed c ws h.1)

  receive-IsWhole :
      (total : ℕ) (spans : Bool) (n : ℕ) (q : List (List (Completed T))) (s : Scan T)
      → q ≡ s.shared.channel.queue
      → IsWhole total spans n s
      → IsWhole total spans n (receive_from T q s)
  unfolding receive_from
  receive-IsWhole total spans n [] s e a = a
  receive-IsWhole total spans n (b ∷ q) s e a = record {
    log = a.log ++ b;
    known =
        ap (collect_all T b) a.known
        ∙ sym (collect_all-append T a.log b (collector_new T total spans));
    each = λ k.
        let same = ap (in_queue T k) e in
        omega (arith, a.each k, in_batch-append T k a.log b, same);
    size = a.size;
    running = a.running;
    receiving = a.receiving;
    sound = a.sound;
    crew = a.crew;
  }

  scan_step-IsWhole :
      (total : ℕ) (spans : Bool) (n : ℕ) (e : Event T) (s : Scan T)
      → s.shared.counter.next + 1 < 2 ^ 64
      → IsUndisturbed e
      → IsWhole total spans n s
      → IsWhole total spans n (scan_step T e s)
        × ((scan_step T e s).shared.counter.next ≤ s.shared.counter.next + 1)
  unfolding scan_step
  scan_step-IsWhole total spans n (turn_of i f) s l u a =
      let near = worker_turn-IsLocal T i f s.shared s.workers in
      let calm : IsCalmScan T f s.shared s.workers = record {
        running = a.running;
        receiving = a.receiving;
        listening = none_closed s.shared.counter s.workers a.sound;
        quiet = u;
      } in
      let (sound, same) = worker_turn-IsSound i f s.shared s.workers l calm a.sound in
      (
        record {
          log = a.log;
          known = a.known;
          each = λ k.
              let (lost, e, none_lost) = worker_turn-Moved T k i f s.shared s.workers l in
              omega (arith, a.each k, e, none_lost calm);
          size = near.total_kept ∙ a.size;
          running = ap is_cancelled near.cancel_kept ∙ a.running;
          receiving = near.receiver_kept ∙ a.receiving;
          sound = sound;
          crew = same ∙ a.crew;
        },
        near.next_near,
      )
  scan_step-IsWhole total spans n receive s l u a = (
    receive-IsWhole total spans n s.shared.channel.queue s refl a,
    omega (arith, ap (λ (c : WorkCounter). c.next) (receive-counter T s.shared.channel.queue s)),
  )
  scan_step-IsWhole total spans n hang_up s l u a = absurd u
  scan_step-IsWhole total spans n interrupt s l u a = absurd u
  scan_step-IsWhole total spans n force s l u a = absurd u

  scan_run-IsWhole :
      (total : ℕ) (spans : Bool) (n : ℕ) (es : List (Event T)) (s : Scan T)
      → s.shared.counter.next + length es < 2 ^ 64
      → All IsUndisturbed es
      → IsWhole total spans n s
      → IsWhole total spans n (scan_run T es s)
  unfolding scan_run
  scan_run-IsWhole total spans n [] s l u a = a
  scan_run-IsWhole total spans n (e ∷ es) s l u a =
      let (a', near) = scan_step-IsWhole total spans n e s (omega arith) u.0 a in
      scan_run-IsWhole total spans n es (scan_step T e s) (omega arith) u.1 a'

  new-crew :
      (c : WorkCounter) (n : ℕ)
      → All (IsSoundWorker T c) (workers_new T n) × (length (workers_new T n) ≡ n)
  unfolding worker_new
  new-crew c zero = (tt, refl)
  new-crew c (suc n) = let (sound, same) = new-crew c n in (((refl, tt), sound), ap suc same)

  pub scan_new-IsWhole :
      (n total : ℕ) (spans : Bool) (es : List (Event T))
      → length es < 2 ^ 64
      → All IsUndisturbed es
      → IsWhole total spans n (scan_run T es (scan_new T n total spans))
  unfolding scan_new counter_new cancel_new is_cancelled collect_all
  scan_new-IsWhole n total spans es l u =
      scan_run-IsWhole total spans n es (scan_new T n total spans) (omega arith) u (record {
        log = [];
        known = refl;
        each = λ k. ground (arith, new-all_held T k n);
        size = refl;
        running = refl;
        receiving = refl;
        sound = (new-crew (counter_new total) n).0;
        crew = (new-crew (counter_new total) n).1;
      })
