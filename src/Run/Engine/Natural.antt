-- ===== src/Run/Engine/Natural.antt =====
-- The end of a scan of src/run.rs that nobody disturbs: the threads have ended and the channel is empty.
use scanr.Common.{
  ℕ, ◌^◌, ◌≤◌, ◌<◌, ◌≡◌, refl, inl, inr, Bool, none, List, [], ◌∷◌, All, In, length, ltb, ◌==◌,
  if◌then◌else◌, Bool-cases, arith,
}
use scanr.Output.Record.{abandoned_count, not_started}
use scanr.Sched.WorkCounter.{WorkCounter, issued}
use scanr.Run.Reported.{max_tracked_probes}
use scanr.Run.Worker.{Completed, ended, Worker}
use scanr.Run.Engine.{Event, Scan, scan_new, scan_run}
use scanr.Run.Engine.Live.{issued_one, in_hand, in_batch, in_queue, in_send, held}
use scanr.Run.Engine.Invariant.{all_held}
use scanr.Run.Engine.Accounting.{raw_indices, concluded}
use scanr.Run.Engine.Undisturbed.{IsSpent, IsSoundWorker}
use scanr.Run.Engine.Completion.{IsUndisturbed, IsWhole, scan_new-IsWhole}
use scanr.Run.Terminal.{completed, termination_of, exit_code_for, conclude}

module _ (T : Type 0) where
  -- The thread has ended, and its last batch is sent.
  abbrev pub IsEnded : Worker T → Type 0
  IsEnded w = (w.phase ≡ ended) × (w.outgoing ≡ none)

  ended_holds :
      (k : ℕ) (c : WorkCounter) (w : Worker T)
      → IsSoundWorker T c w
      → IsEnded w
      → (held T k w ≡ 0) × (c.total ≤ c.next)
  ended_holds k c w s e =
      let spent : IsSpent c ended w.items = (rw e.0 at (s.1)) in
      let hand : in_hand k w.phase ≡ 0 = rw e.0 refl in
      let kept : in_batch T k w.items ≡ 0 = rw spent.1 refl in
      let sent : in_send T k w.outgoing ≡ 0 = rw e.1 refl in
      (omega (arith, hand, kept, sent), spent.0)

  ended_hold_none :
      (k : ℕ) (c : WorkCounter) (ws : List (Worker T))
      → All (IsSoundWorker T c) ws
      → All IsEnded ws
      → all_held T k ws ≡ 0
  ended_hold_none k c [] s e = refl
  ended_hold_none k c (w ∷ ws) s e =
      omega (arith, (ended_holds k c w s.0 e.0).0, ended_hold_none k c ws s.1 e.1)

  ended_exhaust :
      (c : WorkCounter) (ws : List (Worker T))
      → 0 < length ws
      → All (IsSoundWorker T c) ws
      → All IsEnded ws
      → c.total ≤ c.next
  ended_exhaust c [] l s e = absurd (omega arith)
  ended_exhaust c (w ∷ ws) l s e = (ended_holds 0 c w s.0 e.0).1

  none_missing :
      (left raws : List ℕ) (n : ℕ)
      → ((k : ℕ) → k < n → In k raws)
      → ((k : ℕ) → In k left → (k < n) × ¬ In k raws)
      → length left ≡ 0
  none_missing [] raws n all gone = refl
  none_missing (k ∷ left) raws n all gone =
      let (l, out) = gone k (inl refl) in absurd (out (all k l))

  In-of-in_batch :
      (k : ℕ) (log : List (Completed T)) → 1 ≤ in_batch T k log → In k (raw_indices T log)
  In-of-in_batch k [] l = absurd (omega arith)
  In-of-in_batch k (c ∷ log) l = elim (Bool-cases (k == c.raw_index)) [
    | inl e ↦ inl (ground arith)
    | inr e ↦ inr (In-of-in_batch k log (ground arith))
  ]

  -- what is said of a scan that ended by itself
  pub record IsComplete (total : ℕ) (s : Scan T) : Type 0 where
    pub all_completed : (conclude T s.collected s.shared.counter).0.completed ≡ total
    pub none_abandoned : abandoned_count (conclude T s.collected s.shared.counter).0 ≡ 0
    pub none_left : not_started (conclude T s.collected s.shared.counter).0 ≡ 0
    pub label : termination_of Bool.false 0 s.shared.cancel ≡ completed
    pub code : exit_code_for (termination_of Bool.false 0 s.shared.cancel) Bool.false ≡ 0

  whole-IsComplete :
      (total : ℕ) (spans : Bool) (n : ℕ) (s : Scan T)
      → 0 < n
      → total ≤ max_tracked_probes
      → IsWhole T total spans n s
      → All IsEnded s.workers
      → s.shared.channel.queue ≡ []
      → IsComplete total s
  unfolding issued conclude abandoned_count not_started termination_of exit_code_for
  whole-IsComplete total spans n s pos few w ends empty =
      let counter = s.shared.counter in
      let drained = ended_exhaust counter s.workers (omega (arith, w.crew)) w.sound ends in
      let at_once : issued counter ≡ total = omega (arith, drained, w.size) in
      let single : (k : ℕ) → in_batch T k w.log ≤ (if ltb k (issued counter) then 1 else 0) =
        λ k. omega (arith, w.each k) in
      let (r, resumed, c) =
        concluded T total spans s.collected counter w.log few w.known (omega (arith, at_once))
          single in
      let here : (k : ℕ) → k < total → In k (raw_indices T w.log) = λ k l.
        let queued : in_queue T k s.shared.channel.queue ≡ 0 = rw empty refl in
        let all_here = ended_hold_none k counter s.workers w.sound ends in
        let one : issued_one k counter ≡ 1 = ground (arith, at_once) in
        In-of-in_batch k w.log (omega (arith, w.each k, queued, all_here, one)) in
      let nothing = none_missing r.abandoned_indices (raw_indices T w.log) total here (λ k m.
        let below : k < total = omega (arith, c.handed_out k m, c.from_started, at_once) in
        (below, (c.to_resume k below).0 (inl m))) in
      record {
        all_completed = omega (arith, c.named, nothing, c.partition, at_once);
        none_abandoned = omega (arith, c.named, nothing);
        none_left = omega (arith, c.named, nothing, c.partition, at_once);
        label = rw w.running refl;
        code = rw w.running refl;
      }

-- When nobody interrupts a scan of at most 256 million probes, no worker panics and the writer does not
-- fail: once its workers, of which there is at least one, have ended and the channel is empty, every
-- planned probe is counted as completed, none as abandoned or never started, and the scan is labelled
-- `scan_completed` with exit code 0.
pub scan-IsComplete :
    (T : Type 0) (n total : ℕ) (spans : Bool) (es : List (Event T))
    → 0 < n
    → total ≤ max_tracked_probes
    → length es < 2 ^ 64
    → All (IsUndisturbed T) es
    → All (IsEnded T) (scan_run T es (scan_new T n total spans)).workers
    → (scan_run T es (scan_new T n total spans)).shared.channel.queue ≡ []
    → IsComplete T total (scan_run T es (scan_new T n total spans))
scan-IsComplete T n total spans es pos few l u ends empty =
    whole-IsComplete T total spans n (scan_run T es (scan_new T n total spans)) pos few
      (scan_new-IsWhole T n total spans es l u) ends empty
