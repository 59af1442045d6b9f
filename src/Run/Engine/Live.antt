-- ===== src/Run/Engine/Live.antt =====
-- Where an index that the counter of a scan has issued can be: in a worker's hands, in a batch that a
-- worker fills or sends, or in the channel. A step of a worker moves it, and loses it only when the
-- scan is stopped or the worker panics.
use scanr.Common.{
  ℕ, ◌+◌, ◌%◌, ◌^◌, ◌<◌, ◌≡◌, ◌≢◌, refl, min, inl, inr, Bool, true, false, ◌||◌, Option, none, some,
  List, [], ◌∷◌, ◌++◌, length, ltb, leb, ◌==◌, if◌then◌else◌, Bool-cases, arith,
}
use scanr.Common.Text.{is_empty}
use scanr.Cancel.{is_cancelled}
use scanr.Sched.WorkCounter.{WorkCounter}
use scanr.Sched.WorkCounter as WorkCounter
use scanr.Run.Worker.{
  Completed, Phase, ready, took, paced, probing, pushed, leaving, ended, Worker, Shared, Finish,
  result, panic, flush, push, send, taken, finish, loop_step, sending, worker_step, channel_depth,
  batch_max, has_pressure,
}
use scanr.Probe.Outcome.{is_open}

abbrev pub in_hand : ℕ → Phase → ℕ
in_hand k (took i) = if k == i then 1 else 0
in_hand k (paced i) = if k == i then 1 else 0
in_hand k (probing i) = if k == i then 1 else 0
in_hand k ready = 0
in_hand k pushed = 0
in_hand k leaving = 0
in_hand k ended = 0

-- The index is below what the counter has issued.
abbrev pub issued_one : ℕ → WorkCounter → ℕ
issued_one k c = if ltb k (min c.next c.total) then 1 else 0

module _ (T : Type 0) where
  abbrev pub in_batch : ℕ → List (Completed T) → ℕ
  in_batch k [] = 0
  in_batch k (c ∷ cs) = (if k == c.raw_index then 1 else 0) + in_batch k cs

  pub in_batch-append :
      (k : ℕ) (xs ys : List (Completed T)) → in_batch k (xs ++ ys) ≡ in_batch k xs + in_batch k ys
  in_batch-append k [] ys = omega arith
  in_batch-append k (x ∷ xs) ys = omega (arith, in_batch-append k xs ys)

  abbrev pub in_queue : ℕ → List (List (Completed T)) → ℕ
  in_queue k [] = 0
  in_queue k (b ∷ bs) = in_batch k b + in_queue k bs

  in_queue-append :
      (k : ℕ) (xs : List (List (Completed T))) (b : List (Completed T))
      → in_queue k (xs ++ b ∷ []) ≡ in_queue k xs + in_batch k b
  in_queue-append k [] b = omega arith
  in_queue-append k (x ∷ xs) b = omega (arith, in_queue-append k xs b)

  abbrev pub in_send : ℕ → Option (List (Completed T)) → ℕ
  in_send k none = 0
  in_send k (some b) = in_batch k b

  -- how often a worker holds the index
  abbrev pub held : ℕ → Worker T → ℕ
  held k w = in_hand k w.phase + in_batch k w.items + in_send k w.outgoing

  -- the batch alone, whatever the phase
  abbrev stored : ℕ → Worker T → ℕ
  stored k w = in_batch k w.items + in_send k w.outgoing

  flush-stored : (k : ℕ) (w : Worker T) → w.outgoing ≡ none → stored k (flush T w) ≡ stored k w
  unfolding flush
  flush-stored k w e = elim (Bool-cases (is_empty w.items || w.closed)) [
    | inl h ↦ rw h refl
    | inr h ↦ rw (h, e) (omega arith)
  ]

  flush-phase : (w : Worker T) → ((flush T w).phase ≡ w.phase) × ((flush T w).closed ≡ w.closed)
  unfolding flush
  flush-phase w = ground arith

  flush_if :
      (k : ℕ) (b : Bool) (w : Worker T)
      → w.outgoing ≡ none
      → (stored k (if b then flush T w else w) ≡ stored k w)
        × ((if b then flush T w else w).closed ≡ w.closed)
  flush_if k true w e = (flush-stored k w e, (flush-phase w).1)
  flush_if k false w e = (refl, refl)

  push-stored :
      (k : ℕ) (c : Completed T) (old : Bool) (w : Worker T)
      → w.outgoing ≡ none
      → (stored k (push T c old w) ≡ stored k w + (if k == c.raw_index then 1 else 0))
        × ((push T c old w).closed ≡ w.closed)
  unfolding push
  push-stored k c old w e =
      let more = in_batch-append k w.items (c ∷ []) in
      let (same, open_still) =
        flush_if k
          (is_open c.record_of.outcome
            || has_pressure T c.record_of.outcome
            || leb batch_max (length (w.items ++ c ∷ []))
            || old)
          (record w { items = w.items ++ c ∷ [] }) e in
      (omega (arith, same, more), open_still)

  -- Nothing stops the scan, and the probe in hand does not panic.
  pub record IsCalm (f : Finish T) (s : Shared T) (w : Worker T) : Type 0 where
    pub running : is_cancelled s.cancel ≡ false
    pub receiving : s.channel.receiver ≡ true
    pub listening : w.closed ≡ false
    pub quiet : f ≢ panic

  -- A step from one state of the index to another: what is lost is not lost when all is calm.
  abbrev pub Moved : ℕ → Finish T → Shared T → Worker T → Shared T × Worker T → Type 0
  Moved k f s w after =
      (lost : ℕ) × (held k after.1
          + in_queue k after.0.channel.queue
          + lost
          + issued_one k s.counter
        ≡ held k w + in_queue k s.channel.queue + issued_one k after.0.counter)
      × (IsCalm f s w → lost ≡ 0)

  finish-Moved :
      (k i : ℕ) (f : Finish T) (s : Shared T) (w : Worker T)
      → w.phase ≡ probing i
      → w.outgoing ≡ none
      → Moved k f s w (s, finish T i f w)
  unfolding finish
  finish-Moved k i (result r old) s w p e =
      let (same, open_still) = push-stored k (record { raw_index = i; record_of = r }) old w e in
      let hand : in_hand k w.phase ≡ (if k == i then 1 else 0) = rw p refl in
      (0, omega (arith, same, hand), λ c. refl)
  finish-Moved k i panic s w p e =
      let hand : in_hand k w.phase ≡ (if k == i then 1 else 0) = rw p refl in
      ((if k == i then 1 else 0), omega (arith, hand), λ c. absurd (c.quiet refl))

  take-issued :
      (k : ℕ) (c : WorkCounter)
      → c.next + 1 < 2 ^ 64
      → in_hand k (taken T (WorkCounter.take c).0) + issued_one k c
        ≡ issued_one k (WorkCounter.take c).1
  unfolding WorkCounter.take
  take-issued k c l =
      let wrap : (c.next + 1) % 2 ^ 64 ≡ c.next + 1 = omega arith in
      elim (Bool-cases (ltb c.next c.total)) [
        | inl h ↦ rw (h, wrap) (ground arith)
        | inr h ↦ rw (h, wrap) (ground arith)
      ]

  loop_step-Moved :
      (k : ℕ) (f : Finish T) (s : Shared T) (w : Worker T) (p : Phase)
      → w.phase ≡ p
      → w.outgoing ≡ none
      → s.counter.next + 1 < 2 ^ 64
      → Moved k f s w (loop_step T p f s w)
  unfolding loop_step
  loop_step-Moved k f s w ready p e l =
      let hand : in_hand k w.phase ≡ 0 = rw p refl in
      (0, omega (arith, take-issued k s.counter l, hand), λ c. refl)
  loop_step-Moved k f s w (took i) p e l =
      let hand : in_hand k w.phase ≡ (if k == i then 1 else 0) = rw p refl in
      elim (Bool-cases (is_cancelled s.cancel)) [
        | inl h ↦ rw h ((if k == i then 1 else 0), omega (arith, hand), λ c. cc (c.running))
        | inr h ↦ rw h (0, omega (arith, hand), λ c. refl)
      ]
  loop_step-Moved k f s w (paced i) p e l =
      let hand : in_hand k w.phase ≡ (if k == i then 1 else 0) = rw p refl in
      elim (Bool-cases (is_cancelled s.cancel)) [
        | inl h ↦ rw h ((if k == i then 1 else 0), omega (arith, hand), λ c. cc (c.running))
        | inr h ↦ rw h (0, omega (arith, hand), λ c. refl)
      ]
  loop_step-Moved k f s w (probing i) p e l = finish-Moved k i f s w p e
  loop_step-Moved k f s w pushed p e l =
      let hand : in_hand k w.phase ≡ 0 = rw p refl in
      elim (Bool-cases w.closed) [
        | inl h ↦ rw h (0, omega (arith, hand), λ c. refl)
        | inr h ↦ rw h (0, omega (arith, hand), λ c. refl)
      ]
  loop_step-Moved k f s w leaving p e l =
      let hand : in_hand k w.phase ≡ 0 = rw p refl in
      (0, omega (arith, hand, flush-stored k w e), λ c. refl)
  loop_step-Moved k f s w ended p e l = (0, omega arith, λ c. refl)

  send-Moved :
      (k : ℕ) (b : List (Completed T)) (f : Finish T) (s : Shared T) (w : Worker T)
      → w.outgoing ≡ some b
      → Moved k f s w (sending T (some b) f s w)
  unfolding sending send
  send-Moved k b f s w e =
      let out : in_send k w.outgoing ≡ in_batch k b = rw e refl in
      elim (Bool-cases s.channel.receiver) [
        | inl h ↦ elim (Bool-cases (ltb (length s.channel.queue) channel_depth)) [
          | inl room ↦
              rw (h, room) (0, omega (arith, out, in_queue-append k s.channel.queue b), λ c. refl)
          | inr full ↦ rw (h, full) (0, omega arith, λ c. refl)
        ]
        | inr h ↦ rw h (in_batch k b, omega (arith, out), λ c. cc (c.receiving))
      ]

  sending-Moved :
      (k : ℕ) (o : Option (List (Completed T))) (f : Finish T) (s : Shared T) (w : Worker T)
      → w.outgoing ≡ o
      → s.counter.next + 1 < 2 ^ 64
      → Moved k f s w (sending T o f s w)
  unfolding sending
  sending-Moved k (some b) f s w e l = send-Moved k b f s w e
  sending-Moved k none f s w e l = loop_step-Moved k f s w w.phase refl e l

  pub worker_step-Moved :
      (k : ℕ) (f : Finish T) (s : Shared T) (w : Worker T)
      → s.counter.next + 1 < 2 ^ 64
      → Moved k f s w (worker_step T f s w)
  unfolding worker_step
  worker_step-Moved k f s w l = sending-Moved k w.outgoing f s w refl l
