-- ===== src/Run/Engine/Undisturbed.antt =====
-- A scan of src/run.rs that nobody interrupts and in which no worker panics: no result is lost, and a
-- worker stops only once the counter is exhausted.
use scanr.Common.{
  ◌+◌, ◌%◌, ◌^◌, ◌≤◌, ◌<◌, ◌≡◌, refl, ◌∙◌, inl, inr, Bool, true, false, ◌||◌, Option, none, some,
  List, [], ◌∷◌, ◌++◌, length, ltb, leb, if◌then◌else◌, Bool-cases, arith,
}
use scanr.Common.Text.{is_empty}
use scanr.Sched.WorkCounter.{WorkCounter}
use scanr.Sched.WorkCounter as WorkCounter
use scanr.Run.Worker.{
  Completed, Phase, ready, took, paced, probing, pushed, leaving, ended, Worker, Shared, Finish,
  result, panic, flush, push, send, taken, finish, loop_step, sending, worker_step, channel_depth,
  batch_max, has_pressure,
}
use scanr.Probe.Outcome.{is_open}
use scanr.Run.Engine.Live.{IsCalm}

-- A worker that is on its way out has found the counter exhausted; at its end it holds no results.
abbrev pub IsSpent : {A : Type 0} → WorkCounter → Phase → List A → Type 0
IsSpent c ready items = Unit
IsSpent c (took i) items = Unit
IsSpent c (paced i) items = Unit
IsSpent c (probing i) items = Unit
IsSpent c pushed items = Unit
IsSpent c leaving items = c.total ≤ c.next
IsSpent c ended items = (c.total ≤ c.next) × (items ≡ [])

pub IsSpent-later :
    {A : Type 0} (c d : WorkCounter) (p : Phase) (items : List A)
    → c.total ≡ d.total
    → c.next ≤ d.next
    → IsSpent c p items
    → IsSpent d p items
IsSpent-later c d ready items e l h = tt
IsSpent-later c d (took i) items e l h = tt
IsSpent-later c d (paced i) items e l h = tt
IsSpent-later c d (probing i) items e l h = tt
IsSpent-later c d pushed items e l h = tt
IsSpent-later c d leaving items e l h = omega arith
IsSpent-later c d ended items e l h = (omega (arith, h.0), h.1)

module _ (T : Type 0) where
  abbrev pub IsSoundWorker : WorkCounter → Worker T → Type 0
  IsSoundWorker c w = (w.closed ≡ false) × IsSpent c w.phase w.items

  flush-empties :
      (w : Worker T) → w.closed ≡ false → ((flush T w).items ≡ []) × ((flush T w).closed ≡ false)
  unfolding flush
  flush-empties w e = go w.items refl
    where
      go :
          (items : List (Completed T))
          → w.items ≡ items
          → ((if is_empty w.items || w.closed
                then w
                else record w { items = []; outgoing = some w.items }).items
              ≡ [])
            × ((if is_empty w.items || w.closed
                  then w
                  else record w { items = []; outgoing = some w.items }).closed
                ≡ false)
      go [] h = ground arith
      go (x ∷ xs) h = ground arith

  flush_if-closed : (b : Bool) (w : Worker T) → (if b then flush T w else w).closed ≡ w.closed
  unfolding flush
  flush_if-closed true w = ground arith
  flush_if-closed false w = refl

  push-closed : (c : Completed T) (old : Bool) (w : Worker T) → (push T c old w).closed ≡ w.closed
  unfolding push
  push-closed c old w =
      flush_if-closed
        (is_open c.record_of.outcome
          || has_pressure T c.record_of.outcome
          || leb batch_max (length (w.items ++ c ∷ []))
          || old)
        (record w { items = w.items ++ c ∷ [] })

  taken-IsSpent :
      (c : WorkCounter) (items : List (Completed T))
      → c.next + 1 < 2 ^ 64
      → IsSpent (WorkCounter.take c).1 (taken T (WorkCounter.take c).0) items
  unfolding WorkCounter.take
  taken-IsSpent c items l =
      let wrap : (c.next + 1) % 2 ^ 64 ≡ c.next + 1 = omega arith in
      elim (Bool-cases (ltb c.next c.total)) [
        | inl h ↦ rw h tt
        | inr h ↦ rw (h, wrap) (ground arith)
      ]

  loop_step-IsSound :
      (p : Phase) (f : Finish T) (s : Shared T) (w : Worker T)
      → s.counter.next + 1 < 2 ^ 64
      → IsCalm T f s w
      → w.phase ≡ p
      → IsSpent s.counter p w.items
      → IsSoundWorker (loop_step T p f s w).0.counter (loop_step T p f s w).1
  unfolding loop_step finish
  loop_step-IsSound ready f s w l c e h = (c.listening, taken-IsSpent s.counter w.items l)
  loop_step-IsSound (took i) f s w l c e h = rw c.running (c.listening, tt)
  loop_step-IsSound (paced i) f s w l c e h = rw c.running (c.listening, tt)
  loop_step-IsSound (probing i) (result r old) s w l c e h =
      (push-closed (record { raw_index = i; record_of = r }) old w ∙ c.listening, tt)
  loop_step-IsSound (probing i) panic s w l c e h = absurd (c.quiet refl)
  loop_step-IsSound pushed f s w l c e h = rw c.listening (refl, tt)
  loop_step-IsSound leaving f s w l c e h =
      let (empty, open_still) = flush-empties w c.listening in (open_still, (h, empty))
  loop_step-IsSound ended f s w l c e h = (c.listening, rw e h)

  sending-IsSound :
      (o : Option (List (Completed T))) (f : Finish T) (s : Shared T) (w : Worker T)
      → s.counter.next + 1 < 2 ^ 64
      → IsCalm T f s w
      → IsSpent s.counter w.phase w.items
      → IsSoundWorker (sending T o f s w).0.counter (sending T o f s w).1
  unfolding sending send
  sending-IsSound none f s w l c h = loop_step-IsSound w.phase f s w l c refl h
  sending-IsSound (some b) f s w l c h =
      elim (Bool-cases (ltb (length s.channel.queue) channel_depth)) [
        | inl room ↦ rw (c.receiving, room) (c.listening, h)
        | inr full ↦ rw (c.receiving, full) (c.listening, h)
      ]

  pub worker_step-IsSound :
      (f : Finish T) (s : Shared T) (w : Worker T)
      → s.counter.next + 1 < 2 ^ 64
      → IsCalm T f s w
      → IsSpent s.counter w.phase w.items
      → IsSoundWorker (worker_step T f s w).0.counter (worker_step T f s w).1
  unfolding worker_step
  worker_step-IsSound f s w l c h = sending-IsSound w.outgoing f s w l c h
