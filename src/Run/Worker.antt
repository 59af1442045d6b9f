-- ===== src/Run/Worker.antt =====
-- `worker`, `Batch` and the bounded channel of src/run.rs. A worker moves one step at a time: each access
-- to the counter, the cancel flag or the channel is a step, and the probe with its retries is one.

use scanr.Common.{
  ℕ, Bool, true, false, ◌||◌, Option, none, some, List, [], ◌∷◌, ◌++◌, length, ltb, leb,
  if◌then◌else◌,
}
use scanr.Common.Text.{is_empty}
use scanr.Cancel.{Cancel, is_cancelled}
use scanr.Output.Record.{ProbeRecord}
use scanr.Probe.Outcome.{ProbeOutcome, is_open}
use scanr.Sched.WorkCounter.{WorkCounter}
use scanr.Sched.WorkCounter as WorkCounter

abbrev pub batch_max : ℕ
batch_max = 64

abbrev pub channel_depth : ℕ
channel_depth = 256

-- One completed probe, with the index that the counter issued for it.
pub record Completed (T : Type 0) : Type 0 where
  pub raw_index : ℕ
  pub record_of : ProbeRecord T

-- `sync_channel`: the batches under way, and whether the receiver still stands
pub record Channel (T : Type 0) : Type 0 where
  pub queue : List (List (Completed T))
  pub receiver : Bool

-- Where a worker stands in its loop: at the top; with an index, before the first and before the second
-- test of the flag; in the probe; behind `push`; on its way out, which drops the batch; at its end.
pub data Phase : Type 0 where
  ready : Phase
  took : ℕ → Phase
  paced : ℕ → Phase
  probing : ℕ → Phase
  pushed : Phase
  leaving : Phase
  ended : Phase

-- A worker with its `Batch`; `outgoing` is the batch that it is blocked in sending.
pub record Worker (T : Type 0) : Type 0 where
  pub phase : Phase
  pub items : List (Completed T)
  pub closed : Bool
  pub outgoing : Option (List (Completed T))

-- What the workers share and change.
pub record Shared (T : Type 0) : Type 0 where
  pub counter : WorkCounter
  pub cancel : Cancel
  pub channel : Channel T

-- How the probe in hand ends: with a record, the batch being old by then or not, or by a panic.
pub data Finish (T : Type 0) : Type 0 where
  result : ProbeRecord T → Bool → Finish T
  panic : Finish T

module _ (T : Type 0) where
  unfoldable pub worker_new : Worker T
  worker_new = record { phase = ready; items = []; closed = false; outgoing = none }

  -- `Batch::flush`: the batch is handed to `send`
  unfoldable pub flush : Worker T → Worker T
  flush w =
      if is_empty w.items || w.closed then w else record w { items = []; outgoing = some w.items }

  abbrev pub has_pressure : ProbeOutcome T → Bool
  has_pressure o = elim o.pressure [ none ↦ false | some p ↦ true ]

  -- `Batch::push`
  unfoldable pub push : Completed T → Bool → Worker T → Worker T
  unfolding flush is_open
  push c old w =
      let full = record w { items = w.items ++ c ∷ [] } in
      let urgent = is_open c.record_of.outcome || has_pressure c.record_of.outcome in
      if urgent || leb batch_max (length full.items) || old then flush full else full

  -- `send`: it fails when the receiver is gone, and waits while the channel is full
  unfoldable pub send : List (Completed T) → Channel T → Worker T → Channel T × Worker T
  send batch ch w =
      if ch.receiver
      then (if ltb (length ch.queue) channel_depth
          then (record ch { queue = ch.queue ++ batch ∷ [] }, record w { outgoing = none })
          else (ch, w))
      else (ch, record w { outgoing = none; closed = true })

  -- the index taken, and on or out
  abbrev pub taken : Option ℕ → Phase
  taken none = leaving
  taken (some i) = took i

  abbrev pub at : Worker T → Phase → Worker T
  at w p = record w { phase = p }

  -- the end of the probe of this index
  unfoldable pub finish : ℕ → Finish T → Worker T → Worker T
  unfolding push
  finish i (result r old) w = at (push (record { raw_index = i; record_of = r }) old w) pushed
  finish i panic w = at w leaving

  -- One step of the loop of `worker`, when nothing is being sent.
  unfoldable pub loop_step : Phase → Finish T → Shared T → Worker T → Shared T × Worker T
  unfolding is_cancelled finish flush WorkCounter.take
  loop_step ready f s w =
      let (i, counter) = WorkCounter.take s.counter in
      (record s { counter = counter }, at w (taken i))
  loop_step (took i) f s w = (s, at w (if is_cancelled s.cancel then leaving else paced i))
  loop_step (paced i) f s w = (s, at w (if is_cancelled s.cancel then leaving else probing i))
  loop_step (probing i) f s w = (s, finish i f w)
  loop_step pushed f s w = (s, at w (if w.closed then leaving else ready))
  loop_step leaving f s w = (s, at (flush w) ended)
  loop_step ended f s w = (s, w)

  unfoldable pub sending :
      Option (List (Completed T)) → Finish T → Shared T → Worker T → Shared T × Worker T
  unfolding send loop_step
  sending (some batch) f s w =
      let (ch, w') = send batch s.channel w in (record s { channel = ch }, w')
  sending none f s w = loop_step w.phase f s w

  unfoldable pub worker_step : Finish T → Shared T → Worker T → Shared T × Worker T
  unfolding sending
  worker_step f s w = sending w.outgoing f s w
