-- ===== src/Run/Collector.antt =====
-- `Collector::run` of src/run.rs, what it does with each batch: every probe is counted, marked and either
-- absorbed into a span or written as a row. Its printing is not modelled.
use scanr.Common.{ℕ, Bool, Option, none, some, List, [], ◌∷◌, ◌++◌, if◌then◌else◌}
use scanr.Output.Record.{ProbeRecord, Counts, counts_new, record_outcome}
use scanr.Output.Span.{Spans, spans_new, absorb}
use scanr.Run.Reported.{Reported, reported_new, mark}
use scanr.Run.Worker.{Completed}

-- `rows` are the records that it hands to `emit` as `probe_result`, in order.
pub record Collected (T : Type 0) : Type 0 where
  pub counts : Counts
  pub reported : Option Reported
  pub spans : Option Spans
  pub rows : List (ProbeRecord T)

abbrev pub mark_in : ℕ → Option Reported → Option Reported
mark_in index none = none
mark_in index (some r) = some (mark index r)

module _ (T : Type 0) where
  unfoldable pub collector_new : ℕ → Bool → Collected T
  unfolding reported_new spans_new
  collector_new total spans = record {
    counts = counts_new total;
    reported = reported_new total;
    spans = if spans then some (spans_new total) else none;
    rows = [];
  }

  -- `self.spans.as_mut().is_some_and(|s| s.absorb(raw_index, &record))`
  unfoldable pub absorb_in : ℕ → ProbeRecord T → Option Spans → Bool × Option Spans
  unfolding absorb
  absorb_in index r none = (Bool.false, none)
  absorb_in index r (some s) = let (taken, s') = absorb T index r s in (taken, some s')

  unfoldable pub collect : Completed T → Collected T → Collected T
  unfolding absorb_in record_outcome
  collect c s =
      let r = c.record_of in
      let (absorbed, spans) = absorb_in c.raw_index r s.spans in
      record {
        counts = record_outcome r.outcome.state r.attempts s.counts;
        reported = mark_in c.raw_index s.reported;
        spans = spans;
        rows = if absorbed then s.rows else s.rows ++ r ∷ [];
      }

  unfoldable pub collect_all : List (Completed T) → Collected T → Collected T
  unfolding collect
  collect_all [] s = s
  collect_all (c ∷ cs) s = collect_all cs (collect c s)
