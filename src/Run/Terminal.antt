-- ===== src/Run/Terminal.antt =====
-- How a scan of src/run.rs ends: the label, the exit code (with `exit_code_for` of src/cli.rs), the last
-- tallies and the set of probes to resume with.
use scanr.Common.{ℕ, Bool, ◌||◌, Option, none, some, List, ltb, if◌then◌else◌}
use scanr.Common.Text.{Text, codes}
use scanr.Cancel.{Cancel, is_cancelled}
use scanr.Output.Record.{Counts}
use scanr.Sched.WorkCounter.{WorkCounter, issued}
use scanr.Run.Reported.{Reported, abandoned}
use scanr.Run.Collector.{Collected}

pub data Termination : Type 0 where
  completed interrupted failed : Termination

unfoldable pub event_name : Termination → Text
event_name completed = codes "scan_completed"
event_name interrupted = codes "scan_interrupted"
event_name failed = codes "scan_failed"

unfoldable pub exit_code : Termination → ℕ
exit_code completed = 0
exit_code failed = 2
exit_code interrupted = 130

unfoldable pub exit_code_for : Termination → Bool → ℕ
unfolding exit_code
exit_code_for t writer_failed = if writer_failed then 3 else exit_code t

-- the label, from what failed and what was asked
unfoldable pub termination_of : Bool → ℕ → Cancel → Termination
unfolding is_cancelled
termination_of writer_failed worker_panics cancel =
    if writer_failed || ltb 0 worker_panics
    then failed
    else if is_cancelled cancel
    then interrupted
    else completed

-- Enough to tell what was not probed.
pub record Resume : Type 0 where
  pub not_started_from : ℕ
  pub abandoned_indices : List ℕ

abbrev pub resume_of : ℕ → Option Reported → Option Resume
resume_of started none = none
resume_of started (some r) =
    some (record { not_started_from = started; abandoned_indices = abandoned r started })

-- `counts.started = counter.issued()`, and the `resume` of the terminal event
unfoldable pub conclude : (T : Type 0) → Collected T → WorkCounter → Counts × Option Resume
unfolding issued abandoned
conclude T c counter =
    (record c.counts { started = issued counter }, resume_of (issued counter) c.reported)
