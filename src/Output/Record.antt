-- ===== src/Output/Record.antt =====
-- `ProbeRecord` of src/output/mod.rs, and the tallies `Counts` of src/output/jsonl.rs.
use scanr.Common.{ℕ, ◌+◌, ◌-◌, ◌%◌, ◌^◌, Option, ltb, if◌then◌else◌}
use scanr.Common.Text.{Text}
use scanr.Net.Addr.{IpAddr}
use scanr.Probe.Outcome.{State, open_state, closed, filtered, error, ProbeOutcome}
use scanr.Probe.Attempts.{AttemptStates}

-- One completed probe, retries already merged.
pub record ProbeRecord (T : Type 0) : Type 0 where
  pub probe_index : ℕ
  pub target : Text
  pub resolved_address : Option IpAddr
  pub port : ℕ
  pub outcome : ProbeOutcome T
  pub attempts : ℕ
  pub attempt_states : AttemptStates

pub record Counts : Type 0 where
  pub planned : ℕ
  pub started : ℕ
  pub completed : ℕ
  pub open_ports : ℕ
  pub closed_ports : ℕ
  pub filtered_ports : ℕ
  pub errors : ℕ
  pub retried : ℕ

-- `..Default::default()` behind `planned`
abbrev pub counts_new : ℕ → Counts
counts_new planned = record {
  planned = planned;
  started = 0;
  completed = 0;
  open_ports = 0;
  closed_ports = 0;
  filtered_ports = 0;
  errors = 0;
  retried = 0;
}

-- `+= 1` in 64 bits
abbrev pub bump : ℕ → ℕ
bump n = (n + 1) % 2 ^ 64

unfoldable pub count_state : State → Counts → Counts
count_state open_state c = record c { open_ports = bump c.open_ports }
count_state closed c = record c { closed_ports = bump c.closed_ports }
count_state filtered c = record c { filtered_ports = bump c.filtered_ports }
count_state error c = record c { errors = bump c.errors }

-- `Counts::record`
unfoldable pub record_outcome : State → ℕ → Counts → Counts
unfolding count_state
record_outcome state attempts c = count_state state (record c {
  completed = bump c.completed;
  retried = if ltb 1 attempts then bump c.retried else c.retried;
})

unfoldable pub not_started : Counts → ℕ
not_started c = c.planned - c.started

unfoldable pub abandoned_count : Counts → ℕ
abandoned_count c = c.started - c.completed
