-- ===== src/Probe/Outcome.antt =====
-- `State`, `Source`, `Phases` and `ProbeOutcome` of src/probe.rs.
use scanr.Common.{ℕ, Bool, true, false, Option, none, some, List, [], ◌∷◌, if◌then◌else◌, ◌≡◌, refl}
use scanr.Common.Text.{Text, codes, text_eq}
use scanr.Diag.Pressure.{Pressure}

pub data State : Type 0 where
  open_state closed filtered error : State

abbrev pub all_states : List State
all_states = open_state ∷ closed ∷ filtered ∷ error ∷ []

unfoldable pub state_str : State → Text
state_str open_state = codes "open"
state_str closed = codes "closed"
state_str filtered = codes "filtered"
state_str error = codes "error"

unfoldable pub find_state : List State → Text → Option State
unfolding state_str
find_state [] s = none
find_state (v ∷ vs) s = if text_eq (state_str v) s then some v else find_state vs s

unfoldable pub state_parse : Text → Option State
unfolding find_state
state_parse = find_state all_states

pub data Source : Type 0 where
  local_stack proxy_reply timeout internal : Source

unfoldable pub source_str : Source → Text
source_str local_stack = codes "local_stack"
source_str proxy_reply = codes "proxy_reply"
source_str timeout = codes "timeout"
source_str internal = codes "internal"

pub record Phases : Type 0 where
  pub proxy_connect : Option ℕ
  pub handshake : Option ℕ
  pub connect : Option ℕ
  pub total : ℕ

pub record ProbeOutcome (T : Type 0) : Type 0 where
  pub state : State
  pub source : Source
  pub reason : Option Text
  pub phases : Phases
  pub pressure : Option Pressure
  pub banner : Option (List ℕ)
  pub via : Option Text
  pub tls : Option T

unfoldable pub same_state : State → State → Bool
same_state open_state open_state = true
same_state closed closed = true
same_state filtered filtered = true
same_state error error = true
same_state _ _ = false

unfoldable pub is_timeout : Source → Bool
is_timeout timeout = true
is_timeout _ = false

module _ {T : Type 0} where
  unfoldable pub outcome_via : ProbeOutcome T → Text → ProbeOutcome T
  outcome_via o name = record o { via = some name }

  unfoldable pub with_banner : ProbeOutcome T → Option (List ℕ) → ProbeOutcome T
  with_banner o b = record o { banner = b }

  unfoldable pub with_tls : ProbeOutcome T → Option T → ProbeOutcome T
  with_tls o t = record o { tls = t }

  unfoldable pub under_pressure : ProbeOutcome T → Pressure → ProbeOutcome T
  under_pressure o p = record o { pressure = some p }

  unfoldable pub is_open : ProbeOutcome T → Bool
  unfolding same_state
  is_open o = same_state o.state open_state

  unfoldable pub is_retryable : ProbeOutcome T → Bool
  unfolding is_timeout
  is_retryable o = is_timeout o.source

unfoldable pub outcome_open : (T : Type 0) → Phases → Source → ProbeOutcome T
outcome_open T phases source = record {
  state = open_state;
  source = source;
  reason = none;
  phases = phases;
  pressure = none;
  banner = none;
  via = none;
  tls = none;
}

unfoldable pub outcome_new : (T : Type 0) → State → Source → Text → Phases → ProbeOutcome T
outcome_new T state source reason phases = record {
  state = state;
  source = source;
  reason = some reason;
  phases = phases;
  pressure = none;
  banner = none;
  via = none;
  tls = none;
}

-- `State::parse` reads back what `as_str` writes, for each of the four states.
pub state_parse-state_str : (s : State) → state_parse (state_str s) ≡ some s
unfolding state_parse text_eq
state_parse-state_str open_state = refl
state_parse-state_str closed = refl
state_parse-state_str filtered = refl
state_parse-state_str error = refl
