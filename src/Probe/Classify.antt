-- ===== src/Probe/Classify.antt =====
-- `classify_os_error` of src/probe.rs: what an error of a direct connect says of the port.
use scanr.Common.{◌↔◌, ◌≡◌, ◌⊎◌, true, Option, some, List, [], ◌∷◌, arith}
use scanr.Common.Text.{Text, codes}
use scanr.Diag.Pressure.{
  Pressure, Errno, econnrefused, econnreset, ehostunreach, enetunreach, eacces, eperm,
  eaddrnotavail, eaddrinuse, emfile, enfile, ErrorKind, timed_out, IoError,
  ephemeral_port_exhaustion, file_descriptor_exhaustion, proxy_saturation, from_os_error,
}
use scanr.Probe.Outcome.{
  open_state, closed, filtered, error, local_stack, proxy_reply, timeout, internal, Phases,
  ProbeOutcome, outcome_new, under_pressure, is_retryable,
}

-- the inner `match err.kind()`
unfoldable pub classify_kind : (T : Type 0) → ErrorKind → Text → Phases → ProbeOutcome T
classify_kind T timed_out message phases =
    outcome_new T filtered timeout (codes "connect timed out") phases
classify_kind T _ message phases = outcome_new T error local_stack message phases

unfoldable pub classify_raw : (T : Type 0) → Option Errno → IoError → Phases → ProbeOutcome T
unfolding classify_kind
classify_raw T (some econnrefused) err phases =
    outcome_new T closed local_stack (codes "connection refused") phases
classify_raw T (some econnreset) err phases =
    outcome_new T closed local_stack (codes "connection reset") phases
classify_raw T (some ehostunreach) err phases =
    outcome_new T filtered local_stack (codes "host unreachable") phases
classify_raw T (some enetunreach) err phases =
    outcome_new T filtered local_stack (codes "network unreachable") phases
classify_raw T (some eacces) err phases =
    outcome_new T filtered local_stack (codes "administratively prohibited") phases
classify_raw T (some eperm) err phases =
    outcome_new T filtered local_stack (codes "administratively prohibited") phases
classify_raw T (some eaddrnotavail) err phases =
    under_pressure (outcome_new T error internal (codes "local ephemeral port exhaustion") phases)
      ephemeral_port_exhaustion
classify_raw T (some eaddrinuse) err phases =
    under_pressure (outcome_new T error internal (codes "local ephemeral port exhaustion") phases)
      ephemeral_port_exhaustion
classify_raw T (some emfile) err phases =
    under_pressure (outcome_new T error internal (codes "out of file descriptors") phases)
      file_descriptor_exhaustion
classify_raw T (some enfile) err phases =
    under_pressure (outcome_new T error internal (codes "out of file descriptors") phases)
      file_descriptor_exhaustion
classify_raw T _ err phases = classify_kind T err.kind err.message phases

unfoldable pub classify_os_error : (T : Type 0) → IoError → Phases → ProbeOutcome T
unfolding classify_raw
classify_os_error T err phases = classify_raw T err.raw_os_error err phases

-- The error numbers that `classify_os_error` names.
abbrev pub closing : List Errno
closing = econnrefused ∷ econnreset ∷ []

abbrev pub filtering : List Errno
filtering = ehostunreach ∷ enetunreach ∷ eacces ∷ eperm ∷ []

abbrev pub exhausting : List Errno
exhausting = eaddrnotavail ∷ eaddrinuse ∷ emfile ∷ enfile ∷ []

abbrev pub NumberIn : Option Errno → List Errno → Type 0
NumberIn raw [] = ⊥
NumberIn raw (e ∷ es) = (raw ≡ some e) ⊎ NumberIn raw es

-- A timeout, and no number that tells more.
abbrev pub IsTimeout : IoError → Type 0
IsTimeout err =
    (err.kind ≡ timed_out)
    × (¬ NumberIn err.raw_os_error closing)
    × (¬ NumberIn err.raw_os_error filtering)
    × (¬ NumberIn err.raw_os_error exhausting)

-- A verdict on the port is drawn from the error numbers of the local stack, only a timeout may be
-- retried, and the pressure is the one that the error number tells.
pub record IsHonest (T : Type 0) (err : IoError) (o : ProbeOutcome T) : Type 0 where
  pub never_open : ¬ (o.state ≡ open_state)
  pub closes : (o.state ≡ closed) ↔ NumberIn err.raw_os_error closing
  pub filters : (o.state ≡ filtered) ↔ (NumberIn err.raw_os_error filtering ⊎ IsTimeout err)
  pub stalled : (o.source ≡ timeout) ↔ IsTimeout err
  pub exhausted : (o.source ≡ internal) ↔ NumberIn err.raw_os_error exhausting
  pub by_stack : ¬ (o.source ≡ proxy_reply)
  pub retried_when : (is_retryable o ≡ true) ↔ IsTimeout err
  pub pressed : o.pressure ≡ from_os_error err
  pub pressed_error :
      (p : Pressure) → o.pressure ≡ some p → (o.state ≡ error) × (o.source ≡ internal)
  pub presses :
      ((o.pressure ≡ some ephemeral_port_exhaustion)
        ↔ NumberIn err.raw_os_error (eaddrnotavail ∷ eaddrinuse ∷ []))
      × ((o.pressure ≡ some file_descriptor_exhaustion)
          ↔ NumberIn err.raw_os_error (emfile ∷ enfile ∷ []))
      × (¬ (o.pressure ≡ some proxy_saturation))

classify_raw-IsHonest :
    (T : Type 0) (raw : Option Errno) (kind : ErrorKind) (message : Text) (phases : Phases)
    → IsHonest T
        (record { raw_os_error = raw; kind = kind; message = message })
        (classify_raw T raw (record { raw_os_error = raw; kind = kind; message = message }) phases)
unfolding classify_raw outcome_new under_pressure from_os_error is_retryable
classify_raw-IsHonest T raw kind message phases = record {
  never_open = ground arith;
  closes = ground arith;
  filters = ground arith;
  stalled = ground arith;
  exhausted = ground arith;
  by_stack = ground arith;
  retried_when = ground arith;
  pressed = ground arith;
  pressed_error = λ p. ground arith;
  presses = ground arith;
}

-- For every error of a direct connect: the port is never called open; it is closed exactly when the
-- error number is that of a refusal or a reset; it is filtered exactly when the number says that the
-- host or network is unreachable or access prohibited, or after a timeout that no number explains;
-- exactly that timeout may be retried; anything else is an error; and pressure on the local ports or
-- file descriptors is reported exactly for the numbers that tell it, as an internal error.
pub classify_os_error-IsHonest :
    (T : Type 0) (err : IoError) (phases : Phases) → IsHonest T err (classify_os_error T err phases)
unfolding classify_os_error
classify_os_error-IsHonest T err phases =
    classify_raw-IsHonest T err.raw_os_error err.kind err.message phases
