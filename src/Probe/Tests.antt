-- ===== src/Probe/Tests.antt =====
-- Outcomes of src/probe.rs on concrete errors and attempts.
use scanr.Common.{length, ◌≡◌, Bool, none, some, [], ◌∷◌}
use scanr.Common.Text.{codes}
use scanr.Diag.Pressure.{econnrefused, other_kind, IoError}
use scanr.Probe.Outcome.{closed, filtered, Phases}
use scanr.Probe.Attempts.{from_states, iter, as_slice, attempts_len, from_states-iter}
use scanr.Probe.Classify.{IsHonest, classify_os_error, classify_os_error-IsHonest}

abbrev no_phases : Phases
no_phases = record { proxy_connect = none; handshake = none; connect = none; total = 0 }

abbrev refused : IoError
refused = record { raw_os_error = some econnrefused; kind = other_kind; message = codes "refused" }

classify_os_error-IsHonest_example :
    IsHonest Bool refused (classify_os_error Bool refused no_phases)
classify_os_error-IsHonest_example = classify_os_error-IsHonest Bool refused no_phases

from_states-iter_example :
    (iter (from_states filtered (filtered ∷ closed ∷ [])) ≡ filtered ∷ filtered ∷ closed ∷ [])
    × (as_slice (from_states filtered (filtered ∷ closed ∷ [])) ≡ filtered ∷ filtered ∷ closed ∷ [])
    × (attempts_len (from_states filtered (filtered ∷ closed ∷ []))
        ≡ length (filtered ∷ filtered ∷ closed ∷ []))
from_states-iter_example = from_states-iter filtered (filtered ∷ closed ∷ [])
