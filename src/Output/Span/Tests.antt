-- ===== src/Output/Span/Tests.antt =====
-- Spans of src/output/span.rs on a few outcomes.
use scanr.Common.{refl, ℕ, ◌≡◌, ◌⊎◌, ◌↔◌, Bool, true, false, none, [], ◌∷◌, In, length, arith}
use scanr.Common.Text.{codes}
use scanr.Probe.Outcome.{filtered, timeout, Phases, outcome_new}
use scanr.Probe.Attempts.{from_states}
use scanr.Output.Record.{ProbeRecord}
use scanr.Output.Span.{Group, Spans, absorb, key_of, ranges}
use scanr.Output.Span.Ranges.{expanded, ranges-expanded}
use scanr.Common.Text.{text_eq}
use scanr.Probe.Outcome.{same_state}
use scanr.Probe.Attempts.{iter}
use scanr.Output.Span.{is_bulk, contains_key, key_eq}
use scanr.Output.Span.Keys.{Has}
use scanr.Output.Span.Classes.{AreDistinct}
use scanr.Output.Span.Absorb.{IsAbsorbed, IsRefused, absorb-IsAbsorbed}

abbrev no_phases : Phases
no_phases = record { proxy_connect = none; handshake = none; connect = none; total = 0 }

-- a timeout, twice
abbrev silent : ProbeRecord Bool
silent = record {
  probe_index = 70;
  target = codes "10.0.0.1";
  resolved_address = none;
  port = 80;
  outcome = outcome_new Bool filtered timeout (codes "connect timed out") no_phases;
  attempt_states = from_states filtered (filtered ∷ []);
  attempts = 2;
}

abbrev scattered : Group
scattered = record { key = key_of silent; indices = 7 ∷ 5 ∷ 6 ∷ 9 ∷ 5 ∷ [] }

abbrev one_class : Spans
one_class = record { planned = 100; groups = scattered ∷ []; exhausted = false }

ranges-expanded_example :
    ((i : ℕ) → In i (expanded (ranges scattered).0) ↔ In i scattered.indices)
    × (length (expanded (ranges scattered).0) ≡ (ranges scattered).1)
ranges-expanded_example = ranges-expanded scattered

one_class-AreDistinct : AreDistinct one_class.groups
unfolding AreDistinct Has
one_class-AreDistinct = (λ h. absurd h, tt)

silent_taken : (absorb Bool 8 silent one_class).0 ≡ true
unfolding absorb is_bulk contains_key key_eq same_state iter text_eq outcome_new from_states
    scanr.Probe.Attempts.push
silent_taken = refl

absorb-IsAbsorbed_example :
    (((absorb Bool 8 silent one_class).0 ≡ true)
      × IsAbsorbed Bool 8 silent one_class (absorb Bool 8 silent one_class).1)
    ⊎ (((absorb Bool 8 silent one_class).0 ≡ false)
        × IsRefused Bool 8 silent one_class (absorb Bool 8 silent one_class).1)
absorb-IsAbsorbed_example =
    absorb-IsAbsorbed Bool 8 silent one_class (omega arith) one_class-AreDistinct
