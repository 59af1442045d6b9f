-- ===== src/Output/Span.antt =====
-- `Spans` of src/output/span.rs: interchangeable outcomes are collected by class and written as ranges
-- of counter indices. The aggregate timing of a class is not modelled.
pub mod Ranges
pub mod Keys
pub mod Classes
pub mod Absorb
mod Tests
use scanr.Common.{
  ℕ, zero, suc, ◌+◌, Bool, true, false, not, ◌&&◌, ◌||◌, Option, none, some, List, [], ◌∷◌, ◌++◌,
  length, ltb, leb, ◌==◌, if◌then◌else◌,
}
use scanr.Common.Text.{Text, text_eq}
use scanr.Net.Ports.{sort_unstable, dedup}
use scanr.Probe.Outcome.{
  State, closed, filtered, Source, local_stack, proxy_reply, timeout, internal, ProbeOutcome,
  same_state,
}
use scanr.Probe.Attempts.{iter}
use scanr.Output.Record.{ProbeRecord}

abbrev pub max_groups : ℕ
max_groups = 64

-- `GroupKey`
pub record GroupKey : Type 0 where
  pub state : State
  pub source : Source
  pub reason : Option Text
  pub attempts : ℕ
  pub via : Option Text

pub record Group : Type 0 where
  pub key : GroupKey
  pub indices : List ℕ

pub record Spans : Type 0 where
  pub planned : ℕ
  pub groups : List Group
  pub exhausted : Bool

abbrev pub same_source : Source → Source → Bool
same_source local_stack local_stack = true
same_source proxy_reply proxy_reply = true
same_source timeout timeout = true
same_source internal internal = true
same_source _ _ = false

abbrev pub same_text : Option Text → Option Text → Bool
same_text none none = true
same_text (some s) (some t) = text_eq s t
same_text _ _ = false

unfoldable pub key_eq : GroupKey → GroupKey → Bool
unfolding same_state
key_eq a b =
    same_state a.state b.state
    && same_source a.source b.source
    && same_text a.reason b.reason
    && a.attempts == b.attempts
    && same_text a.via b.via

-- An inclusive range of indices.
pub record Range : Type 0 where
  pub start : ℕ
  pub end : ℕ

-- the loop of `ranges` over the indices behind the range that is open last
unfoldable pub ranges_from : Range → List ℕ → List Range
ranges_from r [] = r ∷ []
ranges_from r (i ∷ is) =
    let longer = ranges_from (record r { end = i }) is in
    let fresh = ranges_from (record { start = i; end = i }) is in
    if r.end + 1 == i then longer else r ∷ fresh

abbrev pub ranges_of : List ℕ → List Range
ranges_of [] = []
ranges_of (i ∷ is) = ranges_from (record { start = i; end = i }) is

unfoldable pub ranges : Group → List Range × ℕ
unfolding ranges_from sort_unstable dedup
ranges g = let sorted = dedup (sort_unstable g.indices) in (ranges_of sorted, length sorted)

unfoldable pub spans_new : ℕ → Spans
spans_new planned = record { planned = planned; groups = []; exhausted = false }

abbrev pub is_quiet : State → Bool
is_quiet closed = true
is_quiet filtered = true
is_quiet _ = false

abbrev pub all_same : State → List State → Bool
all_same s [] = true
all_same s (t ∷ ts) = same_state t s && all_same s ts

module _ {T : Type 0} where
  abbrev pub is_calm : ProbeOutcome T → Bool
  is_calm o = elim o.pressure [ none ↦ true | some p ↦ false ]

  unfoldable pub is_bulk : ProbeRecord T → Bool
  unfolding same_state iter
  is_bulk r =
      is_calm r.outcome
      && is_quiet r.outcome.state
      && all_same r.outcome.state (iter r.attempt_states)

  abbrev pub key_of : ProbeRecord T → GroupKey
  key_of r = record {
    state = r.outcome.state;
    source = r.outcome.source;
    reason = r.outcome.reason;
    attempts = r.attempts;
    via = r.outcome.via;
  }

unfoldable pub contains_key : GroupKey → List Group → Bool
unfolding key_eq
contains_key k [] = false
contains_key k (g ∷ gs) = key_eq g.key k || contains_key k gs

-- `entry(key).or_insert_with(Group::new).add(index, ..)`
unfoldable pub add : GroupKey → ℕ → List Group → List Group
unfolding key_eq
add k index [] = record { key = k; indices = index ∷ [] } ∷ []
add k index (g ∷ gs) =
    let rest = add k index gs in
    if key_eq g.key k then record g { indices = g.indices ++ index ∷ [] } ∷ gs else g ∷ rest

unfoldable pub absorb : (T : Type 0) → ℕ → ProbeRecord T → Spans → Bool × Spans
unfolding is_bulk contains_key add
absorb T index r s =
    if s.exhausted || not (is_bulk r) || leb s.planned index
    then (false, s)
    else if not (contains_key (key_of r) s.groups) && leb max_groups (length s.groups)
    then (false, record s { exhausted = true })
    else (true, record s { groups = add (key_of r) index s.groups })

-- the accumulated groups, taken out
unfoldable pub drain_events : Spans → List Group × Spans
drain_events s = (s.groups, record s { groups = []; exhausted = false })
