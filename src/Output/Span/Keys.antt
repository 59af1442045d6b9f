-- ===== src/Output/Span/Keys.antt =====
-- The tests of src/output/span.rs on classes and outcomes decide what they are named for.
use scanr.Common.{
  ◌≡◌, refl, ap, ◌⊎◌, inl, inr, true, Option, none, some, List, [], ◌∷◌, All, ◌==◌, Bool-cases,
  arith,
}
use scanr.Common.Text.{Text}
use scanr.Common.Text.Equality.{text_eq→≡, text_eq_refl}
use scanr.Probe.Outcome.{State, closed, filtered, Source, same_state}
use scanr.Probe.Attempts.{iter}
use scanr.Output.Record.{ProbeRecord}
use scanr.Output.Span.{
  GroupKey, Group, same_source, same_text, key_eq, all_same, is_bulk, contains_key,
}

same_state→≡ : (a b : State) → same_state a b ≡ true → a ≡ b
unfolding same_state
same_state→≡ a b h = ground (arith, h)

same_state_refl : (a : State) → same_state a a ≡ true
unfolding same_state
same_state_refl a = ground arith

same_source→≡ : (a b : Source) → same_source a b ≡ true → a ≡ b
same_source→≡ a b h = ground (arith, h)

same_source_refl : (a : Source) → same_source a a ≡ true
same_source_refl a = ground arith

same_text→≡ : (a b : Option Text) → same_text a b ≡ true → a ≡ b
same_text→≡ none none h = refl
same_text→≡ (some s) (some t) h = ap some (text_eq→≡ s t h)
same_text→≡ none (some t) h = absurd cc
same_text→≡ (some s) none h = absurd cc

same_text_refl : (a : Option Text) → same_text a a ≡ true
same_text_refl none = refl
same_text_refl (some s) = text_eq_refl s

pub key_eq→≡ : (a b : GroupKey) → key_eq a b ≡ true → a ≡ b
unfolding key_eq
key_eq→≡ a b h =
    let state : a.state ≡ b.state = same_state→≡ a.state b.state (ground (arith, h)) in
    let source : a.source ≡ b.source = same_source→≡ a.source b.source (ground (arith, h)) in
    let reason : a.reason ≡ b.reason = same_text→≡ a.reason b.reason (ground (arith, h)) in
    let attempts : a.attempts ≡ b.attempts = ground (arith, h) in
    let via : a.via ≡ b.via = same_text→≡ a.via b.via (ground (arith, h)) in cc

pub key_eq_refl : (a : GroupKey) → key_eq a a ≡ true
unfolding key_eq
key_eq_refl a =
    let attempts : (a.attempts == a.attempts) ≡ true = ground arith in
    rw
      (
        same_state_refl a.state,
        same_source_refl a.source,
        same_text_refl a.reason,
        attempts,
        same_text_refl a.via,
      )
      refl

-- An outcome that may stand in a range: it is closed or filtered, without pressure, and all of its attempts
-- ended in the same state.
pub record IsBulk (T : Type 0) (r : ProbeRecord T) : Type 0 where
  pub calm : r.outcome.pressure ≡ none
  pub quiet : (r.outcome.state ≡ closed) ⊎ (r.outcome.state ≡ filtered)
  pub agreed : All (λ (s : State). s ≡ r.outcome.state) (iter r.attempt_states)

all_same-All : (s : State) (ts : List State) → all_same s ts ≡ true → All (λ (t : State). t ≡ s) ts
all_same-All s [] h = tt
all_same-All s (t ∷ ts) h =
    (same_state→≡ t s (ground (arith, h)), all_same-All s ts (ground (arith, h)))

All-all_same : (s : State) (ts : List State) → All (λ (t : State). t ≡ s) ts → all_same s ts ≡ true
All-all_same s [] h = refl
All-all_same s (t ∷ ts) h = rw (h.0, same_state_refl s) (All-all_same s ts h.1)

pub is_bulk-IsBulk : (T : Type 0) (r : ProbeRecord T) → is_bulk r ≡ true → IsBulk T r
unfolding is_bulk
is_bulk-IsBulk T r h = record {
  calm = ground (arith, h);
  quiet = ground (arith, h);
  agreed = all_same-All r.outcome.state (iter r.attempt_states) (ground (arith, h));
}

pub IsBulk-is_bulk : (T : Type 0) (r : ProbeRecord T) → IsBulk T r → is_bulk r ≡ true
unfolding is_bulk
IsBulk-is_bulk T r b =
    let same = All-all_same r.outcome.state (iter r.attempt_states) b.agreed in
    ground (arith, b.calm, b.quiet, same)

-- a class of this key is held
unfoldable pub Has : GroupKey → List Group → Type 0
Has k [] = ⊥
Has k (g ∷ gs) = (g.key ≡ k) ⊎ Has k gs

pub contains_key-Has : (k : GroupKey) (gs : List Group) → contains_key k gs ≡ true → Has k gs
unfolding contains_key Has
contains_key-Has k [] h = absurd cc
contains_key-Has k (g ∷ gs) h = elim (Bool-cases (key_eq g.key k)) [
  | inl e ↦ inl (key_eq→≡ g.key k e)
  | inr e ↦ inr (contains_key-Has k gs (ground (arith, h, e)))
]

pub Has-contains_key : (k : GroupKey) (gs : List Group) → Has k gs → contains_key k gs ≡ true
unfolding contains_key Has
Has-contains_key k [] h = absurd h
Has-contains_key k (g ∷ gs) (inl e) =
    let same : key_eq g.key k ≡ true = rw e (key_eq_refl k) in rw same refl
Has-contains_key k (g ∷ gs) (inr m) = let found = Has-contains_key k gs m in ground (arith, found)
