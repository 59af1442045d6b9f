-- ===== src/Probe/Attempts.antt =====
-- `AttemptStates` of src/probe.rs: four states in place, further ones in a spill list.
use scanr.Common.{
  ℕ, zero, suc, ◌+◌, ◌≤◌, ◌<◌, ◌≡◌, refl, ap, ◌∙◌, sym, List, [], ◌∷◌, ◌++◌, append-nil,
  append_assoc, arith, take, length, length-append, length-take, ltb, if◌then◌else◌,
}
use scanr.Common.Text.{is_empty}
use scanr.Probe.Outcome.{State}

-- the array `inline`, of four states
pub record Inline : Type 0 where
  pub at0 : State
  pub at1 : State
  pub at2 : State
  pub at3 : State

pub record AttemptStates : Type 0 where
  pub len : ℕ
  pub inline : Inline
  pub spill : List State

unfoldable pub set_inline : ℕ → State → Inline → Inline
set_inline zero s a = record a { at0 = s }
set_inline (suc zero) s a = record a { at1 = s }
set_inline (suc (suc zero)) s a = record a { at2 = s }
set_inline (suc (suc (suc i))) s a = record a { at3 = s }

abbrev pub inline_list : Inline → List State
inline_list a = a.at0 ∷ a.at1 ∷ a.at2 ∷ a.at3 ∷ []

unfoldable pub first : State → AttemptStates
first s = record { len = 1; inline = record { at0 = s; at1 = s; at2 = s; at3 = s }; spill = [] }

unfoldable pub push : AttemptStates → State → AttemptStates
unfolding set_inline
push a s =
    if ltb a.len 4
    then record a { inline = set_inline a.len s a.inline; len = a.len + 1 }
    else record a { spill = a.spill ++ s ∷ [] }

unfoldable pub attempts_len : AttemptStates → ℕ
attempts_len a = a.len + length a.spill

unfoldable pub iter : AttemptStates → List State
iter a = take a.len (inline_list a.inline) ++ a.spill

unfoldable pub as_slice : AttemptStates → List State
unfolding iter
as_slice a = if is_empty a.spill then take a.len (inline_list a.inline) else iter a

unfoldable pub push_all : AttemptStates → List State → AttemptStates
push_all a [] = a
push_all a (s ∷ rest) = push_all (push a s) rest

-- `From<Vec<State>>` on a first attempt and the ones behind it; it panics on none
unfoldable pub from_states : State → List State → AttemptStates
unfolding push_all first
from_states s rest = push_all (first s) rest

-- Between one and four states stand in place, and states spill only when these are taken.
pub record IsFilled (a : AttemptStates) : Type 0 where
  pub some_state : 1 ≤ a.len
  pub within : a.len ≤ 4
  pub spilled : a.len < 4 → a.spill ≡ []

abbrev make : ℕ → Inline → List State → AttemptStates
make n i spill = record { len = n; inline = i; spill = spill }

-- What a push does to the states that are stored, at each fill of the array.
push_at :
    (n : ℕ) (i : Inline) (spill : List State) (s : State)
    → IsFilled (make n i spill)
    → IsFilled (push (make n i spill) s)
      × (iter (push (make n i spill) s) ≡ iter (make n i spill) ++ s ∷ [])
unfolding push iter
push_at zero i spill s f = absurd (omega (arith, f.some_state))
push_at (suc zero) i spill s f =
    let e = f.spilled (omega arith) in
    rw e (record { some_state = omega arith; within = omega arith; spilled = λ _. refl }, refl)
push_at (suc (suc zero)) i spill s f =
    let e = f.spilled (omega arith) in
    rw e (record { some_state = omega arith; within = omega arith; spilled = λ _. refl }, refl)
push_at (suc (suc (suc zero))) i spill s f =
    let e = f.spilled (omega arith) in
    rw e (record { some_state = omega arith; within = omega arith; spilled = λ _. refl }, refl)
push_at (suc (suc (suc (suc zero)))) i spill s f = (
  record { some_state = omega arith; within = omega arith; spilled = λ l. absurd (omega arith) },
  refl,
)
push_at (suc (suc (suc (suc (suc n))))) i spill s f = absurd (omega (arith, f.within))

pub push_lem :
    (a : AttemptStates) (s : State)
    → IsFilled a
    → IsFilled (push a s) × (iter (push a s) ≡ iter a ++ s ∷ [])
push_lem a = push_at a.len a.inline a.spill

push_all-iter :
    (rest : List State) (a : AttemptStates)
    → IsFilled a
    → IsFilled (push_all a rest) × (iter (push_all a rest) ≡ iter a ++ rest)
unfolding push_all
push_all-iter [] a f = (f, sym (append-nil (iter a)))
push_all-iter (s ∷ rest) a f =
    let (f', e) = push_lem a s f in
    let (g, e') = push_all-iter rest (push a s) f' in
    (g, e' ∙ ap (λ t. t ++ rest) e ∙ append_assoc (iter a) (s ∷ []) rest)

-- The length is that of the states that are iterated, and the slice holds these states.
views :
    (a : AttemptStates) → IsFilled a → (as_slice a ≡ iter a) × (attempts_len a ≡ length (iter a))
unfolding as_slice attempts_len iter
views a f = (
  slice a.spill,
  omega (
    arith,
    length-append (take a.len (inline_list a.inline)) a.spill,
    length-take a.len (inline_list a.inline),
    f.within,
  ),
)
  where
    slice :
        (spill : List State)
        → (if is_empty spill
            then take a.len (inline_list a.inline)
            else take a.len (inline_list a.inline) ++ spill)
          ≡ take a.len (inline_list a.inline) ++ spill
    slice [] = sym (append-nil (take a.len (inline_list a.inline)))
    slice (s ∷ rest) = refl

-- However many attempts there are, in place or spilled: iterating gives them in the order in which
-- they were made, the slice holds the same states, and `len` is their number.
pub from_states-iter :
    (s : State) (rest : List State)
    → (iter (from_states s rest) ≡ s ∷ rest)
      × (as_slice (from_states s rest) ≡ s ∷ rest)
      × (attempts_len (from_states s rest) ≡ length (s ∷ rest))
unfolding from_states iter as_slice attempts_len
from_states-iter s rest =
    let (f, e) =
      push_all-iter rest (first s)
        (record { some_state = omega arith; within = omega arith; spilled = λ _. refl }) in
    let (slice, len) = views (push_all (first s) rest) f in (e, slice ∙ e, len ∙ ap length e)
