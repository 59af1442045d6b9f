-- ===== src/Run/Probing/Retries.antt =====
-- The retry loop of `worker` in src/run.rs: what a record says of the attempts behind it.
use scanr.Common.{
  ℕ, zero, suc, ◌+◌, ◌%◌, ◌^◌, ◌≤◌, ◌<◌, ◌≡◌, refl, sym, ap, ◌∙◌, ◌⊎◌, inl, inr, Bool, true, false,
  ◌&&◌, List, [], ◌∷◌, ◌++◌, map, All, All-append, length, length-append, leb, ◌==◌, if◌then◌else◌,
  Bool-cases, append_assoc, arith,
}
use scanr.Plan.Types.{Timing}
use scanr.Probe.Attempts.{IsFilled, first, push, push_lem, iter}
use scanr.Probe.Outcome.{State, ProbeOutcome, is_retryable}
use scanr.Run.Probing.{Env, Tried, retry, probe_retrying}
use scanr.Transport.Destination.{Destination}

module _ {T P S : Type 0} (env : Env T P S) (dest : Destination) (timing : Timing P) where
  abbrev pub state_of : ProbeOutcome T → State
  state_of o = o.state

  -- The transport gave this outcome for the destination.
  abbrev pub IsAnswer : ProbeOutcome T → Type 0
  IsAnswer o = (w : S) × ((env.probe dest timing w).0 ≡ o)

  abbrev pub IsRetryable : ProbeOutcome T → Type 0
  IsRetryable o = is_retryable o ≡ true

  -- Why there was no further attempt.
  abbrev pub IsOver : Tried T S → Type 0
  IsOver t =
      (is_retryable t.outcome ≡ false)
      ⊎ ((t.attempts ≡ timing.retries + 1)
          ⊎ ((w : S) × ((env.is_cancelled w).0 ≡ true) × ((env.is_cancelled w).1 ≡ t.world)))

  -- The outcomes of the attempts: `earlier` ones, and the one that is recorded.
  pub record IsTrying (t : Tried T S) : Type 0 where
    pub earlier : List (ProbeOutcome T)
    pub answers : All IsAnswer (earlier ++ t.outcome ∷ [])
    pub retried : All IsRetryable earlier
    pub states : iter t.attempt_states ≡ map state_of (earlier ++ t.outcome ∷ [])
    pub counted : t.attempts ≡ length earlier + 1
    pub most : t.attempts ≤ timing.retries + 1
    pub filled : IsFilled t.attempt_states

  map-append {ℓ κ} :
      {A : Type ℓ} {B : Type κ} (f : A → B) (xs ys : List A)
      → map f (xs ++ ys) ≡ map f xs ++ map f ys
  map-append f [] ys = refl
  map-append f (x ∷ xs) ys = ap (◌∷◌ (f x)) (map-append f xs ys)

  -- one more outcome
  snoc :
      (earlier : List (ProbeOutcome T)) (o o' : ProbeOutcome T)
      → (earlier ++ o ∷ []) ++ o' ∷ [] ≡ earlier ++ o ∷ o' ∷ []
  snoc earlier o o' = append_assoc earlier (o ∷ []) (o' ∷ [])

  -- a further attempt, made because the last one may be repeated
  again-IsTrying :
      (t : Tried T S) (w : S)
      → timing.retries + 1 < 2 ^ 32
      → is_retryable t.outcome ≡ true
      → t.attempts ≤ timing.retries
      → IsTrying t
      → IsTrying (record {
        outcome = (env.probe dest timing w).0;
        attempt_states = push t.attempt_states (env.probe dest timing w).0.state;
        attempts = (t.attempts + 1) % 2 ^ 32;
        world = (env.probe dest timing w).1;
      })
  again-IsTrying t w small r l h =
      let o = (env.probe dest timing w).0 in
      let front = h.earlier ++ t.outcome ∷ [] in
      let (filled, pushed) = push_lem t.attempt_states o.state h.filled in
      record {
        earlier = front;
        answers = All-append IsAnswer front (o ∷ []) h.answers ((w, refl), tt);
        retried = All-append IsRetryable h.earlier (t.outcome ∷ []) h.retried (r, tt);
        states =
            pushed
            ∙ ap (λ xs. xs ++ o.state ∷ []) h.states
            ∙ sym (map-append state_of front (o ∷ []));
        counted = omega (arith, h.counted, length-append h.earlier (t.outcome ∷ []));
        most = omega arith;
        filled = filled;
      }

  moved-IsTrying : (t : Tried T S) (w : S) → IsTrying t → IsTrying (record t { world = w })
  moved-IsTrying t w h = record {
    earlier = h.earlier;
    answers = h.answers;
    retried = h.retried;
    states = h.states;
    counted = h.counted;
    most = h.most;
    filled = h.filled;
  }

  -- the ways through one round
  by_round :
      (Q : Tried T S → Type 0) (go stop stop' : Bool) (x y z n : Tried T S)
      → (go ≡ true → stop ≡ true → Q x)
      → (go ≡ true → stop' ≡ true → Q y)
      → (go ≡ true → Q z)
      → (go ≡ false → Q n)
      → Q (if go then (if stop then x else if stop' then y else z) else n)
  by_round Q true true stop' x y z n f g h k = f refl refl
  by_round Q true false true x y z n f g h k = g refl refl
  by_round Q true false false x y z n f g h k = h refl
  by_round Q false stop stop' x y z n f g h k = k refl

  retry-IsTrying :
      (rounds : ℕ) (t : Tried T S)
      → timing.retries + 1 < 2 ^ 32
      → t.attempts + rounds ≡ timing.retries + 1
      → IsTrying t
      → IsTrying (retry env dest timing rounds t) × IsOver (retry env dest timing rounds t)
  unfolding retry
  retry-IsTrying zero t small e h = (h, inr (inl (omega arith)))
  retry-IsTrying (suc rounds) t small e h =
      let (stop, s) = env.is_cancelled t.world in
      let s' = if timing.retry_delay == 0 then s else env.sleep timing.retry_delay s in
      let w = (env.is_cancelled s').1 in
      by_round (λ r. IsTrying r × IsOver r)
        (is_retryable t.outcome && leb t.attempts timing.retries) stop (env.is_cancelled s').0 _ _ _
        _ (λ go c. (moved-IsTrying t s h, inr (inr (t.world, c, refl))))
        (λ go c. (moved-IsTrying t w h, inr (inr (s', c, refl))))
        (λ go.
          retry-IsTrying rounds _ small
            (let l : t.attempts ≤ timing.retries = ground (arith, go) in omega arith)
            (again-IsTrying t w small (ground (arith, go)) (ground (arith, go)) h))
        (λ over. (h, over_now over))
    where
      over_now : (is_retryable t.outcome && leb t.attempts timing.retries) ≡ false → IsOver t
      over_now over = elim (Bool-cases (is_retryable t.outcome)) [
        | inl r ↦ inr (inl (ground (arith, h.most)))
        | inr r ↦ inl r
      ]

-- The record of a probe tells how often the transport was asked, with fewer than 2 ^ 32 - 1 retries set:
-- every attempt gave one of its states, in order; each but the last could be repeated; there are at most
-- `retries + 1`; and the last is final, or the last that is allowed, or the cancel flag was seen raised
-- behind it. As many rounds of the loop as there are retries are enough.
pub probe_retrying-IsTried :
    {T P S : Type 0} (env : Env T P S) (dest : Destination) (timing : Timing P) (s : S)
    → timing.retries + 1 < 2 ^ 32
    → IsTrying env dest timing (probe_retrying env dest timing s)
      × IsOver env dest timing (probe_retrying env dest timing s)
unfolding probe_retrying first iter
probe_retrying-IsTried env dest timing s small =
    retry-IsTrying env dest timing timing.retries _ small (omega arith) (record {
      earlier = [];
      answers = ((s, refl), tt);
      retried = tt;
      states = refl;
      counted = omega arith;
      most = omega arith;
      filled = record { some_state = omega arith; within = omega arith; spilled = λ l. refl };
    })
