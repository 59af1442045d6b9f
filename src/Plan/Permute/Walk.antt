-- ===== src/Plan/Permute/Walk.antt =====
-- The `loop` of `Permutation::apply` in src/plan/permute.rs, over any injection `step` of the
-- numbers below `m` into themselves, with `n ≤ m` numbers to permute.
use scanr.Common.{
  ℕ, zero, suc, ◌≤◌, ◌<◌, ◌≡◌, sym, ap, ◌∙◌, Option, none, some, inl, inr, arith, ltb, not-ltb,
  lt→ltb, Bool-cases,
}
use scanr.Plan.Permute.{walk}
use scanr.Plan.Permute.Cycle.{
  IsInjection, iterate, iterate-suc, iterate_cancel, iterate-below, returns,
}

-- A walk that ends at `y` takes some iterates out of range, and then `y`.
pub record Ends (step : ℕ → ℕ) (n x y : ℕ) : Type 0 where
  pub skipped : ℕ
  pub lands : y ≡ iterate step (suc skipped) x
  pub in_range : y < n
  pub outside : (j : ℕ) → j < skipped → n ≤ iterate step (suc j) x

module _ (step : ℕ → ℕ) (n : ℕ) where
  -- Out of range at `x` and at the first `k` iterates of `x`.
  outside_from :
      (x k : ℕ)
      → n ≤ x
      → ((j : ℕ) → j < k → n ≤ iterate step (suc j) x)
      → (j : ℕ) → j < suc k
      → n ≤ iterate step j x
  outside_from x k h t zero l = h
  outside_from x k h t (suc j) l = t j (omega arith)

  walk-Ends : (fuel x y : ℕ) → walk step n fuel x ≡ some y → Ends step n x y
  unfolding walk
  walk-Ends zero x y e = cc
  walk-Ends (suc fuel) x y e = elim (Bool-cases (ltb (step x) n)) [
    | inl h ↦ record {
      skipped = 0;
      lands = ground arith;
      in_range = ground arith;
      outside = λ j l. absurd (omega arith);
    }
    | inr h ↦
        let later = walk-Ends fuel (step x) y (rw h at e) in
        record {
          skipped = suc later.skipped;
          lands = later.lands;
          in_range = later.in_range;
          outside = outside_from (step x) later.skipped (not-ltb (step x) n h) later.outside;
        }
  ]

  walk-some :
      (fuel k x : ℕ)
      → k < fuel
      → iterate step (suc k) x < n
      → (y : ℕ) × (walk step n fuel x ≡ some y)
  unfolding walk
  walk-some zero k x l h = absurd (omega arith)
  walk-some (suc fuel) zero x l h = (step x, rw (lt→ltb _ _ h))
  walk-some (suc fuel) (suc k) x l h = elim (Bool-cases (ltb (step x) n)) [
    | inl e ↦ (step x, rw e)
    | inr e ↦ rw e (walk-some fuel k (step x) (omega arith) h)
  ]

  -- Two walks that end at one number began at one number.
  iterates_meet :
      (m : ℕ)
      → IsInjection m step
      → n ≤ m
      → (i j x y : ℕ) → x < n
      → y < n
      → iterate step (suc i) x ≡ iterate step (suc j) y
      → ((k : ℕ) → k < i → n ≤ iterate step (suc k) x)
      → ((k : ℕ) → k < j → n ≤ iterate step (suc k) y)
      → x ≡ y
  iterates_meet m inj le zero zero x y hx hy e ox oy =
      iterate_cancel m step inj 0 0 x y (omega arith) (omega arith) e
  iterates_meet m inj le zero (suc j) x y hx hy e ox oy =
      let e' = iterate_cancel m step inj 0 (suc j) x y (omega arith) (omega arith) e in
      absurd (omega (arith, e', oy j (omega arith)))
  iterates_meet m inj le (suc i) zero x y hx hy e ox oy =
      let e' = iterate_cancel m step inj (suc i) 0 x y (omega arith) (omega arith) e in
      absurd (omega (arith, e', ox i (omega arith)))
  iterates_meet m inj le (suc i) (suc j) x y hx hy e ox oy =
      iterates_meet m inj le i j x y hx hy
        (iterate_cancel m step inj (suc i) (suc j) x y (omega arith) (omega arith) e)
        (λ k l. ox k (omega arith)) (λ k l. oy k (omega arith))

-- What a run of `apply` promises of a function that may run out of fuel: it maps the numbers
-- below `n` one to one onto themselves.
pub record IsBijection (n : ℕ) (f : ℕ → Option ℕ) : Type 0 where
  pub total : (x : ℕ) → x < n → (y : ℕ) × (f x ≡ some y) × (y < n)
  pub one_to_one : (x y z : ℕ) → x < n → y < n → f x ≡ some z → f y ≡ some z → x ≡ y
  pub onto : (y : ℕ) → y < n → (x : ℕ) × (x < n) × (f x ≡ some y)

-- A value for `none`, which a total function never returns.
abbrev value : Option ℕ → ℕ
value none = 0
value (some y) = y

-- A total injection of the numbers below `n` is onto.
pub onto_of :
    (n : ℕ) (f : ℕ → Option ℕ)
    → ((x : ℕ) → x < n → (y : ℕ) × (f x ≡ some y) × (y < n))
    → ((x y z : ℕ) → x < n → y < n → f x ≡ some z → f y ≡ some z → x ≡ y)
    → IsBijection n f
onto_of n f total inj = record {
  total = total;
  one_to_one = inj;
  onto = λ y h.
      let (k, l, back) = returns n g injection y h in
      let (z, e, lt) = total (iterate g k y) (iterate-below n g injection k y h) in
      (
        iterate g k y,
        iterate-below n g injection k y h,
        e ∙ ap some (sym (ap value e) ∙ sym (iterate-suc g k y) ∙ back),
      );
}
  where
    g : ℕ → ℕ
    g x = value (f x)

    injection : IsInjection n g
    injection = record {
      below = λ x h. let (z, e, lt) = total x h in rw e lt;
      one_to_one = λ x y hx hy e.
          let (z, ex, lx) = total x hx in
          let (w, ey, ly) = total y hy in
          inj x y z hx hy ex (ey ∙ ap some (sym (ap value ey) ∙ sym e ∙ ap value ex));
    }

-- Walking with `m` steps of fuel permutes the numbers below `n`.
pub walk-IsBijection :
    (m n : ℕ) (step : ℕ → ℕ) → IsInjection m step → n ≤ m → IsBijection n (walk step n m)
walk-IsBijection m n step inj le = onto_of n (walk step n m) total meet
  where
    total : (x : ℕ) → x < n → (y : ℕ) × (walk step n m x ≡ some y) × (y < n)
    total x h =
        let (k, l, back) = returns m step inj x (omega arith) in
        let (y, e) = walk-some step n m k x l (rw back h) in
        (y, e, (walk-Ends step n m x y e).in_range)

    meet : (x y z : ℕ) → x < n → y < n → walk step n m x ≡ some z → walk step n m y ≡ some z → x ≡ y
    meet x y z hx hy ex ey =
        let a = walk-Ends step n m x z ex in
        let b = walk-Ends step n m y z ey in
        iterates_meet step n m inj le a.skipped b.skipped x y hx hy (sym a.lands ∙ b.lands)
          a.outside b.outside
