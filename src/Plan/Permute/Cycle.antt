-- ===== src/Plan/Permute/Cycle.antt =====
-- An injection of an initial segment of the numbers into itself returns to every number: the fact
-- behind the `loop` of `Permutation::apply` in src/plan/permute.rs.
use scanr.Common.{
  ℕ, zero, suc, ◌≤◌, ◌<◌, ◌≡◌, ◌≢◌, ◌⊎◌, inl, inr, refl, sym, ap, ◌∙◌, arith, ltb, ◌==◌, ==_iff,
  if◌then◌else◌, Bool-cases,
}

pub record IsInjection (m : ℕ) (f : ℕ → ℕ) : Type 0 where
  pub below : (x : ℕ) → x < m → f x < m
  pub one_to_one : (x y : ℕ) → x < m → y < m → f x ≡ f y → x ≡ y

-- Two places up to `last` that hold the same value.
record Repeats (last : ℕ) (f : ℕ → ℕ) : Type 0 where
  first : ℕ
  second : ℕ
  ordered : first < second
  within : second ≤ last
  same : f first ≡ f second

-- Is the value `v` taken at a place up to `k`?
taken : (k v : ℕ) (f : ℕ → ℕ) → ((i : ℕ) × (i ≤ k) × (f i ≡ v)) ⊎ ((i : ℕ) → i ≤ k → f i ≢ v)
taken zero v f = elim (Bool-cases (f 0 == v)) [
  | inl e ↦ inl (0, omega arith, (==_iff _ _).0 e)
  | inr e ↦
      inr (λ i l q. let z : i ≡ 0 = omega arith in cc (e, (==_iff (f 0) v).1 (ap f (sym z) ∙ q)))
]
taken (suc k) v f = elim (Bool-cases (f (suc k) == v)) [
  | inl e ↦ inl (suc k, omega arith, (==_iff _ _).0 e)
  | inr e ↦ elim (taken k v f) [
    | inl (i, l, q) ↦ inl (i, omega arith, q)
    | inr none_below ↦ inr (λ i l q. elim (Bool-cases (ltb i (suc k))) [
      | inl lt ↦ none_below i (ground arith) q
      | inr ge ↦
          let z : i ≡ suc k = ground arith in cc (e, (==_iff (f (suc k)) v).1 (ap f (sym z) ∙ q))
    ])
  ]
]

-- The value `m` is put out of the way by the value of the last place.
abbrev without_top : ℕ → (ℕ → ℕ) → ℕ → ℕ
without_top m f i = if f i == m then f (suc m) else f i

pigeonhole : (m : ℕ) (f : ℕ → ℕ) → ((i : ℕ) → i ≤ m → f i < m) → Repeats m f
pigeonhole zero f b = absurd (omega (arith, b 0 (omega arith)))
pigeonhole (suc m) f b = elim (taken m (f (suc m)) f) [
  | inl (i, l, q) ↦ record {
    first = i;
    second = suc m;
    ordered = omega arith;
    within = omega arith;
    same = q;
  }
  | inr fresh ↦
      let r =
        pigeonhole m (without_top m f)
          (λ i l. ground (arith, b i (omega arith), b (suc m) (omega arith), fresh i l)) in
      record {
        first = r.first;
        second = r.second;
        ordered = r.ordered;
        within = omega (arith, r.within);
        same = ground (
          arith,
          r.same,
          fresh r.first (omega (arith, r.ordered, r.within)),
          fresh r.second (omega (arith, r.within)),
        );
      }
]

abbrev pub iterate : (ℕ → ℕ) → ℕ → ℕ → ℕ
iterate f zero x = x
iterate f (suc k) x = iterate f k (f x)

pub iterate-suc : (f : ℕ → ℕ) (k x : ℕ) → iterate f (suc k) x ≡ f (iterate f k x)
iterate-suc f zero x = refl
iterate-suc f (suc k) x = iterate-suc f k (f x)

module _ (m : ℕ) (f : ℕ → ℕ) (inj : IsInjection m f) where
  pub iterate-below : (k x : ℕ) → x < m → iterate f k x < m
  iterate-below zero x h = h
  iterate-below (suc k) x h = iterate-below k (f x) (inj.below x h)

  -- One step more on both sides proves nothing new.
  pub iterate_cancel :
      (i j x y : ℕ)
      → x < m
      → y < m
      → iterate f (suc i) x ≡ iterate f (suc j) y
      → iterate f i x ≡ iterate f j y
  iterate_cancel i j x y hx hy e =
      inj.one_to_one (iterate f i x) (iterate f j y) (iterate-below i x hx) (iterate-below j y hy)
        (sym (iterate-suc f i x) ∙ e ∙ iterate-suc f j y)

  -- Equal iterates of one number give a way back to it.
  cancel :
      (i j x : ℕ)
      → x < m
      → i < j
      → iterate f i x ≡ iterate f j x
      → (k : ℕ) × (k < j) × (iterate f (suc k) x ≡ x)
  cancel zero zero x h l e = absurd (omega arith)
  cancel zero (suc j) x h l e = (j, omega arith, sym e)
  cancel (suc i) zero x h l e = absurd (omega arith)
  cancel (suc i) (suc j) x h l e =
      let (k, l', q) = cancel i j x h (omega arith) (iterate_cancel i j x x h h e) in
      (k, omega arith, q)

  -- An injection of a finite segment leads every number back to itself.
  pub returns : (x : ℕ) → x < m → (k : ℕ) × (k < m) × (iterate f (suc k) x ≡ x)
  returns x h =
      let r = pigeonhole m (λ i. iterate f i x) (λ i l. iterate-below i x h) in
      let (k, l, q) = cancel r.first r.second x h r.ordered r.same in
      (k, omega (arith, r.within), q)
