-- ===== src/Net/Ports/Sorted.antt =====
-- Sorting and de-duplication in src/net/ports.rs.
use scanr.Common.{
  ℕ, zero, suc, ◌+◌, ◌≤◌, ◌≡◌, refl, ap, ◌↔◌, ◌⊎◌, inl, inr, false, ◌∙◌, ◌<◌, List, [], ◌∷◌, arith,
  All, In, leb, leb→le, ◌==◌, ==_iff, Bool-cases, length,
}
use scanr.Net.Ports.{range_from, insert_sorted, sort_unstable, dedup}

-- strictly ascending numbers, from `lo` on
abbrev pub Ascends : ℕ → List ℕ → Type 0
Ascends lo [] = Unit
Ascends lo (p ∷ ps) = (lo ≤ p) × Ascends (p + 1) ps

-- ascending numbers with repetitions, from `lo` on
abbrev IsSorted : ℕ → List ℕ → Type 0
IsSorted lo [] = Unit
IsSorted lo (p ∷ ps) = (lo ≤ p) × IsSorted p ps

IsSorted-weaken : (ps : List ℕ) (lo lo' : ℕ) → lo' ≤ lo → IsSorted lo ps → IsSorted lo' ps
IsSorted-weaken [] lo lo' l s = tt
IsSorted-weaken (p ∷ ps) lo lo' l s = (omega (arith, s.0), s.1)

insert_sorted-IsSorted :
    (ps : List ℕ) (p lo : ℕ) → lo ≤ p → IsSorted lo ps → IsSorted lo (insert_sorted p ps)
unfolding insert_sorted
insert_sorted-IsSorted [] p lo l s = (l, tt)
insert_sorted-IsSorted (q ∷ qs) p lo l s = elim (Bool-cases (leb p q)) [
  | inl h ↦ rw h (l, (leb→le p q h, s.1))
  | inr h ↦ rw h (s.0, insert_sorted-IsSorted qs p q (ground arith) s.1)
]

sort_unstable-IsSorted :
    (ps : List ℕ) (lo : ℕ) → All (λ p. lo ≤ p) ps → IsSorted lo (sort_unstable ps)
unfolding sort_unstable
sort_unstable-IsSorted [] lo h = tt
sort_unstable-IsSorted (p ∷ ps) lo h =
    insert_sorted-IsSorted (sort_unstable ps) p lo h.0 (sort_unstable-IsSorted ps lo h.1)

dedup-Ascends : (ps : List ℕ) (lo : ℕ) → IsSorted lo ps → Ascends lo (dedup ps)
unfolding dedup
dedup-Ascends [] lo s = tt
dedup-Ascends (p ∷ []) lo s = (s.0, tt)
dedup-Ascends (p ∷ q ∷ qs) lo s = elim (Bool-cases (p == q)) [
  | inl h ↦ rw h (dedup-Ascends (q ∷ qs) lo (omega (arith, s.0, s.1.0), s.1.1))
  | inr h ↦ rw h (s.0, dedup-Ascends (q ∷ qs) (p + 1) (ground (arith, s.1.0), s.1.1))
]

pub sorted-Ascends :
    (ps : List ℕ) (lo : ℕ) → All (λ p. lo ≤ p) ps → Ascends lo (dedup (sort_unstable ps))
sorted-Ascends ps lo h = dedup-Ascends (sort_unstable ps) lo (sort_unstable-IsSorted ps lo h)

module _ (a p q : ℕ) {M N : Type 0} (same : M ↔ ((a ≡ p) ⊎ N)) where
  behind : (a ≡ q) ⊎ M → (a ≡ p) ⊎ ((a ≡ q) ⊎ N)
  behind (inl e) = inr (inl e)
  behind (inr m) = elim (same.0 m) [ inl e ↦ inl e | inr n ↦ inr (inr n) ]

  before : (a ≡ p) ⊎ ((a ≡ q) ⊎ N) → (a ≡ q) ⊎ M
  before (inl e) = inr (same.1 (inl e))
  before (inr (inl e)) = inl e
  before (inr (inr n)) = inr (same.1 (inr n))

In-insert_sorted : (a p : ℕ) (ps : List ℕ) → In a (insert_sorted p ps) ↔ ((a ≡ p) ⊎ In a ps)
unfolding insert_sorted
In-insert_sorted a p [] = (λ m. m, λ m. m)
In-insert_sorted a p (q ∷ qs) =
    let same = In-insert_sorted a p qs in
    elim (Bool-cases (leb p q)) [
      | inl h ↦ rw h (λ m. m, λ m. m)
      | inr h ↦ rw h (behind a p q same, before a p q same)
    ]

-- An equivalence under one more alternative.
beside : {L M N : Type 0} → M ↔ N → (L ⊎ M) ↔ (L ⊎ N)
beside same = (
  λ m. elim m [ inl e ↦ inl e | inr n ↦ inr (same.0 n) ],
  λ m. elim m [ inl e ↦ inl e | inr n ↦ inr (same.1 n) ],
)

In-sort_unstable : (a : ℕ) (ps : List ℕ) → In a (sort_unstable ps) ↔ In a ps
unfolding sort_unstable
In-sort_unstable a [] = (λ m. m, λ m. m)
In-sort_unstable a (p ∷ ps) =
    let step = beside (In-sort_unstable a ps) in
    let ins = In-insert_sorted a p (sort_unstable ps) in
    (λ m. step.0 (ins.0 m), λ m. ins.1 (step.1 m))

In-dedup : (a : ℕ) (ps : List ℕ) → In a (dedup ps) ↔ In a ps
unfolding dedup
In-dedup a [] = (λ m. m, λ m. m)
In-dedup a (p ∷ []) = (λ m. m, λ m. m)
In-dedup a (p ∷ q ∷ qs) =
    let same = In-dedup a (q ∷ qs) in
    elim (Bool-cases (p == q)) [
      | inl h ↦ rw h (
        λ m. inr (same.0 m),
        λ m. elim m [ inl e ↦ same.1 (inl (e ∙ (==_iff p q).0 h)) | inr n ↦ same.1 n ],
      )
      | inr h ↦ rw h (beside same)
    ]

-- Sorting and removing repetitions loses no port and adds none.
pub In-sorted : (a : ℕ) (ps : List ℕ) → In a (dedup (sort_unstable ps)) ↔ In a ps
In-sorted a ps = (
  λ m. (In-sort_unstable a ps).0 ((In-dedup a (sort_unstable ps)).0 m),
  λ m. (In-dedup a (sort_unstable ps)).1 ((In-sort_unstable a ps).1 m),
)

insert_sorted-Ascends : (p : ℕ) (ps : List ℕ) → Ascends (p + 1) ps → insert_sorted p ps ≡ p ∷ ps
unfolding insert_sorted
insert_sorted-Ascends p [] s = refl
insert_sorted-Ascends p (q ∷ qs) s = ground (arith, s.0)

sort_unstable-Ascends : (ps : List ℕ) (lo : ℕ) → Ascends lo ps → sort_unstable ps ≡ ps
unfolding sort_unstable
sort_unstable-Ascends [] lo s = refl
sort_unstable-Ascends (p ∷ ps) lo s =
    rw (sort_unstable-Ascends ps (p + 1) s.1) (insert_sorted-Ascends p ps s.1)

dedup_of-Ascends : (ps : List ℕ) (lo : ℕ) → Ascends lo ps → dedup ps ≡ ps
unfolding dedup
dedup_of-Ascends [] lo s = refl
dedup_of-Ascends (p ∷ []) lo s = refl
dedup_of-Ascends (p ∷ q ∷ qs) lo s =
    let apart : p == q ≡ false = ground (arith, s.1.0) in
    rw apart (ap (◌∷◌ p) (dedup_of-Ascends (q ∷ qs) (p + 1) s.1))

-- What is ascending already is left as it is.
pub sorted_of-Ascends : (ps : List ℕ) (lo : ℕ) → Ascends lo ps → dedup (sort_unstable ps) ≡ ps
sorted_of-Ascends ps lo s = rw (sort_unstable-Ascends ps lo s) (dedup_of-Ascends ps lo s)

pub range_from-Ascends : (n start : ℕ) → Ascends start (range_from start n)
unfolding range_from
range_from-Ascends zero start = tt
range_from-Ascends (suc n) start = (omega arith, range_from-Ascends n (start + 1))

-- Ascending numbers below `top` are no more than there is room for.
Ascends-room :
    (ps : List ℕ) (lo top : ℕ)
    → lo ≤ top
    → Ascends lo ps
    → All (λ p. p < top) ps
    → lo + length ps ≤ top
Ascends-room [] lo top l s b = omega arith
Ascends-room (p ∷ ps) lo top l s b =
    omega (arith, Ascends-room ps (p + 1) top (omega (arith, b.0)) s.1 b.1, s.0)

-- Ascending numbers that fill their bounds are a range.
pub full-range_from :
    (ps : List ℕ) (lo top : ℕ)
    → lo + length ps ≡ top
    → Ascends lo ps
    → All (λ p. p < top) ps
    → ps ≡ range_from lo (length ps)
unfolding range_from
full-range_from [] lo top e s b = refl
full-range_from (p ∷ ps) lo top e s b =
    let first : p ≡ lo =
      omega (arith, Ascends-room ps (p + 1) top (omega (arith, b.0)) s.1 b.1, s.0) in
    rw (← first) (ap (◌∷◌ p) (full-range_from ps (p + 1) top (omega (arith, first)) s.1 b.1))
