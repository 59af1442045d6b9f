-- ===== src/Output/Span/Ranges.antt =====
-- The ranges of a span of src/output/span.rs stand for exactly the indices that were absorbed.
use scanr.Common.{
  ℕ, zero, suc, ◌+◌, ◌-◌, ◌≤◌, ◌≡◌, refl, ap, ◌∙◌, ◌↔◌, inl, inr, List, [], ◌∷◌, ◌++◌, append_assoc,
  In, length, ◌==◌, Bool-cases, arith,
}
use scanr.Net.Ports.{sort_unstable, dedup}
use scanr.Net.Ports.Sorted.{In-sorted}
use scanr.Output.Span.{Range, Group, ranges_from, ranges_of, ranges}

-- the indices from `first` on
abbrev pub count_on : ℕ → ℕ → List ℕ
count_on first zero = []
count_on first (suc n) = first ∷ count_on (first + 1) n

-- A consumer expands a range with both its ends.
abbrev pub covered : Range → List ℕ
covered r = count_on r.start (r.end + 1 - r.start)

abbrev pub expanded : List Range → List ℕ
expanded [] = []
expanded (r ∷ rs) = covered r ++ expanded rs

count_on-snoc : (n first : ℕ) → count_on first (suc n) ≡ count_on first n ++ (first + n) ∷ []
count_on-snoc zero first = let e : first + 0 ≡ first = omega arith in rw e refl
count_on-snoc (suc n) first =
    let e : first + suc n ≡ first + 1 + n = omega arith in
    rw e (ap (◌∷◌ first) (count_on-snoc n (first + 1)))

covered-longer :
    (start end : ℕ)
    → start ≤ end
    → count_on start (end + 1 + 1 - start) ≡ count_on start (end + 1 - start) ++ (end + 1) ∷ []
covered-longer start end l =
    let a : end + 1 + 1 - start ≡ suc (end + 1 - start) = omega arith in
    let b : start + (end + 1 - start) ≡ end + 1 = omega arith in
    rw a (let s = count_on-snoc (end + 1 - start) start in rw b at s)

ranges_from-expanded :
    (is : List ℕ) (start end : ℕ)
    → start ≤ end
    → expanded (ranges_from (record { start = start; end = end }) is)
      ≡ covered (record { start = start; end = end }) ++ is
unfolding ranges_from
ranges_from-expanded [] start end l = refl
ranges_from-expanded (i ∷ is) start end l = elim (Bool-cases (end + 1 == i)) [
  | inl h ↦
      (let e : i ≡ end + 1 = ground arith in
        let longer = ranges_from-expanded is start (end + 1) (omega arith) in
        rw (h, e)
          (longer
            ∙ (ap (λ (xs : List ℕ). xs ++ is) (covered-longer start end l)
                ∙ append_assoc (covered (record { start = start; end = end })) ((end + 1) ∷ [])
                    is)))
  | inr h ↦
      (let one : i + 1 - i ≡ 1 = omega arith in
        let fresh = ranges_from-expanded is i i (omega arith) in
        rw h (
          ap (λ (xs : List ℕ). covered (record { start = start; end = end }) ++ xs)
            (rw one at fresh)))
]

ranges_of-expanded : (is : List ℕ) → expanded (ranges_of is) ≡ is
ranges_of-expanded [] = refl
ranges_of-expanded (i ∷ is) =
    let one : i + 1 - i ≡ 1 = omega arith in
    let e = ranges_from-expanded is i i (omega arith) in rw one at e

-- Whatever indices a class holds, in any order and with any repetition: its ranges expand to the same
-- indices, as many as its count says.
pub ranges-expanded :
    (g : Group)
    → ((i : ℕ) → In i (expanded (ranges g).0) ↔ In i g.indices)
      × (length (expanded (ranges g).0) ≡ (ranges g).1)
unfolding ranges
ranges-expanded g =
    let e = ranges_of-expanded (dedup (sort_unstable g.indices)) in
    rw e ((λ i. In-sorted i g.indices), refl)
