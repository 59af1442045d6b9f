-- ===== src/X509/Element.antt =====
-- What `tlv` takes off its input, and the loops over the elements, in src/x509.rs.
use mathlib.Core.Path.{subst}
use scanr.Common.{
  ℕ, zero, suc, ◌+◌, ◌-◌, ◌≤◌, ◌<◌, ◌≡◌, refl, ap, ◌||◌, List, [], ◌∷◌, ◌++◌, ltb, ◌==◌,
  if◌then◌else◌, length, take, drop, cut_behind, take-append-drop, length-append, append_assoc,
  arith, ◌⊎◌, inl, inr,
}
use scanr.Common.Bits.{bit_and}
use scanr.Common.Result.{Result, ok, err, Ensures, Ensures-if, Ensures-ok}
use scanr.Common.Text.{Text, codes}
use scanr.X509.{Bytes, Tlv, length_of, tlv_with, tlv, visited_elements, elements}

-- The element and what is left are the input, cut in two, and the body is the end of the element, behind its
-- tag and at least a byte of length.
pub record IsSplit (b : Bytes) (t : Tlv) (r : Bytes) : Type 0 where
  pub header : Bytes
  pub long : 2 ≤ length header
  pub shape : t.raw ≡ header ++ t.body
  pub whole : t.raw ++ r ≡ b

tlv_with-IsSplit :
    (front : Bytes) (tag len : ℕ) (r : Bytes)
    → 2 ≤ length front
    → Ensures (λ (p : Tlv × Bytes). IsSplit (front ++ r) p.0 p.1) (tlv_with (front ++ r) tag len r)
unfolding tlv_with
tlv_with-IsSplit front tag len r l =
    let count : length (front ++ r) - length r + len ≡ length front + len =
      omega (arith, length-append front r) in
    let (t, _) = cut_behind (length front + len) front r (omega arith) in
    let back : length front + len - length front ≡ len = omega arith in
    let raw : take (length (front ++ r) - length r + len) (front ++ r) ≡ front ++ take len r =
      rw (count, t, back) refl in
    Ensures-if (λ (p : Tlv × Bytes). IsSplit (front ++ r) p.0 p.1) (ltb (length r) len) _ _
      (λ _. tt)
      (λ _. record {
        header = front;
        long = l;
        shape = raw;
        whole = rw (raw, append_assoc front (take len r) (drop len r), take-append-drop len r) refl;
      })

tlv-cut : (b : Bytes) → Ensures (λ (p : Tlv × Bytes). IsSplit b p.0 p.1) (tlv b)
unfolding tlv
tlv-cut [] = tt
tlv-cut (tag ∷ []) = tt
tlv-cut (tag ∷ l0 ∷ r) =
    let Q : Tlv × Bytes → Type 0 = λ p. IsSplit (tag ∷ l0 ∷ r) p.0 p.1 in
    let b = tag ∷ l0 ∷ r in
    let n = bit_and l0 0x7f in
    let long = tlv_with b tag (length_of 0 (take n r)) (drop n r) in
    let at_last : Result Text (Tlv × Bytes) =
      if ltb (length r) n then err (codes "truncated") else long in
    let counted : Result Text (Tlv × Bytes) =
      if n == 0 || ltb 4 n then err (codes "unsupported length encoding") else at_last in
    Ensures-if Q (ltb l0 0x80) (tlv_with b tag l0 r) counted
      (λ _. tlv_with-IsSplit (tag ∷ l0 ∷ []) tag l0 r (omega arith))
      (λ _.
        Ensures-if Q (n == 0 || ltb 4 n) _ at_last (λ _. tt)
          (λ _.
            Ensures-if Q (ltb (length r) n) _ long (λ _. tt)
              (λ _.
                subst
                  (λ (s : Bytes).
                    Ensures (λ (p : Tlv × Bytes). IsSplit (tag ∷ l0 ∷ s) p.0 p.1)
                      (tlv_with (tag ∷ l0 ∷ s) tag (length_of 0 (take n r)) (drop n r)))
                  (take-append-drop n r)
                  (tlv_with-IsSplit (tag ∷ l0 ∷ take n r) tag (length_of 0 (take n r)) (drop n r)
                    (omega arith)))))

-- A successful `tlv` cuts its input in two and leaves nothing out.
pub tlv-IsSplit : (b : Bytes) {t : Tlv} {r : Bytes} → tlv b ≡ ok (t, r) → IsSplit b t r
tlv-IsSplit b h = Ensures-ok (λ (p : Tlv × Bytes). IsSplit b p.0 p.1) (tlv b) (tlv-cut b) h

pub rest-shorter : (b : Bytes) {t : Tlv} {r : Bytes} → tlv b ≡ ok (t, r) → length r < length b
rest-shorter b {t} {r} h =
    let s = tlv-IsSplit b h in
    omega (
      arith,
      s.long,
      ap length s.whole,
      length-append t.raw r,
      ap length s.shape,
      length-append s.header t.body,
    )

-- The run of `while let Ok((t, r)) = tlv(rest)`: it ends where `tlv` fails, and visits an element and goes on
-- with what is left where it does not.
pub data IsVisit : Bytes → List Tlv → Type 0 where
  ended : (b : Bytes) (e : Text) → tlv b ≡ err e → IsVisit b []
  went :
      (b : Bytes) (t : Tlv) (r : Bytes) (ts : List Tlv)
      → tlv b ≡ ok (t, r)
      → IsVisit r ts
      → IsVisit b (t ∷ ts)

result_cases : {E A : Type 0} (m : Result E A) → ((e : E) × (m ≡ err e)) ⊎ ((a : A) × (m ≡ ok a))
result_cases (ok a) = inr (a, refl)
result_cases (err e) = inl (e, refl)

tlv_nil : tlv [] ≡ err (codes "truncated")
unfolding tlv
tlv_nil = refl

visited_elements-IsVisit :
    (rounds : ℕ) (b : Bytes) → length b ≤ rounds → IsVisit b (visited_elements rounds b)
unfolding visited_elements
visited_elements-IsVisit zero [] l = ended [] (codes "truncated") tlv_nil
visited_elements-IsVisit zero (x ∷ b) l = absurd (omega arith)
visited_elements-IsVisit (suc rounds) b l = elim (result_cases (tlv b)) [
  | inl (e, h) ↦ rw (visited_elements, h) (ended b e h)
  | inr ((t, r), h) ↦
      rw (visited_elements, h)
        (went b t r (visited_elements rounds r) h
          (visited_elements-IsVisit rounds r (omega (arith, rest-shorter b h))))
]

-- On every input, as many rounds as there are bytes are enough: the elements are those of a whole run of the
-- loop, which stops only where `tlv` fails.
pub elements-IsVisit : (b : Bytes) → IsVisit b (elements b)
unfolding elements
elements-IsVisit b = visited_elements-IsVisit (length b) b (omega arith)
