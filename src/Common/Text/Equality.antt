-- ===== src/Common/Text/Equality.antt =====
-- The tests of texts decide what they are named for: `==`, `starts_with` and `ends_with`.
use mathlib.Core.List.{reverse, reverse-append, reverse-reverse}
use scanr.Common.{
  ℕ, ◌≡◌, refl, ap, sym, ◌∙◌, Bool, true, false, Option, none, some, [], ◌∷◌, ◌++◌, Bool-cases,
  Option-cases, ◌==◌, inl, inr, arith,
}
use scanr.Common.Text.{Text, text_eq, strip_prefix, ends_with}

pub text_eq→≡ : (s t : Text) → text_eq s t ≡ true → s ≡ t
unfolding text_eq
text_eq→≡ [] [] h = refl
text_eq→≡ [] (d ∷ t) h = absurd cc
text_eq→≡ (c ∷ s) [] h = absurd cc
text_eq→≡ (c ∷ s) (d ∷ t) h = ap2 (ground arith) (text_eq→≡ s t (ground arith))
  where
    ap2 : {a b : ℕ} {u v : Text} → a ≡ b → u ≡ v → a ∷ u ≡ b ∷ v
    ap2 p q = cc

pub text_eq_refl : (s : Text) → text_eq s s ≡ true
unfolding text_eq
text_eq_refl [] = refl
text_eq_refl (c ∷ s) = ground (arith, text_eq_refl s)

strip_prefix-some : (p s r : Text) → strip_prefix p s ≡ some r → s ≡ p ++ r
unfolding strip_prefix
strip_prefix-some [] s r h = cc
strip_prefix-some (c ∷ p) [] r h = absurd cc
strip_prefix-some (c ∷ p) (d ∷ s) r h = elim (Bool-cases (c == d)) [
  | inl e ↦
      (let same : c ≡ d = ground (arith, e) in
        let rest : strip_prefix p s ≡ some r = rw e at h in
        let tail = strip_prefix-some p s r rest in rw (same, tail) refl)
  | inr e ↦ (let no = rw e at h in absurd cc)
]

strip_prefix-append : (p r : Text) → strip_prefix p (p ++ r) ≡ some r
unfolding strip_prefix
strip_prefix-append [] r = refl
strip_prefix-append (c ∷ p) r =
    let same : (c == c) ≡ true = ground arith in rw same (strip_prefix-append p r)

abbrev found : Option Text → Bool
found none = false
found (some r) = true

-- The text ends in this one.
unfoldable pub EndsIn : Text → Text → Type 0
EndsIn t s = (front : Text) × (s ≡ front ++ t)

pub ends_with-EndsIn : (s t : Text) → ends_with s t ≡ true → EndsIn t s
unfolding ends_with EndsIn
ends_with-EndsIn s t h = elim (Option-cases (strip_prefix (reverse t) (reverse s))) [
  | inl e ↦ (let no : false ≡ true = sym (ap found e) ∙ h in absurd cc)
  | inr (r, e) ↦ (
    reverse r,
    sym (reverse-reverse s)
        ∙ (ap reverse (strip_prefix-some (reverse t) (reverse s) r e)
            ∙ (reverse-append (reverse t) r
                ∙ ap (λ (u : Text). reverse r ++ u) (reverse-reverse t))),
  )
]

pub EndsIn-ends_with : (s t : Text) → EndsIn t s → ends_with s t ≡ true
unfolding ends_with EndsIn
EndsIn-ends_with s t (front, e) =
    let turned : reverse s ≡ reverse t ++ reverse front = ap reverse e ∙ reverse-append front t in
    ap found
      (ap (strip_prefix (reverse t)) turned ∙ strip_prefix-append (reverse t) (reverse front))
