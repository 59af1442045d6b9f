-- ===== src/X509/Plain.antt =====
-- The words that src/x509.rs says of a certificate carry no control characters.
use scanr.Common.{
  ℕ, ◌≤◌, ◌≡◌, refl, Bool, true, false, Option, none, some, List, [], ◌∷◌, ◌++◌, All, All-append,
  All-map, ltb, if◌then◌else◌, Bool-cases, length, take, ◌⊎◌, inl, inr,
}
use scanr.Common.Text.{Text, codes, text_eq, ends_with}
use scanr.Common.Text.Utf8.{as_bytes}
use scanr.X509.{printable}
use scanr.X509.Leaf.{Leaf}
use scanr.X509.Summary.{
  display_name_w, clip, first_ending, weak_hash, name_word, validity_word, hash_word, joined,
  summary_parts, named_by, shown_name, validity_text, summary,
}
use scanr.X509.Shown.{
  IsPrintable, are_printable, literal-IsPrintable, IsPrintable-take, printable-IsShown,
}

-- Each character is printable ASCII or the ellipsis.
unfoldable pub IsPlain : Text → Type 0
IsPlain t = All (λ (c : ℕ). ((0x20 ≤ c) × (c ≤ 0x7e)) ⊎ (c ≡ 0x2026)) t

printable-IsPlain : (t : Text) → IsPrintable t → IsPlain t
unfolding IsPlain IsPrintable
printable-IsPlain t h = All-map (λ (c : ℕ) (b : (0x20 ≤ c) × (c ≤ 0x7e)). inl b) t h

literal-IsPlain : (t : Text) → are_printable t ≡ true → IsPlain t
literal-IsPlain t h = printable-IsPlain t (literal-IsPrintable t h)

IsPlain-append : (s t : Text) → IsPlain s → IsPlain t → IsPlain (s ++ t)
unfolding IsPlain
IsPlain-append s t hs ht = All-append _ s t hs ht

AllPlain : List Text → Type 0
AllPlain ps = All IsPlain ps

joined-IsPlain : (ps : List Text) → AllPlain ps → IsPlain (joined ps)
unfolding AllPlain
joined-IsPlain [] h = literal-IsPlain [] refl
joined-IsPlain (p ∷ []) h = h.0
joined-IsPlain (p ∷ q ∷ ps) h = IsPlain-append p (b' ' ∷ joined (q ∷ ps)) h.0 (
    IsPlain-append (codes " ") (joined (q ∷ ps)) (literal-IsPlain (codes " ") refl)
      (joined-IsPlain (q ∷ ps) h.1))

clip-IsPlain : (t : Text) → IsPrintable t → IsPlain (clip t)
unfolding IsPlain
clip-IsPlain t h = elim (Bool-cases (ltb display_name_w (length (as_bytes t)))) [
  | inl e ↦ rw e (All-append _ (take display_name_w t) (0x2026 ∷ []) front (inr refl, tt))
  | inr e ↦ rw e (All-append _ (take display_name_w t) [] front tt)
]
  where
    front : IsPlain (take display_name_w t)
    front = printable-IsPlain (take display_name_w t) (IsPrintable-take display_name_w t h)

word-AllPlain : (key value : Text) → IsPlain key → AllPlain (name_word (some (key, value)))
unfolding AllPlain
word-AllPlain key value h =
    let shown = clip (printable (as_bytes value)) in
    (
      IsPlain-append key (b'=' ∷ shown) h (
          IsPlain-append (codes "=") shown (literal-IsPlain (codes "=") refl)
            (clip-IsPlain (printable (as_bytes value)) (printable-IsShown (as_bytes value)).clear)),
      tt,
    )

named-AllPlain : (cn : Option Text) (sans : List Text) → AllPlain (name_word (named_by cn sans))
unfolding AllPlain
named-AllPlain (some cn) sans = word-AllPlain (codes "cn") cn (literal-IsPlain (codes "cn") refl)
named-AllPlain none (san ∷ sans) =
    word-AllPlain (codes "san") san (literal-IsPlain (codes "san") refl)
named-AllPlain none [] = tt

signed-AllPlain : (b : Bool) → AllPlain (if b then codes "self-signed" ∷ [] else [])
unfolding AllPlain
signed-AllPlain true = (literal-IsPlain (codes "self-signed") refl, tt)
signed-AllPlain false = tt

validity-AllPlain : (v : Option Text) → AllPlain (validity_word v)
unfolding AllPlain
validity-AllPlain none = tt
validity-AllPlain (some v) = elim (Bool-cases (text_eq v (codes "expired"))) [
  | inl e ↦ rw e (literal-IsPlain (codes "expired") refl, tt)
  | inr e ↦ elim (Bool-cases (text_eq v (codes "not_yet_valid"))) [
    | inl k ↦ rw (e, k) (literal-IsPlain (codes "not-yet-valid") refl, tt)
    | inr k ↦ rw (e, k) tt
  ]
]

ending-AllPlain :
    (s : Text) (hs : List Text) → AllPlain hs → AllPlain (hash_word (first_ending s hs))
unfolding AllPlain
ending-AllPlain s [] p = tt
ending-AllPlain s (h ∷ hs) p = elim (Bool-cases (ends_with s (b'-' ∷ h))) [
  | inl e ↦
      rw e (IsPlain-append h (codes "-signed") p.0 (literal-IsPlain (codes "-signed") refl), tt)
  | inr e ↦ rw e (ending-AllPlain s hs p.1)
]

hash-AllPlain : (s : Text) → AllPlain (hash_word (weak_hash s))
unfolding weak_hash AllPlain
hash-AllPlain s = ending-AllPlain s (codes "sha1" ∷ codes "md5" ∷ codes "md2" ∷ []) (
  literal-IsPlain (codes "sha1") refl,
  (literal-IsPlain (codes "md5") refl, (literal-IsPlain (codes "md2") refl, tt)),
)

-- For every leaf, whatever its texts hold, the words that a result line adds are of printable ASCII characters
-- and the ellipsis only: a peer's name cannot move the cursor or forge a line.
pub summary-IsPlain : (leaf : Leaf) → IsPlain (summary leaf)
unfolding summary summary_parts AllPlain
summary-IsPlain leaf =
    let name = name_word (shown_name leaf) in
    let signed = if leaf.self_signed then codes "self-signed" ∷ [] else [] in
    let validity = validity_word (validity_text leaf.validity) in
    let hash = hash_word (weak_hash leaf.sig_alg) in
    joined-IsPlain (name ++ signed ++ validity ++ hash) (
      All-append IsPlain (name ++ signed ++ validity) hash
        (All-append IsPlain (name ++ signed) validity
          (All-append IsPlain name signed (named-AllPlain leaf.subject_cn leaf.alternatives.san)
            (signed-AllPlain leaf.self_signed))
          (validity-AllPlain (validity_text leaf.validity)))
        (hash-AllPlain leaf.sig_alg))
