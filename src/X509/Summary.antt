-- ===== src/X509/Summary.antt =====
-- src/x509.rs: the words that a result line says of a certificate.
use scanr.Common.{
  ℕ, Bool, Option, none, some, List, [], ◌∷◌, ◌++◌, ltb, if◌then◌else◌, length, take,
}
use scanr.Common.Int.{ℤ, ◌-ℤ◌, is_negative}
use scanr.Common.Text.{Text, codes, text_eq, ends_with}
use scanr.Common.Text.Utf8.{as_bytes}
use scanr.X509.{printable}
use scanr.X509.Leaf.{Leaf, Validity, valid, expired, not_yet_valid}

abbrev pub display_name_w : ℕ
display_name_w = 40

abbrev pub validity_name : Validity → Text
validity_name valid = codes "valid"
validity_name expired = codes "expired"
validity_name not_yet_valid = codes "not_yet_valid"

unfoldable pub validity_at : Leaf → ℤ → Validity
unfolding ◌-ℤ◌
validity_at leaf now =
    if is_negative (now -ℤ leaf.not_before)
    then not_yet_valid
    else if is_negative (leaf.not_after -ℤ now)
    then expired
    else valid

-- the ellipsis is one character
abbrev pub clip : Text → Text
clip name =
    take display_name_w name
    ++ (if ltb display_name_w (length (as_bytes name)) then 0x2026 ∷ [] else [])

abbrev pub first_ending : Text → List Text → Option Text
first_ending sig_alg [] = none
first_ending sig_alg (h ∷ hs) =
    if ends_with sig_alg (b'-' ∷ h) then some h else first_ending sig_alg hs

unfoldable pub weak_hash : Text → Option Text
weak_hash sig_alg = first_ending sig_alg (codes "sha1" ∷ codes "md5" ∷ codes "md2" ∷ [])

abbrev pub name_word : Option (Text × Text) → List Text
name_word none = []
name_word (some (key, value)) = (key ++ b'=' ∷ clip (printable (as_bytes value))) ∷ []

abbrev pub validity_word : Option Text → List Text
validity_word none = []
validity_word (some v) =
    if text_eq v (codes "expired")
    then codes "expired" ∷ []
    else if text_eq v (codes "not_yet_valid")
    then codes "not-yet-valid" ∷ []
    else []

abbrev pub hash_word : Option Text → List Text
hash_word none = []
hash_word (some h) = (h ++ codes "-signed") ∷ []

abbrev pub weak_of : Option Text → Option Text
weak_of none = none
weak_of (some sig_alg) = weak_hash sig_alg

-- `join(" ")`
abbrev pub joined : List Text → Text
joined [] = []
joined (p ∷ []) = p
joined (p ∷ q ∷ ps) = p ++ b' ' ∷ joined (q ∷ ps)

unfoldable pub summary_parts : Option (Text × Text) → Bool → Option Text → Option Text → Text
summary_parts name self_signed validity sig_alg = joined (
    name_word name
    ++ (if self_signed then codes "self-signed" ∷ [] else [])
    ++ validity_word validity
    ++ hash_word (weak_of sig_alg))

-- the subject's common name, else the first alternative name
abbrev pub named_by : Option Text → List Text → Option (Text × Text)
named_by (some cn) sans = some (codes "cn", cn)
named_by none (san ∷ sans) = some (codes "san", san)
named_by none [] = none

abbrev pub shown_name : Leaf → Option (Text × Text)
shown_name leaf = named_by leaf.subject_cn leaf.alternatives.san

abbrev pub validity_text : Option Validity → Option Text
validity_text none = none
validity_text (some v) = some (validity_name v)

unfoldable pub summary : Leaf → Text
summary leaf =
    summary_parts (shown_name leaf) leaf.self_signed (validity_text leaf.validity)
      (some leaf.sig_alg)
