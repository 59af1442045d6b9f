-- ===== src/X509.antt =====
-- src/x509.rs: the bounded reader of a leaf certificate. This file has its DER elements.
pub mod Fields
pub mod Names
pub mod Leaf
pub mod Summary
pub mod Plain
pub mod Element
pub mod Encoding
pub mod Shown
pub mod Algorithms
pub mod Attributes
pub mod Bounded
mod Tests
use scanr.Common.{
  ℕ, zero, suc, ◌+◌, ◌-◌, ◌*◌, ◌%◌, ◌^◌, Bool, true, false, ◌||◌, List, [], ◌∷◌, ltb, leb, ◌==◌,
  if◌then◌else◌, length, take, drop,
}
use scanr.Common.Bits.{bit_and, bit_or}
use scanr.Common.Result.{Result, ok, err}
use scanr.Common.Text.{Text, codes, between}

abbrev pub Bytes : Type 0
Bytes = List ℕ

-- `raw` is the tag, the length and the body
pub record Tlv : Type 0 where
  pub tag : ℕ
  pub body : Bytes
  pub raw : Bytes

-- `fold(0, |acc, x| (acc << 8) | x)` on `usize`
unfoldable pub length_of : ℕ → Bytes → ℕ
length_of acc [] = acc
length_of acc (x ∷ xs) = length_of (bit_or (acc * 2 ^ 8 % 2 ^ 64) x) xs

-- the element in `b`, of which `r` is left behind the length
unfoldable pub tlv_with : Bytes → ℕ → ℕ → Bytes → Result Text (Tlv × Bytes)
tlv_with b tag len r =
    if ltb (length r) len
    then err (codes "length exceeds data")
    else ok (
      record { tag = tag; body = take len r; raw = take (length b - length r + len) b },
      drop len r,
    )

unfoldable pub tlv : Bytes → Result Text (Tlv × Bytes)
unfolding tlv_with length_of
tlv [] = err (codes "truncated")
tlv (tag ∷ []) = err (codes "truncated")
tlv (tag ∷ l0 ∷ r) =
    let b = tag ∷ l0 ∷ r in
    let n = bit_and l0 0x7f in
    if ltb l0 0x80
    then tlv_with b tag l0 r
    else if n == 0 || ltb 4 n
    then err (codes "unsupported length encoding")
    else if ltb (length r) n
    then err (codes "truncated")
    else tlv_with b tag (length_of 0 (take n r)) (drop n r)

abbrev pub expected : ℕ → Text → Result Text (Tlv × Bytes) → Result Text (Tlv × Bytes)
expected tag what (err _) = err what
expected tag what (ok (t, r)) = if t.tag == tag then ok (t, r) else err what

unfoldable pub expect : Bytes → ℕ → Text → Result Text (Tlv × Bytes)
expect b tag what = expected tag what (tlv b)

-- the elements that `while let Ok((t, r)) = tlv(rest)` visits, within so many rounds
unfoldable pub visited_elements : ℕ → Bytes → List Tlv
visited_elements zero b = []
visited_elements (suc rounds) b = elim (tlv b) [
  | err _ ↦ []
  | ok (t, r) ↦ t ∷ visited_elements rounds r
]

-- An element takes two bytes at least, so that the length is enough rounds.
unfoldable pub elements : Bytes → List Tlv
elements b = visited_elements (length b) b

abbrev pub max_string : ℕ
max_string = 253

abbrev pub printed : Bytes → Text
printed [] = []
printed (b ∷ bs) = (if between 0x20 0x7e b then b else b'.') ∷ printed bs

unfoldable pub printable : Bytes → Text
printable bytes = printed (take max_string bytes)
