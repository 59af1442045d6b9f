-- ===== src/Run/Reported/Tracked.antt =====
-- What the bits of `Reported` in src/run.rs know of the probes.
use scanr.Common.{
  ℕ, zero, suc, ◌+◌, ◌*◌, ◌/◌, ◌%◌, ◌^◌, ◌<◌, ◌≤◌, ◌≡◌, refl, ap, inl, inr, false, not, ◌&&◌, ◌||◌,
  some, List, [], ◌∷◌, In, get_or, length, ltb, leb, ◌==◌, if◌then◌else◌, Bool-cases, arith,
}
use scanr.Common.Bits.{bit_and, bit_or}
use scanr.Common.Bits.Digit.{bit_of, bit_and-bit_of, bit_or-bit_of}
use scanr.Run.Reported.{Reported, words, word_count, reported_new, set_bits, mark, saw, unseen}
use native.Mathlib.Nat.{one-le-pow}

-- There is a word for each planned probe, so no access is out of range.
abbrev pub IsWide : Reported → Type 0
IsWide r = r.planned ≤ 64 * length r.bits

length-words : (n : ℕ) → length (words n) ≡ n
length-words zero = refl
length-words (suc n) = ap suc (length-words n)

length-set_bits : (i m : ℕ) (ws : List ℕ) → length (set_bits i m ws) ≡ length ws
unfolding set_bits
length-set_bits i m [] = refl
length-set_bits zero m (w ∷ ws) = refl
length-set_bits (suc i) m (w ∷ ws) = ap suc (length-set_bits i m ws)

get_or-set_bits :
    (i m j : ℕ) (ws : List ℕ)
    → i < length ws
    → get_or (set_bits i m ws) j 0 ≡ (if i == j then bit_or (get_or ws j 0) m else get_or ws j 0)
unfolding set_bits
get_or-set_bits i m j [] l = absurd (omega arith)
get_or-set_bits zero m zero (w ∷ ws) l = refl
get_or-set_bits zero m (suc j) (w ∷ ws) l = ground arith
get_or-set_bits (suc i) m zero (w ∷ ws) l = ground arith
get_or-set_bits (suc i) m (suc j) (w ∷ ws) l =
    let e : (suc i == suc j) ≡ (i == j) = ground arith in
    rw e (get_or-set_bits i m j ws (omega arith))

-- the test of a bit, by its digit
test-bit_of : (w k : ℕ) → not (bit_and w (2 ^ k) == 0) ≡ (bit_of w k == 1)
test-bit_of w k =
    rw (bit_and-bit_of k w)
      (by_digit (bit_of w k) (2 ^ k) (omega arith) (one-le-pow k 2 (omega arith)))
  where
    by_digit : (d p : ℕ) → d < 2 → 1 ≤ p → not (d * p == 0) ≡ (d == 1)
    by_digit zero p l h = ground arith
    by_digit (suc zero) p l h = ground arith
    by_digit (suc (suc d)) p l h = absurd (omega arith)

-- the bit of an index
abbrev bit : Reported → ℕ → ℕ
bit r j = bit_of (get_or r.bits (j / 64) 0) (j % 64)

saw-bit : (r : Reported) (j : ℕ) → saw r j ≡ (ltb j r.planned && (bit r j == 1))
unfolding saw
saw-bit r j = ap (λ b. ltb j r.planned && b) (test-bit_of (get_or r.bits (j / 64) 0) (j % 64))

bit-set :
    (i j : ℕ) (ws : List ℕ)
    → i / 64 < length ws
    → bit_of (get_or (set_bits (i / 64) (2 ^ (i % 64)) ws) (j / 64) 0) (j % 64)
      ≡ (if i == j then 1 else bit_of (get_or ws (j / 64) 0) (j % 64))
bit-set i j ws l = elim (Bool-cases (i / 64 == j / 64)) [
  | inl same ↦
      (let low : (i % 64 == j % 64) ≡ (i == j) = ground arith in
        rw
          (
            get_or-set_bits (i / 64) (2 ^ (i % 64)) (j / 64) ws l,
            same,
            bit_or-bit_of (i % 64) (j % 64) (get_or ws (j / 64) 0),
            low,
          )
          refl)
  | inr other ↦
      (let apart : (i == j) ≡ false = ground arith in
        rw (get_or-set_bits (i / 64) (2 ^ (i % 64)) (j / 64) ws l, other, apart) refl)
]

pub mark-IsWide : (i : ℕ) (r : Reported) → IsWide r → IsWide (mark i r)
unfolding mark
mark-IsWide i r w = elim (Bool-cases (ltb i r.planned)) [
  | inl h ↦ rw (h, length-set_bits (i / 64) (2 ^ (i % 64)) r.bits) w
  | inr h ↦ rw h w
]

pub planned-mark : (i : ℕ) (r : Reported) → (mark i r).planned ≡ r.planned
unfolding mark
planned-mark i r = ground arith

pub saw-mark :
    (i j : ℕ) (r : Reported)
    → IsWide r
    → saw (mark i r) j ≡ ((i == j && ltb j r.planned) || saw r j)
unfolding mark
saw-mark i j r w = elim (Bool-cases (ltb i r.planned)) [
  | inl h ↦
      (let within : i / 64 < length r.bits = ground arith in
        rw
          (
            h,
            saw-bit (record r { bits = set_bits (i / 64) (2 ^ (i % 64)) r.bits }) j,
            bit-set i j r.bits within,
            saw-bit r j,
          )
          (ground arith))
  | inr h ↦ rw (h, saw-bit r j) (ground arith)
]

get_or-words : (n j : ℕ) → get_or (words n) j 0 ≡ 0
get_or-words zero j = refl
get_or-words (suc n) zero = refl
get_or-words (suc n) (suc j) = get_or-words n j

zero-div : (d : ℕ) → 1 ≤ d → 0 / d ≡ 0
zero-div d l = grind arith

-- a tracker with no bit set
blank : ℕ → Reported
blank planned = record { bits = words (word_count planned); planned = planned }

new-eq : (planned : ℕ) {r : Reported} → reported_new planned ≡ some r → r ≡ blank planned
unfolding reported_new blank
new-eq planned h = ground arith

pub new-IsWide :
    (planned : ℕ) {r : Reported} → reported_new planned ≡ some r → IsWide r × (r.planned ≡ planned)
unfolding blank
new-IsWide planned {r} h =
    rw (new-eq planned h) (omega (arith, length-words (word_count planned)), refl)

-- a new tracker has seen nothing
pub saw-new : (planned j : ℕ) {r : Reported} → reported_new planned ≡ some r → saw r j ≡ false
unfolding blank
saw-new planned j {r} h =
    rw
      (
        new-eq planned h,
        saw-bit (blank planned) j,
        get_or-words (word_count planned) (j / 64),
        zero-div (2 ^ (j % 64)) (one-le-pow (j % 64) 2 (omega arith)),
      )
      (ground arith)

-- No index stands twice in the list.
abbrev pub IsDistinct : List ℕ → Type 0
IsDistinct [] = Unit
IsDistinct (i ∷ is) = ¬ In i is × IsDistinct is

pub length-unseen-mark :
    (i : ℕ) (r : Reported) (next count : ℕ)
    → IsWide r
    → i < r.planned
    → saw r i ≡ false
    → length (unseen (mark i r) next count) + (if leb next i && ltb i (next + count) then 1 else 0)
      ≡ length (unseen r next count)
unfolding unseen
length-unseen-mark i r next zero w l f = ground arith
length-unseen-mark i r next (suc count) w l f =
    let ih = length-unseen-mark i r (next + 1) count w l f in
    elim (Bool-cases (i == next)) [
      | inl same ↦ ground (arith, ih, saw-mark i next r w)
      | inr other ↦ ground (arith, ih, saw-mark i next r w)
    ]
