-- ===== src/X509/Encoding.antt =====
-- DER as X.690 writes it, independently of the code, and what src/x509.rs reads from it.
use scanr.Common.{
  ℕ, zero, suc, ◌+◌, ◌-◌, ◌*◌, ◌/◌, ◌%◌, ◌^◌, ◌≤◌, ◌<◌, ◌≡◌, refl, ap, ◌∙◌, true, false, ◌||◌, List,
  [], ◌∷◌, ◌++◌, ltb, ◌==◌, if◌then◌else◌, Bool-cases, length, take, drop, cut_inside, take-all,
  drop-all, length-append, append_assoc, map, arith, inl, inr,
}
use scanr.Common.Bits.{bit_and, bit_or, bit_or-low, bit_and-ones}
use scanr.Common.Result.{ok}
use scanr.Net.Addr.{be_bytes, length-be_bytes}
use scanr.X509.{Bytes, Tlv, length_of, tlv_with, tlv, visited_elements, elements}

-- the bytes that a length takes, of at most four
abbrev pub length_bytes : ℕ → ℕ
length_bytes n =
    if ltb n (2 ^ 8) then 1 else if ltb n (2 ^ 16) then 2 else if ltb n (2 ^ 24) then 3 else 4

abbrev pub encoded_length : ℕ → Bytes
encoded_length n =
    if ltb n 0x80 then n ∷ [] else (0x80 + length_bytes n) ∷ be_bytes (length_bytes n) n

unfoldable pub encode : ℕ → Bytes → Bytes
encode tag body = tag ∷ (encoded_length (length body) ++ body)

unfoldable pub encode_all : List (ℕ × Bytes) → Bytes
encode_all [] = []
encode_all ((tag, body) ∷ xs) = encode tag body ++ encode_all xs

abbrev pub element_of : ℕ × Bytes → Tlv
unfolding encode
element_of (tag, body) = record { tag = tag; body = body; raw = encode tag body }

-- a byte more
shift_in : (acc x : ℕ) → acc < 2 ^ 56 → x < 2 ^ 8 → bit_or (acc * 2 ^ 8 % 2 ^ 64) x ≡ acc * 256 + x
shift_in acc x l k =
    let same : acc * 2 ^ 8 % 2 ^ 64 ≡ acc * 2 ^ 8 = omega arith in
    rw (same, bit_or-low 8 acc x k) refl

length_of-be_bytes_1 : (n : ℕ) → n < 2 ^ 8 → length_of 0 (be_bytes 1 n) ≡ n
unfolding length_of be_bytes
length_of-be_bytes_1 n l = shift_in 0 (n / 256 ^ 0 % 256) (omega arith) (omega arith) ∙ omega arith

length_of-be_bytes_2 : (n : ℕ) → n < 2 ^ 16 → length_of 0 (be_bytes 2 n) ≡ n
unfolding length_of be_bytes
length_of-be_bytes_2 n l =
    rw
      (
        shift_in 0 (n / 256 ^ 1 % 256) (omega arith) (omega arith),
        shift_in (0 * 256 + n / 256 ^ 1 % 256) (n / 256 ^ 0 % 256) (omega arith) (omega arith),
      )
      (omega arith)

length_of-be_bytes_4 : (n : ℕ) → n < 2 ^ 32 → length_of 0 (be_bytes 4 n) ≡ n
unfolding length_of be_bytes
length_of-be_bytes_4 n l =
    let a = n / 256 ^ 3 % 256 in
    let b = n / 256 ^ 2 % 256 in
    let c = n / 256 ^ 1 % 256 in
    rw
      (
        shift_in 0 a (omega arith) (omega arith),
        shift_in (0 * 256 + a) b (omega arith) (omega arith),
        shift_in ((0 * 256 + a) * 256 + b) c (omega arith) (omega arith),
        shift_in (((0 * 256 + a) * 256 + b) * 256 + c) (n / 256 ^ 0 % 256) (omega arith)
            (omega arith),
      )
      (omega arith)

length_of-be_bytes_3 : (n : ℕ) → n < 2 ^ 24 → length_of 0 (be_bytes 3 n) ≡ n
unfolding length_of be_bytes
length_of-be_bytes_3 n l =
    let b = n / 256 ^ 2 % 256 in
    let c = n / 256 ^ 1 % 256 in
    rw
      (
        shift_in 0 b (omega arith) (omega arith),
        shift_in (0 * 256 + b) c (omega arith) (omega arith),
        shift_in ((0 * 256 + b) * 256 + c) (n / 256 ^ 0 % 256) (omega arith) (omega arith),
      )
      (omega arith)

-- the count of the bytes of a length, and what they spell
record IsCount (n count : ℕ) : Type 0 where
  pub some_byte : 1 ≤ count
  pub four_at_most : count ≤ 4
  pub spelled : length_of 0 (be_bytes count n) ≡ n

length_bytes-IsCount : (n : ℕ) → n < 2 ^ 32 → IsCount n (length_bytes n)
length_bytes-IsCount n l = elim (Bool-cases (ltb n (2 ^ 8))) [
  | inl h ↦ rw h (record {
    some_byte = omega arith;
    four_at_most = omega arith;
    spelled = length_of-be_bytes_1 n (ground arith);
  })
  | inr h ↦ elim (Bool-cases (ltb n (2 ^ 16))) [
    | inl k ↦
        rw (h, k)
          (record {
            some_byte = omega arith;
            four_at_most = omega arith;
            spelled = length_of-be_bytes_2 n (ground arith);
          })
    | inr k ↦ elim (Bool-cases (ltb n (2 ^ 24))) [
      | inl j ↦
          rw (h, k, j)
            (record {
              some_byte = omega arith;
              four_at_most = omega arith;
              spelled = length_of-be_bytes_3 n (ground arith);
            })
      | inr j ↦
          rw (h, k, j)
            (record {
              some_byte = omega arith;
              four_at_most = omega arith;
              spelled = length_of-be_bytes_4 n l;
            })
    ]
  ]
]

cut_at : (xs ys : Bytes) → (take (length xs) (xs ++ ys) ≡ xs) × (drop (length xs) (xs ++ ys) ≡ ys)
cut_at xs ys =
    let (t, d) = cut_inside (length xs) xs ys (omega arith) in
    (t ∙ take-all xs, d ∙ ap (λ zs. zs ++ ys) (drop-all (length xs) xs (omega arith)))

-- `tlv_with` behind the right length
tlv_with-body :
    (front body rest : Bytes) (tag : ℕ)
    → tlv_with (front ++ (body ++ rest)) tag (length body) (body ++ rest)
      ≡ ok (record { tag = tag; body = body; raw = front ++ body }, rest)
unfolding tlv_with
tlv_with-body front body rest tag =
    let (t, d) = cut_at body rest in
    let enough : ltb (length (body ++ rest)) (length body) ≡ false =
      ground (arith, length-append body rest) in
    let count : length (front ++ (body ++ rest)) - length (body ++ rest) + length body
        ≡ length (front ++ body) =
      omega (arith, length-append front (body ++ rest), length-append front body) in
    let raw : take (length (front ++ (body ++ rest)) - length (body ++ rest) + length body)
          (front ++ (body ++ rest))
        ≡ front ++ body =
      rw (count, ← append_assoc front body rest) (cut_at (front ++ body) rest).0 in
    rw (enough, t, d, raw) refl

tlv_short :
    (tag : ℕ) (body rest : Bytes)
    → ltb (length body) 0x80 ≡ true
    → tlv (tag ∷ length body ∷ (body ++ rest))
      ≡ ok (record { tag = tag; body = body; raw = tag ∷ length body ∷ body }, rest)
unfolding tlv
tlv_short tag body rest h = rw h (tlv_with-body (tag ∷ length body ∷ []) body rest tag)

tlv_long :
    (tag l0 : ℕ) (digits body rest : Bytes)
    → ltb l0 0x80 ≡ false
    → bit_and l0 0x7f ≡ length digits
    → 1 ≤ length digits
    → length digits ≤ 4
    → length_of 0 digits ≡ length body
    → tlv (tag ∷ l0 ∷ (digits ++ (body ++ rest)))
      ≡ ok (record { tag = tag; body = body; raw = tag ∷ l0 ∷ (digits ++ body) }, rest)
unfolding tlv
tlv_long tag l0 digits body rest h n low high spelled =
    let (t, d) = cut_at digits (body ++ rest) in
    let counted : (length digits == 0 || ltb 4 (length digits)) ≡ false = ground arith in
    let enough : ltb (length (digits ++ (body ++ rest))) (length digits) ≡ false =
      ground (arith, length-append digits (body ++ rest)) in
    rw (h, n, counted, enough, t, d, spelled) (tlv_with-body (tag ∷ l0 ∷ digits) body rest tag)

pub tlv-encode :
    (tag : ℕ) (body rest : Bytes)
    → length body < 2 ^ 32
    → tlv (encode tag body ++ rest) ≡ ok (element_of (tag, body), rest)
unfolding encode
tlv-encode tag body rest l = elim (Bool-cases (ltb (length body) 0x80)) [
  | inl h ↦ rw h (tlv_short tag body rest h)
  | inr h ↦
      (let count = length_bytes (length body) in
        let c = length_bytes-IsCount (length body) l in
        let digits = be_bytes count (length body) in
        let same : length digits ≡ count = length-be_bytes count (length body) in
        let l0 : bit_and (0x80 + count) 0x7f ≡ length digits =
          bit_and-ones 7 (0x80 + count) ∙ omega (arith, c.four_at_most, same) in
        rw (h, append_assoc digits body rest)
          (tlv_long tag (0x80 + count) digits body rest (ground arith) l0
            (omega (arith, c.some_byte, same)) (omega (arith, c.four_at_most, same)) c.spelled))
]

encode-long : (tag : ℕ) (body : Bytes) → 1 ≤ length (encode tag body)
unfolding encode
encode-long tag body = omega arith

-- Each body can be written with a length of four bytes.
unfoldable pub AllShort : List (ℕ × Bytes) → Type 0
AllShort [] = Unit
AllShort ((tag, body) ∷ xs) = (length body < 2 ^ 32) × AllShort xs

visited_nil : (rounds : ℕ) → visited_elements rounds [] ≡ []
unfolding visited_elements tlv
visited_nil zero = refl
visited_nil (suc rounds) = refl

visited_elements-encode_all :
    (rounds : ℕ) (xs : List (ℕ × Bytes))
    → length (encode_all xs) ≤ rounds
    → AllShort xs
    → visited_elements rounds (encode_all xs) ≡ map element_of xs
unfolding encode_all AllShort visited_elements element_of
visited_elements-encode_all rounds [] l s = visited_nil rounds
visited_elements-encode_all zero ((tag, body) ∷ xs) l s =
    absurd (omega (arith, length-append (encode tag body) (encode_all xs), encode-long tag body))
visited_elements-encode_all (suc rounds) ((tag, body) ∷ xs) l s =
    let one = tlv-encode tag body (encode_all xs) s.0 in
    let later =
      visited_elements-encode_all rounds xs
        (omega (arith, length-append (encode tag body) (encode_all xs), encode-long tag body))
        s.1 in
    rw (visited_elements, one, later) refl

-- The loop over the elements of DER, written one behind the other with lengths of at most four bytes, visits
-- exactly these elements, each with its tag, its body and its own bytes.
pub elements-encode_all :
    (xs : List (ℕ × Bytes)) → AllShort xs → elements (encode_all xs) ≡ map element_of xs
unfolding elements
elements-encode_all xs s = visited_elements-encode_all (length (encode_all xs)) xs (omega arith) s
