-- ===== src/Transport/Http/Base64/RoundTrip.antt =====
-- Decoding what `base64` of src/transport/http.rs encodes.
use scanr.Common.{
  ℕ, ◌+◌, ◌-◌, ◌*◌, ◌/◌, ◌%◌, ◌^◌, ◌≤◌, ◌<◌, ◌≡◌, refl, ap, ◌∙◌, true, Option, some, List, [], ◌∷◌,
  All, leb, arith,
}
use scanr.Common.Bits.{bit_or, bit_or-low, bit_and-ones}
use scanr.Common.Text.{Text}
use scanr.Transport.Http.Base64.{
  symbol, word, digit, base64, value, symbol_of, pushed, unbase64_step, unbase64_from, unbase64,
}

symbol_of-symbol : (d : ℕ) → d < 64 → symbol_of (symbol d) ≡ value d
unfolding symbol_of symbol
symbol_of-symbol d h = ground arith

word_value : (a b c : ℕ) → b < 256 → c < 256 → word a b c ≡ a * 65536 + b * 256 + c
word_value a b c hb hc =
    let x : bit_or (a * 2 ^ 16) (b * 2 ^ 8) ≡ a * 2 ^ 16 + b * 2 ^ 8 =
      bit_or-low 16 a (b * 2 ^ 8) (omega arith) in
    let y : bit_or ((a * 2 ^ 8 + b) * 2 ^ 8) c ≡ (a * 2 ^ 8 + b) * 2 ^ 8 + c =
      bit_or-low 8 (a * 2 ^ 8 + b) c (omega arith) in
    let z : a * 2 ^ 16 + b * 2 ^ 8 ≡ (a * 2 ^ 8 + b) * 2 ^ 8 = omega arith in
    rw (x, z) (y ∙ omega arith)

-- A digit goes behind the bits that are left over.
grown : (acc d : ℕ) → acc < 2 ^ 6 → d < 64 → bit_or (acc * 2 ^ 6 % 2 ^ 32) d ≡ acc * 64 + d
grown acc d ha hd =
    let e : acc * 2 ^ 6 % 2 ^ 32 ≡ acc * 2 ^ 6 = omega arith in
    rw e (bit_or-low 6 acc d (omega arith))

first_digit : (d : ℕ) (s : Text) → d < 64 → unbase64_from (symbol d ∷ s) 0 0 ≡ unbase64_from s d 6
unfolding unbase64_from unbase64_step
first_digit d s h =
    let e : 0 * 64 + d ≡ d = omega arith in
    rw (symbol_of-symbol d h, grown 0 d (omega arith) h, e) refl

-- A digit on `left + 2` bits completes a byte, and leaves `left` bits.
next_digit :
    (left acc d : ℕ) (s : Text)
    → left ≤ 4
    → acc < 2 ^ 6
    → d < 64
    → unbase64_from (symbol d ∷ s) acc (left + 2)
      ≡ pushed ((acc * 64 + d) / 2 ^ left % 256) (unbase64_from s ((acc * 64 + d) % 2 ^ left) left)
unfolding unbase64_from unbase64_step
next_digit left acc d s l ha hd =
    let full : leb 8 (left + 2 + 6) ≡ true = ground arith in
    let room : left + 2 + 6 - 8 ≡ left = omega arith in
    rw (symbol_of-symbol d hd, grown acc d ha hd, full, room, bit_and-ones left (acc * 64 + d)) refl

ended : (acc bits : ℕ) (s : Text) → unbase64_from (b'=' ∷ s) acc bits ≡ some []
unfolding unbase64_from unbase64_step symbol_of
ended acc bits s = refl

-- A number below 64 at each place of a word.
place : (n k : ℕ) → n / 2 ^ k % 64 < 64
place n k = omega arith

-- Two, three and four digits, with what they complete and what they leave.
two_digits :
    (d e : ℕ) (s : Text)
    → d < 64
    → e < 64
    → unbase64_from (symbol d ∷ symbol e ∷ s) 0 0
      ≡ pushed ((d * 64 + e) / 2 ^ 4 % 256) (unbase64_from s ((d * 64 + e) % 2 ^ 4) 4)
two_digits d e s hd he =
    first_digit d (symbol e ∷ s) hd ∙ next_digit 4 d e s (omega arith) (omega arith) he

three_digits :
    (d e f : ℕ) (s : Text)
    → d < 64
    → e < 64
    → f < 64
    → unbase64_from (symbol d ∷ symbol e ∷ symbol f ∷ s) 0 0
      ≡ pushed ((d * 64 + e) / 2 ^ 4 % 256) (
          pushed
            (((d * 64 + e) % 2 ^ 4 * 64 + f) / 2 ^ 2 % 256)
            (unbase64_from s (((d * 64 + e) % 2 ^ 4 * 64 + f) % 2 ^ 2) 2))
three_digits d e f s hd he hf =
    two_digits d e (symbol f ∷ s) hd he
    ∙ ap (pushed ((d * 64 + e) / 2 ^ 4 % 256))
        (next_digit 2 ((d * 64 + e) % 2 ^ 4) f s (omega arith) (omega arith) hf)

four_digits :
    (d e f g : ℕ) (s : Text)
    → d < 64
    → e < 64
    → f < 64
    → g < 64
    → unbase64_from (symbol d ∷ symbol e ∷ symbol f ∷ symbol g ∷ s) 0 0
      ≡ pushed ((d * 64 + e) / 2 ^ 4 % 256) (
          pushed (((d * 64 + e) % 2 ^ 4 * 64 + f) / 2 ^ 2 % 256) (
            pushed
              ((((d * 64 + e) % 2 ^ 4 * 64 + f) % 2 ^ 2 * 64 + g) / 2 ^ 0 % 256)
              (unbase64_from s ((((d * 64 + e) % 2 ^ 4 * 64 + f) % 2 ^ 2 * 64 + g) % 2 ^ 0) 0)))
four_digits d e f g s hd he hf hg =
    three_digits d e f (symbol g ∷ s) hd he hf
    ∙ ap
        (λ (r : Option (List ℕ)).
          pushed ((d * 64 + e) / 2 ^ 4 % 256)
            (pushed (((d * 64 + e) % 2 ^ 4 * 64 + f) / 2 ^ 2 % 256) r))
        (next_digit 0 (((d * 64 + e) % 2 ^ 4 * 64 + f) % 2 ^ 2) g s (omega arith) (omega arith) hg)

-- What the digits of a word complete are its bytes.
high_byte :
    (n a r : ℕ)
    → a < 256
    → r < 65536
    → n ≡ a * 65536 + r
    → (n / 2 ^ 18 % 64 * 64 + n / 2 ^ 12 % 64) / 2 ^ 4 % 256 ≡ a
high_byte n a r ha hr e = omega arith

middle_byte :
    (n a b c : ℕ)
    → b < 256
    → c < 256
    → n ≡ a * 65536 + b * 256 + c
    → ((n / 2 ^ 18 % 64 * 64 + n / 2 ^ 12 % 64) % 2 ^ 4 * 64 + n / 2 ^ 6 % 64) / 2 ^ 2 % 256 ≡ b
middle_byte n a b c hb hc e = omega arith

low_byte :
    (n a b c : ℕ)
    → b < 256
    → c < 256
    → n ≡ a * 65536 + b * 256 + c
    → (((n / 2 ^ 18 % 64 * 64 + n / 2 ^ 12 % 64) % 2 ^ 4 * 64 + n / 2 ^ 6 % 64) % 2 ^ 2 * 64
          + n / 2 ^ 0 % 64)
        / 2 ^ 0
        % 256
      ≡ c
low_byte n a b c hb hc e = omega arith

none_left : (m : ℕ) → m % 2 ^ 0 ≡ 0
none_left m = omega arith

module _ (n : ℕ) where
  one_byte :
      (a : ℕ) (s : Text)
      → a < 256
      → n ≡ a * 65536 + 0 * 256 + 0
      → unbase64_from (digit n 18 ∷ digit n 12 ∷ b'=' ∷ s) 0 0 ≡ some (a ∷ [])
  one_byte a s ha e =
      two_digits (n / 2 ^ 18 % 64) (n / 2 ^ 12 % 64) (b'=' ∷ s) (place n 18) (place n 12)
      ∙ rw
          (
            high_byte n a 0 ha (omega arith) (omega (arith, e)),
            ended ((n / 2 ^ 18 % 64 * 64 + n / 2 ^ 12 % 64) % 2 ^ 4) 4 s,
          )
          refl

  two_bytes :
      (a b : ℕ) (s : Text)
      → a < 256
      → b < 256
      → n ≡ a * 65536 + b * 256 + 0
      → unbase64_from (digit n 18 ∷ digit n 12 ∷ digit n 6 ∷ b'=' ∷ s) 0 0 ≡ some (a ∷ b ∷ [])
  two_bytes a b s ha hb e =
      three_digits (n / 2 ^ 18 % 64) (n / 2 ^ 12 % 64) (n / 2 ^ 6 % 64) (b'=' ∷ s) (place n 18)
        (place n 12) (place n 6)
      ∙ rw
          (
            high_byte n a (b * 256) ha (omega arith) (omega (arith, e)),
            middle_byte n a b 0 hb (omega arith) e,
            ended (((n / 2 ^ 18 % 64 * 64 + n / 2 ^ 12 % 64) % 2 ^ 4 * 64 + n / 2 ^ 6 % 64) % 2 ^ 2)
                2 s,
          )
          refl

  three_bytes :
      (a b c : ℕ) (s : Text)
      → a < 256
      → b < 256
      → c < 256
      → n ≡ a * 65536 + b * 256 + c
      → unbase64_from (digit n 18 ∷ digit n 12 ∷ digit n 6 ∷ digit n 0 ∷ s) 0 0
        ≡ pushed a (pushed b (pushed c (unbase64_from s 0 0)))
  three_bytes a b c s ha hb hc e =
      four_digits (n / 2 ^ 18 % 64) (n / 2 ^ 12 % 64) (n / 2 ^ 6 % 64) (n / 2 ^ 0 % 64) s
        (place n 18) (place n 12) (place n 6) (place n 0)
      ∙ rw
          (
            high_byte n a (b * 256 + c) ha (omega arith) (omega (arith, e)),
            middle_byte n a b c hb hc e,
            low_byte n a b c hb hc e,
            none_left (
                ((n / 2 ^ 18 % 64 * 64 + n / 2 ^ 12 % 64) % 2 ^ 4 * 64 + n / 2 ^ 6 % 64)
                  % 2 ^ 2
                  * 64
                + n / 2 ^ 0 % 64),
          )
          refl

-- Whatever bytes base 64 encodes, with one, two or three of them in its last group, are read back.
pub unbase64-base64 :
    (bytes : List ℕ) → All (λ (b : ℕ). b < 256) bytes → unbase64 (base64 bytes) ≡ some bytes
unfolding unbase64 base64 unbase64_from
unbase64-base64 [] h = refl
unbase64-base64 (a ∷ []) (ha, h) =
    one_byte (word a 0 0) a (b'=' ∷ []) ha (word_value a 0 0 (omega arith) (omega arith))
unbase64-base64 (a ∷ b ∷ []) (ha, (hb, h)) =
    two_bytes (word a b 0) a b [] ha hb (word_value a b 0 hb (omega arith))
unbase64-base64 (a ∷ b ∷ c ∷ rest) (ha, (hb, (hc, h))) =
    three_bytes (word a b c) a b c (base64 rest) ha hb hc (word_value a b c hb hc)
    ∙ ap (λ (r : Option (List ℕ)). pushed a (pushed b (pushed c r))) (unbase64-base64 rest h)
