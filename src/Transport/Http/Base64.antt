-- ===== src/Transport/Http/Base64.antt =====
-- `base64` and `unbase64` of src/transport/http.rs.
pub mod RoundTrip
use scanr.Common.{
  Option, none, some, ℕ, ◌+◌, ◌-◌, ◌*◌, ◌/◌, ◌%◌, ◌^◌, List, [], ◌∷◌, leb, ◌==◌, if◌then◌else◌,
}
use scanr.Common.Bits.{bit_or, bit_and}
use scanr.Common.Text.{Text, between}

-- the table `T`
unfoldable pub symbol : ℕ → ℕ
symbol n =
    if leb n 25
    then b'A' + n
    else if leb n 51
    then b'a' + (n - 26)
    else if leb n 61
    then b'0' + (n - 52)
    else if n == 62
    then b'+'
    else b'/'

-- three bytes as the number `n`, in four digits of base 64
abbrev pub word : ℕ → ℕ → ℕ → ℕ
word a b c = bit_or (bit_or (a * 2 ^ 16) (b * 2 ^ 8)) c

abbrev pub digit : ℕ → ℕ → ℕ
digit n k = symbol (n / 2 ^ k % 64)

unfoldable pub base64 : List ℕ → Text
unfolding symbol
base64 [] = []
base64 (a ∷ []) = let n = word a 0 0 in digit n 18 ∷ digit n 12 ∷ b'=' ∷ b'=' ∷ []
base64 (a ∷ b ∷ []) = let n = word a b 0 in digit n 18 ∷ digit n 12 ∷ digit n 6 ∷ b'=' ∷ []
base64 (a ∷ b ∷ c ∷ rest) =
    let n = word a b c in digit n 18 ∷ digit n 12 ∷ digit n 6 ∷ digit n 0 ∷ base64 rest

-- What a byte stands for: a digit of base 64, the padding that ends the input, or nothing.
pub data Symbol : Type 0 where
  value : ℕ → Symbol
  padding outside : Symbol

unfoldable pub symbol_of : ℕ → Symbol
symbol_of c =
    if between b'A' b'Z' c
    then value (c - b'A')
    else if between b'a' b'z' c
    then value (c - b'a' + 26)
    else if between b'0' b'9' c
    then value (c - b'0' + 52)
    else if c == b'+'
    then value 62
    else if c == b'/'
    then value 63
    else if c == b'='
    then padding
    else outside

abbrev pub pushed : ℕ → Option (List ℕ) → Option (List ℕ)
pushed b none = none
pushed b (some bs) = some (b ∷ bs)

-- One round of the loop: `bits` bits are left over in `acc`, and `rest` is the loop from there on. A
-- byte that is pushed stands in front of the bytes to come.
unfoldable pub unbase64_step : Symbol → ℕ → ℕ → (ℕ → ℕ → Option (List ℕ)) → Option (List ℕ)
unbase64_step padding acc bits rest = some []
unbase64_step outside acc bits rest = none
unbase64_step (value v) acc bits rest =
    let acc' = bit_or (acc * 2 ^ 6 % 2 ^ 32) v in
    if leb 8 (bits + 6)
    then pushed (acc' / 2 ^ (bits + 6 - 8) % 256)
        (rest (bit_and acc' (2 ^ (bits + 6 - 8) - 1)) (bits + 6 - 8))
    else rest acc' (bits + 6)

unfoldable pub unbase64_from : Text → ℕ → ℕ → Option (List ℕ)
unfolding symbol_of unbase64_step
unbase64_from [] acc bits = some []
unbase64_from (c ∷ s) acc bits = unbase64_step (symbol_of c) acc bits (unbase64_from s)

-- `input` is read as bytes; a character that is not ASCII is outside the alphabet as its bytes are
unfoldable pub unbase64 : Text → Option (List ℕ)
unfolding unbase64_from
unbase64 input = unbase64_from input 0 0
