-- ===== src/Common/Text/Laws.antt =====
-- Decimal output is read back, and texts of digits are left alone by trimming and splitting.
use native.Mathlib.Nat.{pow-suc}
use scanr.Common.{
  ◌^◌, length, length-append, ℕ, zero, suc, ◌+◌, ◌-◌, ◌*◌, ◌/◌, ◌%◌, ◌≤◌, ◌<◌, ◌≡◌, refl, ap, ◌∙◌,
  inl, inr, ◌≢◌, All-map, true, false, none, some, [], ◌∷◌, ◌++◌, arith, All, All-append, ltb, leb,
  ◌==◌, Bool-cases,
}
use scanr.Common.Text.{
  Text, is_ascii_digit, is_whitespace, trim_end, trim, split, split_once, all_digits, parse_digits,
  parse_uint, decimal_on, decimal,
}

abbrev pub IsDigits : Text → Type 0
IsDigits = All (λ c. is_ascii_digit c ≡ true)

decimal_on-IsDigits : (fuel n : ℕ) → IsDigits (decimal_on fuel n)
unfolding decimal_on is_ascii_digit
decimal_on-IsDigits zero n = tt
decimal_on-IsDigits (suc fuel) n = elim (Bool-cases (ltb n 10)) [
  | inl h ↦ rw h (ground arith, tt)
  | inr h ↦ rw h (
      All-append _ (decimal_on fuel (n / 10)) _ (decimal_on-IsDigits fuel (n / 10))
        (ground arith, tt))
]

-- the value of a text of digits behind the digits that are read
value_from : ℕ → Text → ℕ
value_from acc [] = acc
value_from acc (c ∷ s) = value_from (acc * 10 + (c - b'0')) s

value_from-le : (s : Text) (acc : ℕ) → acc ≤ value_from acc s
unfolding value_from
value_from-le [] acc = omega arith
value_from-le (c ∷ s) acc = omega (arith, value_from-le s (acc * 10 + (c - b'0')))

value_from-append :
    (s t : Text) (acc : ℕ) → value_from acc (s ++ t) ≡ value_from (value_from acc s) t
unfolding value_from
value_from-append [] t acc = refl
value_from-append (c ∷ s) t acc = value_from-append s t (acc * 10 + (c - b'0'))

parse_digits-value :
    (top : ℕ) (s : Text) (acc : ℕ)
    → IsDigits s
    → value_from acc s ≤ top
    → parse_digits top acc s ≡ some (value_from acc s)
unfolding value_from parse_digits
parse_digits-value top [] acc d h = refl
parse_digits-value top (c ∷ s) acc d h =
    let next : ℕ = acc * 10 + (c - b'0') in
    let small : leb next top ≡ true = ground (arith, value_from-le s next) in
    rw (d.0, small) (parse_digits-value top s next d.1 h)

decimal_on-value : (fuel n : ℕ) → n < fuel → value_from 0 (decimal_on fuel n) ≡ n
unfolding decimal_on value_from
decimal_on-value zero n h = absurd (omega arith)
decimal_on-value (suc fuel) n h = elim (Bool-cases (ltb n 10)) [
  | inl l ↦ rw l (omega arith)
  | inr l ↦
      rw (l, value_from-append (decimal_on fuel (n / 10)) ((b'0' + n % 10) ∷ []) 0)
        (rw (decimal_on-value fuel (n / 10) (ground arith)) (omega arith))
]

pub decimal-IsDigits : (n : ℕ) → IsDigits (decimal n)
unfolding decimal
decimal-IsDigits n = decimal_on-IsDigits (suc n) n

append-ne-nil : (s : Text) (c : ℕ) → s ++ c ∷ [] ≢ []
append-ne-nil [] c e = cc
append-ne-nil (d ∷ s) c e = cc

pub decimal-ne-nil : (n : ℕ) → decimal n ≢ []
unfolding decimal decimal_on
decimal-ne-nil n = elim (Bool-cases (ltb n 10)) [
  | inl h ↦ rw h (λ e. cc)
  | inr h ↦ rw h (append-ne-nil (decimal_on n (n / 10)) (b'0' + n % 10))
]

parse_uint-IsDigits :
    (top : ℕ) (s : Text) → IsDigits s → s ≢ [] → parse_uint top s ≡ parse_digits top 0 s
unfolding parse_uint
parse_uint-IsDigits top [] d ne = absurd (ne refl)
parse_uint-IsDigits top (c ∷ []) d ne = ground (arith, d.0)
parse_uint-IsDigits top (c ∷ e ∷ s) d ne =
    let plain : c == b'+' ≡ false = ground (arith, d.0) in rw plain

-- What `Display` writes of a number, `parse` reads back.
pub parse_uint-decimal : (top n : ℕ) → n ≤ top → parse_uint top (decimal n) ≡ some n
unfolding decimal
parse_uint-decimal top n h =
    let v = decimal_on-value (suc n) n (omega arith) in
    parse_uint-IsDigits top (decimal n) (decimal-IsDigits n) (decimal-ne-nil n)
    ∙ parse_digits-value top (decimal_on (suc n) n) 0 (decimal_on-IsDigits (suc n) n)
        (omega (arith, v))
    ∙ ap some v

abbrev pub Lacks : ℕ → Text → Type 0
Lacks sep = All (λ c. (c == sep) ≡ false)

abbrev pub IsSolid : Text → Type 0
IsSolid = All (λ c. is_whitespace c ≡ false)

digit_solid : (c : ℕ) → is_ascii_digit c ≡ true → is_whitespace c ≡ false
unfolding is_ascii_digit is_whitespace
digit_solid c h = ground arith

pub IsDigits-IsSolid : (s : Text) → IsDigits s → IsSolid s
IsDigits-IsSolid = All-map digit_solid

pub IsDigits-Lacks : (sep : ℕ) → is_ascii_digit sep ≡ false → (s : Text) → IsDigits s → Lacks sep s
unfolding is_ascii_digit
IsDigits-Lacks sep n = All-map (λ c h. ground (arith, h, n))

trim_end-IsSolid : (s : Text) → IsSolid s → trim_end s ≡ s
unfolding trim_end
trim_end-IsSolid [] h = refl
trim_end-IsSolid (c ∷ s) h = rw (trim_end-IsSolid s h.1) (ground (arith, h.0))

-- A text with no white space is left as it is.
pub trim-IsSolid : (s : Text) → IsSolid s → trim s ≡ s
unfolding trim
trim-IsSolid [] h = refl
trim-IsSolid (c ∷ s) h = rw h.0 (trim_end-IsSolid (c ∷ s) h)

pub split-Lacks : (sep : ℕ) (s : Text) → Lacks sep s → split sep s ≡ s ∷ []
unfolding split
split-Lacks sep [] h = refl
split-Lacks sep (c ∷ s) h = rw (h.0, split-Lacks sep s h.1)

pub split-append : (sep : ℕ) (s t : Text) → Lacks sep s → split sep (s ++ sep ∷ t) ≡ s ∷ split sep t
unfolding split
split-append sep [] t h = let e : sep == sep ≡ true = ground arith in rw e
split-append sep (c ∷ s) t h = rw (h.0, split-append sep s t h.1)

pub split_once-Lacks : (sep : ℕ) (s : Text) → Lacks sep s → split_once sep s ≡ none
unfolding split_once
split_once-Lacks sep [] h = refl
split_once-Lacks sep (c ∷ s) h = rw (h.0, split_once-Lacks sep s h.1)

pub split_once-append :
    (sep : ℕ) (s t : Text) → Lacks sep s → split_once sep (s ++ sep ∷ t) ≡ some (s, t)
unfolding split_once
split_once-append sep [] t h = let e : sep == sep ≡ true = ground arith in rw e
split_once-append sep (c ∷ s) t h = rw (h.0, split_once-append sep s t h.1)

pub IsDigits-all_digits : (s : Text) → IsDigits s → all_digits s ≡ true
unfolding all_digits
IsDigits-all_digits [] h = refl
IsDigits-all_digits (c ∷ s) h = rw (h.0, IsDigits-all_digits s h.1)

length-decimal_on : (fuel k n : ℕ) → n < 10 ^ suc k → length (decimal_on fuel n) ≤ suc k
unfolding decimal_on
length-decimal_on zero k n l = omega arith
length-decimal_on (suc fuel) zero n l =
    let small : ltb n 10 ≡ true = ground (arith, l) in rw small (omega arith)
length-decimal_on (suc fuel) (suc k) n l = elim (Bool-cases (ltb n 10)) [
  | inl h ↦ rw h (omega arith)
  | inr h ↦ rw h (
      omega (
        arith,
        length-append (decimal_on fuel (n / 10)) ((b'0' + n % 10) ∷ []),
        length-decimal_on fuel k (n / 10) (omega (arith, pow-suc 10 (suc k))),
      ))
]

-- A number below a power of ten has no more digits than its exponent.
pub length-decimal : (k n : ℕ) → n < 10 ^ suc k → length (decimal n) ≤ suc k
unfolding decimal
length-decimal k n l = length-decimal_on (suc n) k n l
