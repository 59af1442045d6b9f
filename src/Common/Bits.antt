-- ===== src/Common/Bits.antt =====
-- Laws of `&`, `|` and `^` on the native numbers at every width. Each operation is read one
-- binary digit at a time, and the laws go by induction on the width.
pub mod Digit
use Prim.Native.Nat.{ℕ, zero, suc, ◌+◌, ◌-◌, ◌*◌, ◌/◌, ◌%◌, ◌^◌, ◌≤◌, ◌<◌, min, max}
use Prim.Native.Nat.{digits, bitwise, differ, bit_and-bitwise, bit_or-bitwise, bit_xor-bitwise}
use mathlib.Core.Path.{◌≡◌, refl, ap}
use native.Mathlib.Nat.{pow-suc, one-le-pow, le_refl, div-add-mod', mod-lt, mod-eq_of_lt}
use native.Mathlib.Omega.{arith}
pub use Prim.Native.Nat.{bit_and, bit_or, bit_xor}

-- The count of digits does not matter once it covers the first number.
module _ (rest : ℕ → ℕ) (digit : ℕ → ℕ → ℕ) where
  digits_any : (u v x y : ℕ) → x ≤ u → x ≤ v → digits rest digit u x y ≡ digits rest digit v x y
  digits_any zero zero zero y hu hv = refl
  digits_any zero (suc v) zero y hu hv = refl
  digits_any (suc u) zero zero y hu hv = refl
  digits_any (suc u) (suc v) zero y hu hv = refl
  digits_any zero v (suc x) y hu hv = absurd (omega arith)
  digits_any (suc u) zero (suc x) y hu hv = absurd (omega arith)
  digits_any (suc u) (suc v) (suc x) y hu hv =
      omega (arith, digits_any u v (suc x / 2) (y / 2) (omega arith) (omega arith))

  lowest_digit :
      (x y : ℕ)
      → bitwise rest digit (suc x) y
        ≡ bitwise rest digit (suc x / 2) (y / 2) * 2 + digit (suc x % 2) (y % 2)
  lowest_digit x y =
      omega (arith, digits_any x (suc x / 2) (suc x / 2) (y / 2) (omega arith) (le_refl _))

pub bit_or_step : (x y : ℕ) → bit_or x y ≡ bit_or (x / 2) (y / 2) * 2 + max (x % 2) (y % 2)
bit_or_step zero y = simp bit_or-bitwise (omega arith)
bit_or_step (suc x) y = simp bit_or-bitwise (lowest_digit (λ z. z) max x y)

pub bit_and_step : (x y : ℕ) → bit_and x y ≡ bit_and (x / 2) (y / 2) * 2 + min (x % 2) (y % 2)
bit_and_step zero y = simp bit_and-bitwise (omega arith)
bit_and_step (suc x) y = simp bit_and-bitwise (lowest_digit (λ z. 0) min x y)

differ-zero : (y : ℕ) → differ 0 y ≡ y
differ-zero y = refl

bit_xor_step : (a b : ℕ) → bit_xor a b ≡ bit_xor (a / 2) (b / 2) * 2 + differ (a % 2) (b % 2)
bit_xor_step zero b = simp bit_xor-bitwise (omega (arith, differ-zero (b % 2)))
bit_xor_step (suc a) b = simp bit_xor-bitwise (lowest_digit (λ y. y) differ a b)

-- On two binary digits `differ` is below 2, and undoes itself.
differ_digits : (x y : ℕ) → x < 2 → y < 2 → (differ x y < 2) × (differ (differ x y) y ≡ x)
differ_digits zero zero p q = (omega arith, refl)
differ_digits zero (suc zero) p q = (omega arith, refl)
differ_digits zero (suc (suc y)) p q = absurd (omega arith)
differ_digits (suc zero) zero p q = (omega arith, refl)
differ_digits (suc zero) (suc zero) p q = (omega arith, refl)
differ_digits (suc zero) (suc (suc y)) p q = absurd (omega arith)
differ_digits (suc (suc x)) y p q = absurd (omega arith)

-- A product by `2 ^ suc k` is even.
mul-two-pow-suc : (x w : ℕ) → x * 2 ^ suc w ≡ 2 * (x * 2 ^ w)
mul-two-pow-suc x w = let twice = ap (λ (p : ℕ). x * p) (pow-suc 2 w) in omega (arith, twice)

-- `^` of two numbers of k bits has k bits.
pub bit_xor-lt : (k a b : ℕ) → a < 2 ^ k → b < 2 ^ k → bit_xor a b < 2 ^ k
bit_xor-lt zero zero zero p q = omega arith
bit_xor-lt zero zero (suc b) p q = absurd (omega arith)
bit_xor-lt zero (suc a) b p q = absurd (omega arith)
bit_xor-lt (suc k) a b p q = omega (
  arith,
  pow-suc 2 k,
  bit_xor_step a b,
  (differ_digits (a % 2) (b % 2) (omega arith) (omega arith)).0,
  bit_xor-lt k (a / 2) (b / 2) (omega (arith, pow-suc 2 k)) (omega (arith, pow-suc 2 k)),
)

-- Half of an exclusive or, and its lowest digit.
bit_xor-half :
    (a b : ℕ)
    → (bit_xor a b / 2 ≡ bit_xor (a / 2) (b / 2)) × (bit_xor a b % 2 ≡ differ (a % 2) (b % 2))
bit_xor-half a b =
    let d = differ_digits (a % 2) (b % 2) (omega arith) (omega arith) in
    (omega (arith, bit_xor_step a b, d.0), omega (arith, bit_xor_step a b, d.0))

-- `^` by the same number twice gives the first number back.
pub bit_xor-bit_xor : (k a b : ℕ) → a < 2 ^ k → b < 2 ^ k → bit_xor (bit_xor a b) b ≡ a
bit_xor-bit_xor zero zero zero p q = refl
bit_xor-bit_xor zero zero (suc b) p q = absurd (omega arith)
bit_xor-bit_xor zero (suc a) b p q = absurd (omega arith)
bit_xor-bit_xor (suc k) a b p q =
    let ih =
      bit_xor-bit_xor k (a / 2) (b / 2) (omega (arith, pow-suc 2 k)) (omega (arith, pow-suc 2 k)) in
    let d = differ_digits (a % 2) (b % 2) (omega arith) (omega arith) in
    rw (bit_xor_step (bit_xor a b) b, (bit_xor-half a b).0, (bit_xor-half a b).1, ih, d.1)
      (omega arith)

pub bit_or-zero : (top x : ℕ) → x ≤ top → bit_or x 0 ≡ x
bit_or-zero zero zero h = refl
bit_or-zero zero (suc x) h = absurd (omega arith)
bit_or-zero (suc top) zero h = refl
bit_or-zero (suc top) (suc x) h =
    omega (arith, bit_or-zero top (suc x / 2) (omega arith), bit_or_step (suc x) 0)

pub bit_and-zero : (top x : ℕ) → x ≤ top → bit_and x 0 ≡ 0
bit_and-zero zero zero h = refl
bit_and-zero zero (suc x) h = absurd (omega arith)
bit_and-zero (suc top) zero h = refl
bit_and-zero (suc top) (suc x) h =
    omega (arith, bit_and-zero top (suc x / 2) (omega arith), bit_and_step (suc x) 0)

-- `|` of a number of k bits into the free low bits is a sum.
pub bit_or-low : (k q r : ℕ) → r < 2 ^ k → bit_or (q * 2 ^ k) r ≡ q * 2 ^ k + r
bit_or-low zero q zero h =
    let e : q * 2 ^ 0 ≡ q = omega arith in rw e (omega (arith, bit_or-zero q q (le_refl q)))
bit_or-low zero q (suc r) h = absurd (omega arith)
bit_or-low (suc k) q r h =
    let e : q * 2 ^ suc k / 2 ≡ q * 2 ^ k = omega (arith, mul-two-pow-suc q k) in
    rw (bit_or_step (q * 2 ^ suc k) r, e)
      (omega (arith, bit_or-low k q (r / 2) (omega (arith, pow-suc 2 k)), mul-two-pow-suc q k))

-- Division with remainder is unique.
pub div-mod_unique : (a q d r : ℕ) → a ≡ q * d + r → r < d → (a / d ≡ q) × (a % d ≡ r)
div-mod_unique a q d r e h = (grind arith, grind arith)

-- Dividing by 2 first, and then by `2 ^ k`.
pub half-div :
    (k a : ℕ) → (a / 2 ^ suc k ≡ a / 2 / 2 ^ k) × (a % 2 ^ suc k ≡ a / 2 % 2 ^ k * 2 + a % 2)
half-div k a =
    div-mod_unique a (a / 2 / 2 ^ k) (2 ^ suc k) (a / 2 % 2 ^ k * 2 + a % 2)
      (omega (arith, mul-two-pow-suc (a / 2 / 2 ^ k) k, div-add-mod' (a / 2) (2 ^ k)))
      (omega (arith, pow-suc 2 k, mod-lt (a / 2) (one-le-pow k 2 (omega arith))))

-- `&` with k low ones is the remainder by `2 ^ k`.
pub bit_and-ones : (k a : ℕ) → bit_and a (2 ^ k - 1) ≡ a % 2 ^ k
bit_and-ones zero a = omega (arith, bit_and-zero a a (le_refl a))
bit_and-ones (suc k) a =
    let e : (2 ^ suc k - 1) / 2 ≡ 2 ^ k - 1 =
      omega (arith, pow-suc 2 k, one-le-pow k 2 (omega arith)) in
    rw (bit_and_step a (2 ^ suc k - 1), e, bit_and-ones k (a / 2), (half-div k a).1)
      (omega (arith, pow-suc 2 k, one-le-pow k 2 (omega arith)))

-- `&` with k ones above h zeros drops the low h bits of a number of k + h bits.
pub bit_and-high :
    (h k a : ℕ) → a < 2 ^ k * 2 ^ h → bit_and a ((2 ^ k - 1) * 2 ^ h) ≡ a / 2 ^ h * 2 ^ h
bit_and-high zero k a lt =
    let e : (2 ^ k - 1) * 2 ^ 0 ≡ 2 ^ k - 1 = omega arith in
    rw (e, bit_and-ones k a) (omega (arith, (let l : a < 2 ^ k = omega arith in mod-eq_of_lt l)))
bit_and-high (suc h) k a lt =
    let e : (2 ^ k - 1) * 2 ^ suc h / 2 ≡ (2 ^ k - 1) * 2 ^ h =
      omega (arith, mul-two-pow-suc (2 ^ k - 1) h) in
    rw
      (
        bit_and_step a ((2 ^ k - 1) * 2 ^ suc h),
        e,
        bit_and-high h k (a / 2) (omega (arith, mul-two-pow-suc (2 ^ k) h)),
        (half-div h a).0,
      )
      (omega (arith, mul-two-pow-suc (2 ^ k - 1) h, mul-two-pow-suc (a / 2 / 2 ^ h) h))
