-- ===== src/Common/Bits/Digit.antt =====
-- One binary digit of a number: what `x & (1 << k)` reads and `x | (1 << k)` sets.
use Prim.Native.Nat.{ℕ, zero, suc, ◌+◌, ◌*◌, ◌/◌, ◌%◌, ◌^◌, max}
use mathlib.Core.Path.{◌≡◌, refl, ap}
use native.Mathlib.Nat.{pow-suc, le_refl}
use native.Mathlib.Omega.{arith}
use scanr.Common.Tests.{◌==◌, if◌then◌else◌}
use scanr.Common.Bits.{
  bit_and, bit_or, bit_and_step, bit_or_step, half-div, bit_and-zero, bit_or-zero,
}

-- the digit of `x` that `2 ^ k` stands for
abbrev pub bit_of : ℕ → ℕ → ℕ
bit_of x k = x / 2 ^ k % 2

pub bit_and-bit_of : (k x : ℕ) → bit_and x (2 ^ k) ≡ bit_of x k * 2 ^ k
bit_and-bit_of zero x =
    let e : bit_and (x / 2) (1 / 2) ≡ 0 = bit_and-zero (x / 2) (x / 2) (le_refl (x / 2)) in
    omega (arith, bit_and_step x 1, e)
bit_and-bit_of (suc k) x =
    let half : 2 ^ suc k / 2 ≡ 2 ^ k = omega (arith, pow-suc 2 k) in
    let even : 2 ^ suc k % 2 ≡ 0 = omega (arith, pow-suc 2 k) in
    let twice = ap (λ (p : ℕ). bit_of (x / 2) k * p) (pow-suc 2 k) in
    rw (bit_and_step x (2 ^ suc k), half, even, (half-div k x).0, bit_and-bit_of k (x / 2))
      (omega (arith, twice))

-- Half of an `or` with a power of 2 that is even.
or_half :
    (k x : ℕ)
    → (bit_or x (2 ^ suc k) / 2 ≡ bit_or (x / 2) (2 ^ k)) × (bit_or x (2 ^ suc k) % 2 ≡ x % 2)
or_half k x =
    let half : 2 ^ suc k / 2 ≡ 2 ^ k = omega (arith, pow-suc 2 k) in
    let even : 2 ^ suc k % 2 ≡ 0 = omega (arith, pow-suc 2 k) in
    let step : bit_or x (2 ^ suc k) ≡ bit_or (x / 2) (2 ^ k) * 2 + max (x % 2) 0 =
      rw (bit_or_step x (2 ^ suc k), half, even) refl in
    (omega (arith, step), omega (arith, step))

or_one : (x : ℕ) → (bit_or x 1 / 2 ≡ x / 2) × (bit_or x 1 % 2 ≡ 1)
or_one x =
    let e : bit_or (x / 2) (1 / 2) ≡ x / 2 = bit_or-zero (x / 2) (x / 2) (le_refl (x / 2)) in
    (omega (arith, bit_or_step x 1, e), omega (arith, bit_or_step x 1, e))

-- Setting one digit leaves the others alone.
pub bit_or-bit_of : (k j x : ℕ) → bit_of (bit_or x (2 ^ k)) j ≡ (if k == j then 1 else bit_of x j)
bit_or-bit_of zero zero x = omega (arith, (or_one x).1)
bit_or-bit_of (suc k) zero x = let (half, low) = or_half k x in ground (arith, low)
bit_or-bit_of zero (suc j) x =
    let (half, low) = or_one x in
    rw ((half-div j (bit_or x 1)).0, half, (half-div j x).0) (ground arith)
bit_or-bit_of (suc k) (suc j) x =
    let (half, low) = or_half k x in
    let e : (suc k == suc j) ≡ (k == j) = ground arith in
    rw (e, (half-div j (bit_or x (2 ^ suc k))).0, half, bit_or-bit_of k j (x / 2), (half-div j x).0)
      refl
