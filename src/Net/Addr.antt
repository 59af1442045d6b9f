-- ===== src/Net/Addr.antt =====
-- `std::net` addresses as src uses them: an IPv4 address is a number below 2 ^ 32, an IPv6 address
-- one below 2 ^ 128; and their bytes, the highest first.
use scanr.Common.{
  ℕ, zero, suc, ◌+◌, ◌*◌, ◌/◌, ◌%◌, ◌^◌, ◌<◌, ◌≡◌, refl, ap, sym, ◌∙◌, Bool, true, false, List, [],
  ◌∷◌, length, arith,
}
use scanr.Common.Bits.{div-mod_unique}
use native.Mathlib.Nat.{add-mul, mul_assoc, pow-suc, one-le-pow, div-add-mod', mod-lt}

pub data IpAddr : Type 0 where
  v4 : ℕ → IpAddr
  v6 : ℕ → IpAddr

pub record SocketAddr : Type 0 where
  pub ip : IpAddr
  pub port : ℕ

-- the `count` low bytes of a number, the highest first: `to_be_bytes`, `octets`
unfoldable pub be_bytes : ℕ → ℕ → List ℕ
be_bytes zero n = []
be_bytes (suc count) n = n / 256 ^ count % 256 ∷ be_bytes count n

pub length-be_bytes : (count n : ℕ) → length (be_bytes count n) ≡ count
unfolding be_bytes
length-be_bytes zero n = refl
length-be_bytes (suc count) n = ap suc (length-be_bytes count n)

-- the number that bytes spell, the highest first
unfoldable pub of_be : List ℕ → ℕ
of_be [] = 0
of_be (b ∷ bs) = b * 256 ^ length bs + of_be bs

high_byte : (u p m : ℕ) → u < 256 → m < p → u * p + m < 256 * p
high_byte u p m hu hm = grind arith

split_byte : (x p m : ℕ) → x * p + m ≡ x / 256 * (256 * p) + (x % 256 * p + m)
split_byte x p m =
    let cut : x * p ≡ x / 256 * (256 * p) + x % 256 * p =
      ap (λ (t : ℕ). t * p) (sym (div-add-mod' x 256))
      ∙ (add-mul (x / 256 * 256) (x % 256) p
          ∙ ap (λ (t : ℕ). t + x % 256 * p) (mul_assoc (x / 256) 256 p)) in
    omega (arith, cut)

-- The byte at a place, and the bytes below it.
byte_at :
    (count n : ℕ) → n % 256 ^ suc count ≡ n / 256 ^ count % 256 * 256 ^ count + n % 256 ^ count
byte_at count n =
    let below : n % 256 ^ count < 256 ^ count = mod-lt n (one-le-pow count 256 (omega arith)) in
    (div-mod_unique n (n / 256 ^ count / 256) (256 ^ suc count)
      (n / 256 ^ count % 256 * 256 ^ count + n % 256 ^ count)
      (rw (pow-suc 256 count) (
        omega (
          arith,
          div-add-mod' n (256 ^ count),
          split_byte (n / 256 ^ count) (256 ^ count) (n % 256 ^ count),
        )))
      (omega (
        arith,
        pow-suc 256 count,
        high_byte (n / 256 ^ count % 256) (256 ^ count) (n % 256 ^ count) (omega arith) below,
      ))).1

pub of_be-be_bytes : (count n : ℕ) → of_be (be_bytes count n) ≡ n % 256 ^ count
unfolding of_be be_bytes
of_be-be_bytes zero n = omega arith
of_be-be_bytes (suc count) n =
    rw (length-be_bytes count n, of_be-be_bytes count n, byte_at count n) refl

abbrev pub octets : IpAddr → List ℕ
octets (v4 n) = be_bytes 4 n
octets (v6 n) = be_bytes 16 n

abbrev pub is_ipv4 : IpAddr → Bool
is_ipv4 (v4 n) = true
is_ipv4 (v6 n) = false

-- An address in the bounds of its bits.
abbrev pub IsAddress : IpAddr → Type 0
IsAddress (v4 n) = n < 2 ^ 32
IsAddress (v6 n) = n < 2 ^ 128
