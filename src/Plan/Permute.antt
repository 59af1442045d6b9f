-- ===== src/Plan/Permute.antt =====
-- src/plan/permute.rs: the seeded permutation of probe indices. A `u64` is a number below 2 ^ 64,
-- with the wrapping of `wrapping_add`, `wrapping_mul` and `<<` written out.
pub mod Cycle
pub mod Walk
pub mod Feistel
pub mod Bijection
mod Tests
use scanr.Common.{
  ℕ, zero, suc, ◌+◌, ◌-◌, ◌*◌, ◌/◌, ◌%◌, ◌^◌, Bool, ◌&&◌, Option, none, some, List, [], ◌∷◌, ltb,
  leb, ◌==◌, if◌then◌else◌,
}
use scanr.Common.Bits.{bit_and, bit_or, bit_xor}

pub record Permutation : Type 0 where
  pub n : ℕ
  pub half_bits : ℕ
  pub half_mask : ℕ
  pub keys : List ℕ

abbrev pub u64_range : ℕ
u64_range = 2 ^ 64

-- the splitmix64 finalizer
unfoldable pub mix : ℕ → ℕ
mix x =
    let a = (x + 0x9E37_79B9_7F4A_7C15) % u64_range in
    let b = (bit_xor a (a / 2 ^ 30) * 0xBF58_476D_1CE4_E5B9) % u64_range in
    let c = (bit_xor b (b / 2 ^ 27) * 0x94D0_49BB_1331_11EB) % u64_range in bit_xor c (c / 2 ^ 31)

-- the `while` loop of `new` on `bits`; 31 rounds lead from 2 to 64
unfoldable pub widen : ℕ → ℕ → ℕ → ℕ
widen zero n bits = bits
widen (suc rounds) n bits =
    let wider = widen rounds n (bits + 2) in
    if ltb bits 64 && ltb (2 ^ bits % u64_range) n then wider else bits

-- the `for k in keys.iter_mut()` loop of `new`
unfoldable pub key_schedule : ℕ → ℕ → List ℕ
key_schedule zero s = []
key_schedule (suc rounds) s = mix s ∷ key_schedule rounds (mix s)

unfoldable pub new : ℕ → ℕ → Permutation
new n seed =
    let half_bits = widen 31 n 2 / 2 in
    record {
      n = n;
      half_bits = half_bits;
      half_mask = 2 ^ half_bits - 1;
      keys = key_schedule 4 seed;
    }

pub record Halves : Type 0 where
  pub left : ℕ
  pub right : ℕ

-- one pass of the loop over `self.keys`
unfoldable pub feistel_round : ℕ → ℕ → Halves → Halves
feistel_round mask k h = record {
  left = h.right;
  right = bit_xor h.left (bit_and (mix (bit_xor h.right k)) mask);
}

unfoldable pub feistel_rounds : ℕ → List ℕ → Halves → Halves
feistel_rounds mask [] h = h
feistel_rounds mask (k ∷ ks) h = feistel_rounds mask ks (feistel_round mask k h)

unfoldable pub split : Permutation → ℕ → Halves
split p x = record {
  left = bit_and (x / 2 ^ p.half_bits) p.half_mask;
  right = bit_and x p.half_mask;
}

unfoldable pub join : Permutation → Halves → ℕ
join p h = bit_or (h.left * 2 ^ p.half_bits % u64_range) h.right

unfoldable pub feistel : Permutation → ℕ → ℕ
feistel p x = join p (feistel_rounds p.half_mask p.keys (split p x))

-- the `loop` of `apply` over one pass `step`; `none` means that the fuel ran out
unfoldable pub walk : (ℕ → ℕ) → ℕ → ℕ → ℕ → Option ℕ
walk step n zero x = none
walk step n (suc fuel) x =
    let y = step x in let again = walk step n fuel y in if ltb y n then some y else again

-- the size of the domain that `feistel` permutes
abbrev pub domain : Permutation → ℕ
domain p = 2 ^ p.half_bits * 2 ^ p.half_bits

unfoldable pub apply : Permutation → ℕ → Option ℕ
apply p index = if leb p.n 1 then some index else walk (feistel p) p.n (domain p) index

unfoldable pub len : Permutation → ℕ
len p = p.n

unfoldable pub is_empty : Permutation → Bool
is_empty p = p.n == 0
