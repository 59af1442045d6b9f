-- ===== src/Net/Target/Network.antt =====
-- The masks of src/net/target.rs: a network is the interval from its base on.
use scanr.Common.{
  ℕ, zero, suc, ◌+◌, ◌-◌, ◌*◌, ◌/◌, ◌%◌, ◌^◌, ◌≤◌, ◌<◌, ◌≡◌, refl, ap, ◌∙◌, ◌↔◌, inl, inr, leb,
  Bool-cases, ◌==◌, arith,
}
use scanr.Common.Bits.{bit_and, bit_and-ones, bit_and-high, div-mod_unique}
use scanr.Net.Target.{network_mask, prefix_mask}
use native.Mathlib.Nat.{
  mul_assoc, add-mul, pow-suc, one-le-pow, div-add-mod', mod-lt, mul-le-mul_right,
  lt_of_mul-lt-mul_right,
}

pred-mul : (k p : ℕ) → 0 < k → (k - 1) * p + p ≡ k * p
pred-mul zero p h = absurd (omega arith)
pred-mul (suc k) p h = let e : suc k - 1 ≡ k = omega arith in rw e (omega (arith, add-mul k 1 p))

power-add : (k h : ℕ) → 2 ^ k * 2 ^ h ≡ 2 ^ (k + h)
power-add k zero = let e : k + 0 ≡ k = omega arith in rw e (omega arith)
power-add k (suc h) =
    let e : k + suc h ≡ suc (k + h) = omega arith in
    rw (e, pow-suc 2 (k + h), pow-suc 2 h, ← mul_assoc (2 ^ k) (2 ^ h) 2, power-add k h) refl

-- All ones moved up by h places in w bits are the ones above the h low bits.
moved_ones : (w h : ℕ) → h ≤ w → (2 ^ w - 1) * 2 ^ h % 2 ^ w ≡ (2 ^ (w - h) - 1) * 2 ^ h
moved_ones w h l =
    let all : w - h + h ≡ w = omega arith in
    let whole : 2 ^ (w - h) * 2 ^ h ≡ 2 ^ w = power-add (w - h) h ∙ ap (λ (n : ℕ). 2 ^ n) all in
    let big = one-le-pow w 2 (omega arith) in
    let low = one-le-pow h 2 (omega arith) in
    let high = one-le-pow (w - h) 2 (omega arith) in
    let a = pred-mul (2 ^ w) (2 ^ h) big in
    let b = pred-mul (2 ^ h) (2 ^ w) low in
    let c = pred-mul (2 ^ (w - h)) (2 ^ h) high in
    (div-mod_unique ((2 ^ w - 1) * 2 ^ h) (2 ^ h - 1) (2 ^ w) ((2 ^ (w - h) - 1) * 2 ^ h)
      (grind (arith, whole, a, b, c)) (omega (arith, whole, c, low))).1

-- The mask of `matches` clears the host bits.
network_and : (h a : ℕ) → h ≤ 128 → a < 2 ^ 128 → bit_and a (network_mask h) ≡ a / 2 ^ h * 2 ^ h
unfolding network_mask
network_and h a l lt = elim (Bool-cases (leb 128 h)) [
  | inl e ↦ (let full : h ≡ 128 = ground arith in rw (e, full) (bit_and-ones 0 a ∙ omega arith))
  | inr e ↦
      (let whole : 2 ^ (128 - h) * 2 ^ h ≡ 2 ^ 128 =
          power-add (128 - h) h
          ∙ (let all : 128 - h + h ≡ 128 = omega arith in ap (λ (n : ℕ). 2 ^ n) all) in
        rw (e, moved_ones 128 h l) (bit_and-high h (128 - h) a (omega (arith, whole, lt))))
]

-- The numbers that agree with b above the h low bits, which are zero in b.
interval :
    (h a b : ℕ)
    → b % 2 ^ h ≡ 0
    → (a / 2 ^ h * 2 ^ h ≡ b / 2 ^ h * 2 ^ h) ↔ ((b ≤ a) × (a < b + 2 ^ h))
interval h a b z =
    let low = one-le-pow h 2 (omega arith) in
    let cut_a = div-add-mod' a (2 ^ h) in
    let cut_b = div-add-mod' b (2 ^ h) in
    (
      λ e. (omega (arith, e, cut_a, cut_b, z), omega (arith, e, cut_a, cut_b, z, mod-lt a low)),
      λ i.
          (let same : a / 2 ^ h ≡ b / 2 ^ h =
              (div-mod_unique a (b / 2 ^ h) (2 ^ h) (a - b) (omega (arith, cut_b, z, i.0))
                (omega (arith, i.0, i.1))).0 in
            ap (λ (q : ℕ). q * 2 ^ h) same),
    )

-- A network of h host bits is the interval of 2 ^ h numbers from its base on.
pub network_interval :
    (h a b : ℕ)
    → h ≤ 128
    → a < 2 ^ 128
    → b < 2 ^ 128
    → b % 2 ^ h ≡ 0
    → (bit_and a (network_mask h) ≡ bit_and b (network_mask h)) ↔ ((b ≤ a) × (a < b + 2 ^ h))
network_interval h a b l la lb z =
    rw (network_and h a l la, network_and h b l lb) (interval h a b z)

-- An aligned network does not reach over the end of its w bits.
pub network_end : (w h b : ℕ) → h ≤ w → b < 2 ^ w → b % 2 ^ h ≡ 0 → b + 2 ^ h ≤ 2 ^ w
network_end w h b l lb z =
    let whole : 2 ^ (w - h) * 2 ^ h ≡ 2 ^ w =
      power-add (w - h) h ∙ (let all : w - h + h ≡ w = omega arith in ap (λ (n : ℕ). 2 ^ n) all) in
    let cut = div-add-mod' b (2 ^ h) in
    let below : b / 2 ^ h < 2 ^ (w - h) =
      lt_of_mul-lt-mul_right (2 ^ h) (omega (arith, whole, cut, lb)) in
    let room =
      mul-le-mul_right {m = b / 2 ^ h + 1} {n = 2 ^ (w - h)} (2 ^ h) (omega (arith, below)) in
    omega (arith, whole, cut, z, room, add-mul (b / 2 ^ h) 1 (2 ^ h))

-- A prefix mask clears the host bits.
pub prefix_and :
    (w p n : ℕ) → p ≤ w → n < 2 ^ w → bit_and n (prefix_mask w p) ≡ n / 2 ^ (w - p) * 2 ^ (w - p)
unfolding prefix_mask
prefix_and w p n l lt = elim (Bool-cases (p == 0)) [
  | inl e ↦
      (let all : w - p ≡ w = ground arith in
        let none_left : n / 2 ^ w ≡ 0 = (div-mod_unique n 0 (2 ^ w) n (omega arith) lt).0 in
        rw (e, all, none_left) (bit_and-ones 0 n ∙ omega arith))
  | inr e ↦
      (let whole : 2 ^ (w - (w - p)) * 2 ^ (w - p) ≡ 2 ^ w =
          power-add (w - (w - p)) (w - p)
          ∙ (let all : w - (w - p) + (w - p) ≡ w = omega arith in ap (λ (k : ℕ). 2 ^ k) all) in
        rw (e, moved_ones w (w - p) (omega arith))
          (bit_and-high (w - p) (w - (w - p)) n (omega (arith, whole, lt))))
]

-- Without its host bits a number is aligned, and not above what it was.
pub aligned : (h n : ℕ) → (n / 2 ^ h * 2 ^ h % 2 ^ h ≡ 0) × (n / 2 ^ h * 2 ^ h ≤ n)
aligned h n =
    let low = one-le-pow h 2 (omega arith) in
    (
      (div-mod_unique (n / 2 ^ h * 2 ^ h) (n / 2 ^ h) (2 ^ h) 0 (omega arith) low).1,
      omega (arith, div-add-mod' n (2 ^ h)),
    )
