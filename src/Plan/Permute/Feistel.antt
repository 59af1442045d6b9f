-- ===== src/Plan/Permute/Feistel.antt =====
-- `Permutation::new` and `feistel` of src/plan/permute.rs: the width of the halves, and why a pass
-- of the network loses nothing.
use native.Mathlib.Nat.{
  pow-suc, one-le-pow, mod-lt, mod-eq_of_lt, div-lt_iff_lt-mul, div-add-mod', pow-le-pow_right,
}
use scanr.Common.{
  ℕ, zero, suc, ◌+◌, ◌-◌, ◌*◌, ◌/◌, ◌%◌, ◌^◌, ◌≤◌, ◌<◌, ◌≡◌, refl, sym, ap, ◌∙◌, ◌⊎◌, inl, inr,
  List, [], ◌∷◌, arith, ltb, ltb→lt, not-ltb, Bool-cases,
}
use scanr.Common.Bits.{
  bit_and, bit_xor, bit_xor-lt, bit_xor-bit_xor, bit_and-ones, bit_or-low, div-mod_unique,
}
use scanr.Plan.Permute.{
  Permutation, Halves, mix, widen, new, feistel_round, feistel_rounds, split, join, feistel, domain,
}
use scanr.Plan.Permute.Cycle.{IsInjection}

pow-add : (a b : ℕ) → 2 ^ (a + b) ≡ 2 ^ a * 2 ^ b
pow-add zero b = let e : 0 + b ≡ b = omega arith in rw e (omega arith)
pow-add (suc a) b =
    let e : suc a + b ≡ suc (a + b) = omega arith in
    rw e (omega (arith, pow-suc 2 (a + b), pow-add a b, ap (λ (t : ℕ). t * 2 ^ b) (pow-suc 2 a)))

-- What `new` establishes of the widths.
pub record IsWide (p : Permutation) : Type 0 where
  pub narrow : p.half_bits ≤ 32
  pub positive : 1 ≤ p.half_bits
  pub mask : p.half_mask ≡ 2 ^ p.half_bits - 1
  pub covers : p.n ≤ domain p

-- The loop of `new` ends by its test, at an even width up to 64 that holds `n`, and with at least
-- the width below it it would not have.
pub record Widens (n from bits : ℕ) : Type 0 where
  half : ℕ
  even : bits ≡ half * 2
  bounded : bits ≤ 64
  reached : from ≤ bits
  covers : n ≤ 2 ^ bits
  least : (bits ≡ from) ⊎ (2 ^ (bits - 2) < n)

no_wrap : (b : ℕ) → b < 64 → 2 ^ b % 2 ^ 64 ≡ 2 ^ b
no_wrap b h =
    let l : 2 ^ b ≤ 2 ^ 63 = pow-le-pow_right (omega arith) {j = 63} (omega arith) in omega arith

Widens-here : (n half : ℕ) → half * 2 ≤ 64 → n ≤ 2 ^ (half * 2) → Widens n (half * 2) (half * 2)
Widens-here n half b c = record {
  half = half;
  even = refl;
  bounded = b;
  reached = omega arith;
  covers = c;
  least = inl refl;
}

Widens-next :
    (n half bits : ℕ) → 2 ^ (half * 2) < n → Widens n (half * 2 + 2) bits → Widens n (half * 2) bits
Widens-next n half bits small w = record {
  half = w.half;
  even = w.even;
  bounded = w.bounded;
  reached = omega (arith, w.reached);
  covers = w.covers;
  least = elim w.least [
    | inl e ↦ let back : bits - 2 ≡ half * 2 = omega (arith, e) in inr (rw back small)
    | inr l ↦ inr l
  ];
}

-- The `while` loop of `new` ends by its own test within the rounds that it is given, and finds the
-- smallest even width, from the given one on, whose power of two is at least `n`.
pub widen-Widens :
    (rounds n half : ℕ)
    → rounds + half ≡ 32
    → n ≤ 2 ^ 64
    → Widens n (half * 2) (widen rounds n (half * 2))
unfolding widen
widen-Widens zero n half e h =
    Widens-here n half (omega arith) (let w : half * 2 ≡ 64 = omega arith in rw w h)
widen-Widens (suc rounds) n half e h = elim (Bool-cases (ltb (half * 2) 64)) [
  | inl short ↦
      rw (short, no_wrap (half * 2) (ltb→lt (half * 2) 64 short))
        (elim (Bool-cases (ltb (2 ^ (half * 2)) n)) [
          | inl small ↦
              let next : half * 2 + 2 ≡ suc half * 2 = omega arith in
              rw small (
                Widens-next n half _ (ltb→lt _ _ small)
                  (rw next (widen-Widens rounds n (suc half) (omega arith) h)))
          | inr big ↦ rw big (Widens-here n half (omega arith) (not-ltb _ _ big))
        ])
  | inr long ↦
      let w : half * 2 ≡ 64 = omega (arith, not-ltb (half * 2) 64 long) in
      rw long (Widens-here n half (omega arith) (rw w h))
]

pub new-IsWide : (n seed : ℕ) → n ≤ 2 ^ 64 → IsWide (new n seed)
unfolding new
new-IsWide n seed h =
    let w = widen-Widens 31 n 1 (omega arith) h in
    let half : widen 31 n 2 / 2 ≡ w.half = omega (arith, w.even) in
    record {
      narrow = omega (arith, w.bounded);
      positive = omega (arith, w.reached);
      mask = refl;
      covers = rw half (
          let d : n ≤ 2 ^ (w.half + w.half) =
            let e : w.half + w.half ≡ widen 31 n 2 = omega (arith, w.even) in rw e w.covers in
          omega (arith, d, pow-add w.half w.half));
    }

module _ (p : Permutation) (w : IsWide p) where
  abbrev Fits : Halves → Type 0
  Fits h = (h.left < 2 ^ p.half_bits) × (h.right < 2 ^ p.half_bits)

  masked : (x : ℕ) → bit_and x p.half_mask ≡ x % 2 ^ p.half_bits
  masked x = rw (w.mask) (bit_and-ones p.half_bits x)

  masked-fits : (x : ℕ) → bit_and x p.half_mask < 2 ^ p.half_bits
  masked-fits x = rw masked (mod-lt x (one-le-pow p.half_bits 2 (omega arith)))

  feistel_round-Fits : (k : ℕ) (h : Halves) → Fits h → Fits (feistel_round p.half_mask k h)
  unfolding feistel_round
  feistel_round-Fits k h f =
      (f.1, bit_xor-lt p.half_bits h.left _ f.0 (masked-fits (mix (bit_xor h.right k))))

  feistel_rounds-Fits : (ks : List ℕ) (h : Halves) → Fits h → Fits (feistel_rounds p.half_mask ks h)
  unfolding feistel_rounds
  feistel_rounds-Fits [] h f = f
  feistel_rounds-Fits (k ∷ ks) h f = feistel_rounds-Fits ks _ (feistel_round-Fits k h f)

  feistel_round_inj :
      (k : ℕ) (g h : Halves)
      → Fits g
      → Fits h
      → feistel_round p.half_mask k g ≡ feistel_round p.half_mask k h
      → g ≡ h
  unfolding feistel_round
  feistel_round_inj k g h fg fh e =
      let er : g.right ≡ h.right = ap (λ (t : Halves). t.left) e in
      let ex = ap (λ (t : Halves). t.right) e in
      let back = λ (h : Halves) (f : Fits h).
        bit_xor-bit_xor p.half_bits h.left _ f.0 (masked-fits (mix (bit_xor h.right k))) in
      let el : g.left ≡ h.left = cc (er, ex, back g fg, back h fh) in
      λ i. record { left = el i; right = er i }

  feistel_rounds_inj :
      (ks : List ℕ) (g h : Halves)
      → Fits g
      → Fits h
      → feistel_rounds p.half_mask ks g ≡ feistel_rounds p.half_mask ks h
      → g ≡ h
  unfolding feistel_rounds
  feistel_rounds_inj [] g h fg fh e = e
  feistel_rounds_inj (k ∷ ks) g h fg fh e =
      feistel_round_inj k g h fg fh
        (feistel_rounds_inj ks _ _ (feistel_round-Fits k g fg) (feistel_round-Fits k h fh) e)

  -- The halves of a number of the domain fit, and give the number back.
  split-Fits : (x : ℕ) → Fits (split p x)
  unfolding split
  split-Fits x = (masked-fits (x / 2 ^ p.half_bits), masked-fits x)

  domain-le : domain p ≤ 2 ^ 64
  domain-le =
      let l : 2 ^ (p.half_bits + p.half_bits) ≤ 2 ^ 64 =
        pow-le-pow_right (omega arith) {j = 64} (omega (arith, w.narrow)) in
      omega (arith, l, pow-add p.half_bits p.half_bits)

  join_lem : (h : Halves) → Fits h → join p h ≡ h.left * 2 ^ p.half_bits + h.right
  unfolding join
  join_lem h f =
      let room : h.left * 2 ^ p.half_bits < domain p = grind arith in
      let small : h.left * 2 ^ p.half_bits < 2 ^ 64 = omega (arith, domain-le) in
      rw (mod-eq_of_lt small) (bit_or-low p.half_bits h.left h.right f.1)

  join-lt-domain : (h : Halves) → Fits h → join p h < domain p
  join-lt-domain h f = rw (join_lem h f) (grind arith)

  quotient-fits : (x : ℕ) → x < domain p → x / 2 ^ p.half_bits < 2 ^ p.half_bits
  quotient-fits x h = (div-lt_iff_lt-mul (one-le-pow p.half_bits 2 (omega arith))).1 h

  split_inj : (x y : ℕ) → x < domain p → y < domain p → split p x ≡ split p y → x ≡ y
  unfolding split
  split_inj x y hx hy e =
      let el = ap (λ (t : Halves). t.left) e in
      let er = ap (λ (t : Halves). t.right) e in
      let q = λ (z : ℕ) (h : z < domain p).
        masked (z / 2 ^ p.half_bits) ∙ mod-eq_of_lt (quotient-fits z h) in
      let eq : x / 2 ^ p.half_bits ≡ y / 2 ^ p.half_bits = cc (el, q x hx, q y hy) in
      let em : x % 2 ^ p.half_bits ≡ y % 2 ^ p.half_bits = cc (er, masked x, masked y) in
      sym (div-add-mod' x (2 ^ p.half_bits)) ∙ rw (eq, em) (div-add-mod' y (2 ^ p.half_bits))

  join_inj : (g h : Halves) → Fits g → Fits h → join p g ≡ join p h → g ≡ h
  join_inj g h fg fh e =
      let u = λ (h : Halves) (f : Fits h).
        div-mod_unique (join p h) h.left (2 ^ p.half_bits) h.right (join_lem h f) f.1 in
      let el : g.left ≡ h.left = cc (e, (u g fg).0, (u h fh).0) in
      let er : g.right ≡ h.right = cc (e, (u g fg).1, (u h fh).1) in
      λ i. record { left = el i; right = er i }

  -- A pass of the network is a one-to-one map of its domain into itself.
  pub feistel-IsInjection : IsInjection (domain p) (feistel p)
  unfolding feistel
  feistel-IsInjection = record {
    below = λ x h. join-lt-domain _ (feistel_rounds-Fits p.keys _ (split-Fits x));
    one_to_one = λ x y hx hy e. split_inj x y hx hy (
        feistel_rounds_inj p.keys _ _ (split-Fits x) (split-Fits y) (
          join_inj _ _ (feistel_rounds-Fits p.keys _ (split-Fits x))
            (feistel_rounds-Fits p.keys _ (split-Fits y)) e));
  }
