-- ===== src/Plan/Permute/Bijection.antt =====
-- `Permutation::apply` of src/plan/permute.rs, on what `Permutation::new` returns.
use mathlib.Core.Path.{fun_ext}
use scanr.Common.{ℕ, ◌^◌, ◌≤◌, ◌≡◌, refl, some, inl, inr, leb, Bool-cases}
use scanr.Plan.Permute.{Permutation, new, apply, walk, feistel, domain}
use scanr.Plan.Permute.Walk.{IsBijection, walk-IsBijection}
use scanr.Plan.Permute.Feistel.{IsWide, new-IsWide, feistel-IsInjection}

-- The identity, which `apply` is on at most one index.
some-IsBijection : (n : ℕ) → IsBijection n some
some-IsBijection n = record {
  total = λ x h. (x, refl, h);
  one_to_one = λ x y z hx hy ex ey. cc;
  onto = λ y h. (y, h, refl);
}

IsWide-IsBijection : (p : Permutation) → IsWide p → IsBijection p.n (apply p)
unfolding apply
IsWide-IsBijection p w = elim (Bool-cases (leb p.n 1)) [
  | inl few ↦ let same : apply p ≡ some = fun_ext (λ x. rw few) in rw same (some-IsBijection p.n)
  | inr many ↦
      let same : apply p ≡ walk (feistel p) p.n (domain p) = fun_ext (λ x. rw many) in
      rw same (walk-IsBijection (domain p) p.n (feistel p) (feistel-IsInjection p w) w.covers)
]

-- For every size of at most 2 ^ 64 and every seed, the permutation that `new` makes is total within
-- its fuel on the indices below `n` and keeps them below `n`, sends no two of them to one index, and
-- reaches each index below `n`.
pub apply-IsBijection : (n seed : ℕ) → n ≤ 2 ^ 64 → IsBijection n (apply (new n seed))
unfolding new
apply-IsBijection n seed h = IsWide-IsBijection (new n seed) (new-IsWide n seed h)
