-- ===== src/Timefmt/Table.antt =====
-- Tests of every number under a bound by evaluation, for the tables behind src/timefmt.rs.
use scanr.Common.{
  ℕ, zero, suc, ◌<◌, ◌≡◌, Bool, true, false, ◌==◌, if◌then◌else◌, Bool-cases, arith, inl, inr,
}

-- whether the test passes at each number under the bound
unfoldable pub passes : (ℕ → Bool) → ℕ → Bool
passes test zero = true
passes test (suc k) = let lower = passes test k in if test k then lower else false

pub passes-at :
    (test : ℕ → Bool) (bound i : ℕ) → i < bound → passes test bound ≡ true → test i ≡ true
unfolding passes
passes-at test zero i l h = absurd (omega arith)
passes-at test (suc k) i l h = elim (Bool-cases (i == k)) [
  | inl e ↦ ground (arith, h, e)
  | inr e ↦ passes-at test k i (ground (arith, e)) (ground (arith, h))
]
