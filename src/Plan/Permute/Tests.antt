-- ===== src/Plan/Permute/Tests.antt =====
-- Runs of the permutation of src/plan/permute.rs, and its theorems at concrete sizes and seeds.
use scanr.Common.{◌≡◌, refl, some, arith}
use scanr.Plan.Permute.{
  Permutation, new, apply, walk, feistel, feistel_rounds, feistel_round, split, join, mix, widen,
  key_schedule,
}
use scanr.Plan.Permute.Walk.{IsBijection}
use scanr.Plan.Permute.Bijection.{apply-IsBijection}

abbrev five : Permutation
five = new 5 42

apply_runs : apply five 0 ≡ some 3
unfolding new apply walk feistel feistel_rounds feistel_round split join mix widen key_schedule
apply_runs = refl

apply-IsBijection_example : IsBijection 255510 (apply (new 255510 0x9f2c_00a1_b4de_7731))
apply-IsBijection_example = apply-IsBijection 255510 0x9f2c_00a1_b4de_7731 (omega arith)
