-- ===== src/Sched/Tests.antt =====
-- Two workers share the counter of src/sched.rs.
use scanr.Common.{ℕ, ◌≡◌, min, List, [], ◌∷◌, length, map, arith}
use scanr.Sched.WorkCounter.{counter_new, run, issued, index_of, from_on, run-from_on}

abbrev schedule : List ℕ
schedule = 7 ∷ 9 ∷ 9 ∷ 7 ∷ []

run-from_on_example :
    (map index_of (run schedule (counter_new 3)).0 ≡ from_on 0 (min (length schedule) 3))
    × (issued (run schedule (counter_new 3)).1 ≡ min (length schedule) 3)
run-from_on_example = run-from_on schedule 3 (omega arith)
