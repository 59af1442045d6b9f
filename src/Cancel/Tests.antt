-- ===== src/Cancel/Tests.antt =====
-- Two signals whose handlers nest.
use scanr.Common.{ℕ, ◌≡◌, refl, min, Bool, false, List, [], ◌∷◌, arith}
use scanr.Cancel.{cancel_new}
use scanr.Cancel.Signals.{left, run_handlers, poll}
use scanr.Cancel.Interrupts.{
  all_done, interrupts, asked, nth, run_handlers-poll, run_handlers-nth_left,
}

-- both load 0; the second counts first, so the first must look again
abbrev nested : List (ℕ × Bool)
nested = (0, false) ∷ (1, false) ∷ (1, false) ∷ (0, false) ∷ (0, false) ∷ (0, false) ∷ []

both_counted : (run_handlers nested 0 (interrupts 2)).0 ≡ 2
unfolding run_handlers
both_counted = refl

run_handlers-poll_example :
    ((run_handlers nested 0 (interrupts 2)).0
      ≡ min (all_done (run_handlers nested 0 (interrupts 2)).1) 2)
    × ((poll (run_handlers nested 0 (interrupts 2)).0 cancel_new).flag
        ≡ asked (all_done (run_handlers nested 0 (interrupts 2)).1))
run_handlers-poll_example = run_handlers-poll 2 nested

run_handlers-nth_left_example : nth (run_handlers nested 0 (interrupts 2)).1 0 ≡ left
run_handlers-nth_left_example =
    run_handlers-nth_left 2 0 nested (refl, (refl, (refl, (refl, (refl, (refl, tt))))))
      (omega arith)
