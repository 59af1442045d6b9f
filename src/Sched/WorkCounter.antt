-- ===== src/Sched/WorkCounter.antt =====
-- `WorkCounter` and `worker_count` of src/sched.rs.
use scanr.Common.{
  ℕ, zero, suc, ◌+◌, ◌-◌, ◌%◌, ◌^◌, ◌<◌, ◌≡◌, refl, ap, ◌∙◌, inl, inr, min, max, Bool-cases, Option,
  none, some, List, [], ◌∷◌, length, map, ltb, if◌then◌else◌, arith,
}

pub record WorkCounter : Type 0 where
  pub next : ℕ
  pub total : ℕ

unfoldable pub counter_new : ℕ → WorkCounter
counter_new total = record { next = 0; total = total }

-- `fetch_add` wraps around in 64 bits
unfoldable pub take : WorkCounter → Option ℕ × WorkCounter
take c =
    (if ltb c.next c.total then some c.next else none, record c { next = (c.next + 1) % 2 ^ 64 })

unfoldable pub issued : WorkCounter → ℕ
issued c = min c.next c.total

unfoldable pub worker_count : ℕ → ℕ → ℕ
worker_count concurrency probes = max (min concurrency probes) 1

abbrev pub logged : ℕ → Option ℕ → List (ℕ × ℕ) → List (ℕ × ℕ)
logged worker none log = log
logged worker (some i) log = (worker, i) ∷ log

-- The workers take in this order: who got which index, and the counter behind.
unfoldable pub run : List ℕ → WorkCounter → List (ℕ × ℕ) × WorkCounter
unfolding take
run [] c = ([], c)
run (worker ∷ schedule) c =
    let (i, c') = take c in let (log, c2) = run schedule c' in (logged worker i log, c2)

abbrev pub index_of : ℕ × ℕ → ℕ
index_of p = p.1

-- `count` numbers from `first` on
abbrev pub from_on : ℕ → ℕ → List ℕ
from_on first zero = []
from_on first (suc count) = first ∷ from_on (first + 1) count

run_from :
    (schedule : List ℕ) (next total : ℕ)
    → next + length schedule < 2 ^ 64
    → (map index_of (run schedule (record { next = next; total = total })).0
        ≡ from_on next (min (length schedule) (total - next)))
      × ((run schedule (record { next = next; total = total })).1
          ≡ record { next = next + length schedule; total = total })
unfolding run take
run_from [] next total l =
    let e : min 0 (total - next) ≡ 0 = omega arith in
    let f : next + 0 ≡ next = omega arith in rw (e, f) (refl, refl)
run_from (worker ∷ schedule) next total l =
    let wrap : (next + 1) % 2 ^ 64 ≡ next + 1 = omega arith in
    let (rest, behind) = run_from schedule (next + 1) total (omega arith) in
    let moved : next + suc (length schedule) ≡ next + 1 + length schedule = omega arith in
    elim (Bool-cases (ltb next total)) [
      | inl h ↦
          (let some_left : min (suc (length schedule)) (total - next)
                ≡ suc (min (length schedule) (total - (next + 1))) =
              ground arith in
            rw (h, wrap, some_left, moved) (ap (◌∷◌ next) rest, behind))
      | inr h ↦
          (let none_left : min (suc (length schedule)) (total - next) ≡ 0 = ground arith in
            let none_then : min (length schedule) (total - (next + 1)) ≡ 0 = ground arith in
            rw (h, wrap, none_left, moved) ((rw none_then at rest), behind))
    ]

-- Whichever workers take in whichever order, fewer than 2 ^ 64 times in all: the indices that are
-- handed out are 0, 1, 2 and so on in this order, each once, as many as there are takes but no more
-- than the total; and `issued` is their number.
pub run-from_on :
    (schedule : List ℕ) (total : ℕ)
    → length schedule < 2 ^ 64
    → (map index_of (run schedule (counter_new total)).0 ≡ from_on 0 (min (length schedule) total))
      × (issued (run schedule (counter_new total)).1 ≡ min (length schedule) total)
unfolding counter_new issued
run-from_on schedule total l =
    let (indices, behind) = run_from schedule 0 total (omega arith) in
    let all : total - 0 ≡ total = omega arith in
    (rw all at indices, ap (λ (c : WorkCounter). min c.next c.total) behind ∙ omega arith)
