-- ===== src/Cancel/Interrupts.antt =====
-- No interrupt is lost between the handlers of src/cli.rs, in any interleaving.
use scanr.Common.{
  ℕ, zero, suc, ◌+◌, ◌-◌, ◌≤◌, ◌≡◌, refl, min, Bool, true, false, List, [], ◌∷◌, All, ◌==◌,
  if◌then◌else◌, arith,
}
use scanr.Cancel.{cancel_new}
use scanr.Cancel.Signals.{Handler, entered, seen, left, handler_step, turn, run_handlers, poll}

abbrev pub done : Handler → ℕ
done entered = 0
done (seen v) = 0
done left = 1

abbrev pub all_done : List Handler → ℕ
all_done [] = 0
all_done (h ∷ hs) = done h + all_done hs

-- A handler has seen no more than the count.
abbrev IsBehind : ℕ → Handler → Type 0
IsBehind count entered = Unit
IsBehind count (seen v) = v ≤ count
IsBehind count left = Unit

IsBehind-le : (c d : ℕ) (h : Handler) → c ≤ d → IsBehind c h → IsBehind d h
IsBehind-le c d entered l b = tt
IsBehind-le c d (seen v) l b = omega arith
IsBehind-le c d left l b = tt

All-IsBehind : (c d : ℕ) (hs : List Handler) → c ≤ d → All (IsBehind c) hs → All (IsBehind d) hs
All-IsBehind c d [] l b = tt
All-IsBehind c d (h ∷ hs) l b = (IsBehind-le c d h l b.0, All-IsBehind c d hs l b.1)

-- Beside `others` that are done, the count is the number of those that are done, and at most 2.
record IsCounted (others count : ℕ) (hs : List Handler) : Type 0 where
  counted : count ≡ min (others + all_done hs) 2
  behind : All (IsBehind count) hs

step-IsCounted :
    (spurious : Bool) (others count : ℕ) (h : Handler)
    → count ≡ min (others + done h) 2
    → IsBehind count h
    → ((handler_step spurious count h).0 ≡ min (others + done (handler_step spurious count h).1) 2)
      × IsBehind (handler_step spurious count h).0 (handler_step spurious count h).1
      × (count ≤ (handler_step spurious count h).0)
unfolding handler_step
step-IsCounted spurious others count entered e b = (e, omega arith, omega arith)
step-IsCounted true others count (seen v) e b = ground arith
step-IsCounted false others count (seen v) e b = ground arith
step-IsCounted spurious others count left e b = (e, tt, omega arith)

turn-IsCounted :
    (spurious : Bool) (i others count : ℕ) (hs : List Handler)
    → IsCounted others count hs
    → IsCounted others (turn spurious i count hs).0 (turn spurious i count hs).1
      × (count ≤ (turn spurious i count hs).0)
unfolding turn
turn-IsCounted spurious i others count [] c = (c, omega arith)
turn-IsCounted spurious zero others count (h ∷ hs) c =
    let others' = others + all_done hs in
    let (e, b, l) =
      step-IsCounted spurious (others + all_done hs) count h (omega (arith, c.counted))
        c.behind.0 in
    (record { counted = omega (arith, e); behind = (b, All-IsBehind _ _ hs l c.behind.1) }, l)
turn-IsCounted spurious (suc i) others count (h ∷ hs) c =
    let (rest, l) =
      turn-IsCounted spurious i (others + done h) count hs
        (record { counted = omega (arith, c.counted); behind = c.behind.1 }) in
    (
      record {
        counted = omega (arith, rest.counted);
        behind = (IsBehind-le _ _ h l c.behind.0, rest.behind);
      },
      l,
    )

run-IsCounted :
    (schedule : List (ℕ × Bool)) (count : ℕ) (hs : List Handler)
    → IsCounted 0 count hs
    → IsCounted 0 (run_handlers schedule count hs).0 (run_handlers schedule count hs).1
unfolding run_handlers
run-IsCounted [] count hs c = c
run-IsCounted ((i, spurious) ∷ schedule) count hs c =
    run-IsCounted schedule (turn spurious i count hs).0 (turn spurious i count hs).1
      (turn-IsCounted spurious i 0 count hs c).0

-- as many calls of the handler as there are interrupts
abbrev pub interrupts : ℕ → List Handler
interrupts zero = []
interrupts (suc n) = entered ∷ interrupts n

interrupts-IsCounted : (n : ℕ) → (all_done (interrupts n) ≡ 0) × All (IsBehind 0) (interrupts n)
interrupts-IsCounted zero = (refl, tt)
interrupts-IsCounted (suc n) = let (e, b) = interrupts-IsCounted n in (omega (arith, e), (tt, b))

-- What the watcher makes of a new flag once this many interrupts have been handled.
abbrev pub asked : ℕ → ℕ
asked zero = 0
asked (suc zero) = 1
asked (suc (suc n)) = 2

poll-asked : (n : ℕ) → (poll (min n 2) cancel_new).flag ≡ asked n
unfolding poll cancel_new
poll-asked zero = refl
poll-asked (suc zero) = refl
poll-asked (suc (suc n)) = let e : min (suc (suc n)) 2 ≡ 2 = omega arith in rw e refl

-- However the accesses of any number of signal handlers interleave, and whichever exchanges fail: the
-- count is the number of the handlers that have ended, and at most 2. So the watcher leaves a new flag
-- alone before the first interrupt, asks for a graceful stop after one, and forces it after more.
pub run_handlers-poll :
    (n : ℕ) (schedule : List (ℕ × Bool))
    → ((run_handlers schedule 0 (interrupts n)).0
        ≡ min (all_done (run_handlers schedule 0 (interrupts n)).1) 2)
      × ((poll (run_handlers schedule 0 (interrupts n)).0 cancel_new).flag
          ≡ asked (all_done (run_handlers schedule 0 (interrupts n)).1))
run_handlers-poll n schedule =
    let (e, b) = interrupts-IsCounted n in
    let c =
      run-IsCounted schedule 0 (interrupts n) (record { counted = omega (arith, e); behind = b }) in
    let counted : (run_handlers schedule 0 (interrupts n)).0
        ≡ min (all_done (run_handlers schedule 0 (interrupts n)).1) 2 =
      omega (arith, c.counted) in
    (counted, rw counted (poll-asked (all_done (run_handlers schedule 0 (interrupts n)).1)))

-- How many accesses a handler still needs at most, when no exchange fails without a reason.
abbrev needs : Handler → ℕ
needs entered = 4
needs (seen v) = 3 - v
needs left = 0

abbrev pub nth : List Handler → ℕ → Handler
nth [] i = left
nth (h ∷ hs) zero = h
nth (h ∷ hs) (suc i) = nth hs i

step-needs :
    (count : ℕ) (h : Handler)
    → count ≤ 2
    → IsBehind count h
    → needs (handler_step false count h).1 ≤ needs h - 1
unfolding handler_step
step-needs count entered l b = omega arith
step-needs count (seen v) l b = ground arith
step-needs count left l b = omega arith

-- A turn brings its own handler nearer to its end, and takes no other back.
turn-needs :
    (i j others count : ℕ) (hs : List Handler)
    → IsCounted others count hs
    → needs (nth (turn false i count hs).1 j) ≤ needs (nth hs j) - (if i == j then 1 else 0)
unfolding turn
turn-needs i j others count [] c = omega arith
turn-needs zero zero others count (h ∷ hs) c =
    step-needs count h (omega (arith, c.counted)) c.behind.0
turn-needs zero (suc j) others count (h ∷ hs) c = ground arith
turn-needs (suc i) zero others count (h ∷ hs) c = ground arith
turn-needs (suc i) (suc j) others count (h ∷ hs) c =
    let e : (suc i == suc j) ≡ (i == j) = ground arith in
    rw e (
      turn-needs i j (others + done h) count hs
        (record { counted = omega (arith, c.counted); behind = c.behind.1 }))

-- how often the handler moves
abbrev pub turns_of : ℕ → List (ℕ × Bool) → ℕ
turns_of i [] = 0
turns_of i ((j, spurious) ∷ schedule) = (if j == i then 1 else 0) + turns_of i schedule

run-needs :
    (schedule : List (ℕ × Bool)) (i count : ℕ) (hs : List Handler)
    → All (λ p. p.1 ≡ false) schedule
    → IsCounted 0 count hs
    → needs (nth (run_handlers schedule count hs).1 i) ≤ needs (nth hs i) - turns_of i schedule
unfolding run_handlers
run-needs [] i count hs a c = omega arith
run-needs ((j, true) ∷ schedule) i count hs a c = absurd (cc (a.0))
run-needs ((j, false) ∷ schedule) i count hs a c =
    let rest =
      run-needs schedule i (turn false j count hs).0 (turn false j count hs).1 a.1
        (turn-IsCounted false j 0 count hs c).0 in
    omega (arith, rest, turn-needs j i 0 count hs c)

done_of_needs : (count : ℕ) (h : Handler) → count ≤ 2 → IsBehind count h → needs h ≡ 0 → h ≡ left
done_of_needs count entered l b e = absurd (omega arith)
done_of_needs count (seen v) l b e = absurd (omega arith)
done_of_needs count left l b e = refl

All-nth :
    (count : ℕ) (hs : List Handler) (i : ℕ) → All (IsBehind count) hs → IsBehind count (nth hs i)
All-nth count [] i a = tt
All-nth count (h ∷ hs) zero a = a.0
All-nth count (h ∷ hs) (suc i) a = All-nth count hs i a.1

needs-le : (h : Handler) → needs h ≤ 4
needs-le entered = omega arith
needs-le (seen v) = omega arith
needs-le left = omega arith

-- A handler is at its end after four accesses of its own, whatever the others do meanwhile, when no
-- exchange fails without a reason.
pub run_handlers-nth_left :
    (n i : ℕ) (schedule : List (ℕ × Bool))
    → All (λ p. p.1 ≡ false) schedule
    → 4 ≤ turns_of i schedule
    → nth (run_handlers schedule 0 (interrupts n)).1 i ≡ left
run_handlers-nth_left n i schedule a l =
    let (e, b) = interrupts-IsCounted n in
    let start : IsCounted 0 0 (interrupts n) = record { counted = omega (arith, e); behind = b } in
    let c = run-IsCounted schedule 0 (interrupts n) start in
    done_of_needs (run_handlers schedule 0 (interrupts n)).0
      (nth (run_handlers schedule 0 (interrupts n)).1 i) (omega (arith, c.counted))
      (All-nth (run_handlers schedule 0 (interrupts n)).0 (run_handlers schedule 0 (interrupts n)).1
        i c.behind)
      (omega
        (arith, run-needs schedule i 0 (interrupts n) a start, needs-le (nth (interrupts n) i)))
