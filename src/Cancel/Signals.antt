-- ===== src/Cancel/Signals.antt =====
-- `on_sigint` and `spawn_signal_watcher` of src/cli.rs. Handlers nest and run beside one another: each
-- atomic access is one step, and any handler may make the next one.
use scanr.Common.{ℕ, zero, suc, ◌+◌, Bool, not, ◌&&◌, List, [], ◌∷◌, ltb, ◌==◌, if◌then◌else◌}
use scanr.Cancel.{Cancel, request_graceful, request_forced}

-- Where a call of `on_sigint` stands: before its load, before the test of the loop with the value that
-- it has seen, or at its end.
pub data Handler : Type 0 where
  entered : Handler
  seen : ℕ → Handler
  left : Handler

-- The next access of a handler, at the count that it meets. A weak exchange may fail for no reason.
unfoldable pub handler_step : Bool → ℕ → Handler → ℕ × Handler
handler_step spurious count entered = (count, seen count)
handler_step spurious count (seen v) =
    if ltb v 2
    then (if count == v && not spurious then (v + 1, left) else (count, seen count))
    else (count, left)
handler_step spurious count left = (count, left)

-- The handler at this place makes its next access.
unfoldable pub turn : Bool → ℕ → ℕ → List Handler → ℕ × List Handler
unfolding handler_step
turn spurious i count [] = (count, [])
turn spurious zero count (h ∷ hs) = let (c, h') = handler_step spurious count h in (c, h' ∷ hs)
turn spurious (suc i) count (h ∷ hs) = let (c, hs') = turn spurious i count hs in (c, h ∷ hs')

-- The handlers move in this order, each with or without a failure of its exchange.
unfoldable pub run_handlers : List (ℕ × Bool) → ℕ → List Handler → ℕ × List Handler
unfolding turn
run_handlers [] count hs = (count, hs)
run_handlers ((i, spurious) ∷ schedule) count hs =
    let (c, hs') = turn spurious i count hs in run_handlers schedule c hs'

-- what the watcher does with the count that it loads
unfoldable pub poll : ℕ → Cancel → Cancel
unfolding request_graceful request_forced
poll zero c = c
poll (suc zero) c = request_graceful c
poll (suc (suc n)) c = request_forced c
