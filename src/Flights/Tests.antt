-- ===== src/Flights/Tests.antt =====
-- Two callers that share one population, and the theorems on waiters at them.
use penampakan.Base.{ℕ, ◌≡◌, ◌<◌, refl, false, true, List, [], ◌∷◌, arith}
use penampakan.Base.Dict.{lookup, insert, without}
use penampakan.Flights.World.{Op, caller_joins, caller_leaves, IsCounted, apply_all, waiters_of}
use penampakan.Flights.Shared.{start, flights_run-IsCounted, flights_run_shared}

program : Unit {0}
unfolding apply_all lookup insert without waiters_of
program = tt

abbrev ops : List Op
ops = caller_joins "a" ∷ caller_joins "a" ∷ caller_joins "b" ∷ caller_leaves "b" 1 true ∷ []

flights_run-IsCounted_example : IsCounted (apply_all ops start)
flights_run-IsCounted_example = flights_run-IsCounted ops

still_open : (apply_all ops start).coordinator.closed ≡ false
unfolding program
still_open = refl

two_waiters : waiters_of "a" 0 (apply_all ops start).waiting ≡ 2
unfolding program
two_waiters = refl

-- the last waiter of a population that is not done cancels it
cancelled_once :
    (apply_all
      (caller_joins "a"
        ∷ caller_joins "a"
        ∷ caller_leaves "a" 0 false
        ∷ caller_leaves "a" 0 false
        ∷ [])
      start).coordinator.cancelled
    ≡ 0 ∷ []
unfolding program
cancelled_once = refl

some_waiters : 0 < waiters_of "a" 0 (apply_all ops start).waiting
some_waiters = omega (arith, two_waiters)

flights_run_shared_example : ◌≡◌ {A = ℕ} 0 0
flights_run_shared_example = flights_run_shared ops "a" 0 0 still_open some_waiters some_waiters
