-- ===== src/Flights/Shared.antt =====
-- The waiters of one key, after any steps.
use penampakan.Base.{ℕ, ◌<◌, ◌≡◌, refl, String, false, List, [], ◌∷◌, arith}
use penampakan.Base.Dict.{lookup}
use penampakan.Flights.{idle}
use penampakan.Flights.World.{
  World, Op, caller_joins, caller_leaves, coordinator_closes, waiters_of, apply, apply_all,
  IsCounted,
}
use penampakan.Flights.Waiters.{join-IsCounted, leave-IsCounted, close-IsCounted}

apply-IsCounted : (o : Op) (w : World) → IsCounted w → IsCounted (apply o w)
apply-IsCounted (caller_joins key) w v = join-IsCounted key w v
apply-IsCounted (caller_leaves key future done) w v = leave-IsCounted key future done w v
apply-IsCounted coordinator_closes w v = close-IsCounted w v

apply_all-keeps : (ops : List Op) (w : World) → IsCounted w → IsCounted (apply_all ops w)
unfolding apply_all
apply_all-keeps [] w v = v
apply_all-keeps (o ∷ ops) w v = apply_all-keeps ops (apply o w) (apply-IsCounted o w v)

abbrev pub start : World
start = record { coordinator = idle; waiting = [] }

start-IsCounted : IsCounted start
unfolding waiters_of lookup
start-IsCounted = record { counts = λ _ j i. refl; live = λ _ j. tt }

-- After any interleaving of callers that join and leave, an open coordinator counts exactly the
-- callers that wait for each future of each key, and every flight that it holds has a waiter.
pub flights_run-IsCounted : (ops : List Op) → IsCounted (apply_all ops start)
flights_run-IsCounted ops = apply_all-keeps ops start start-IsCounted

shared :
    (w : World) (key : String) (i j : ℕ)
    → IsCounted w
    → w.coordinator.closed ≡ false
    → 0 < waiters_of key i w.waiting
    → 0 < waiters_of key j w.waiting
    → i ≡ j
shared w key i j v open_now hi hj = ground (arith, v.counts open_now key i, v.counts open_now key j)

-- While the coordinator is open, all callers that wait for one key wait for one future.
pub flights_run_shared :
    (ops : List Op) (key : String) (i j : ℕ)
    → (apply_all ops start).coordinator.closed ≡ false
    → 0 < waiters_of key i (apply_all ops start).waiting
    → 0 < waiters_of key j (apply_all ops start).waiting
    → i ≡ j
flights_run_shared ops key i j = shared (apply_all ops start) key i j (flights_run-IsCounted ops)
