-- ===== src/Flights.antt =====
-- `SingleFlightCoordinator` of src/penampakan/perception/cache.py: one population for each key, shared
-- by its waiters. A future is a number; what it computes is the caller's. `run` is two steps under the
-- lock with a wait between them, so callers interleave: it joins a flight, and later it releases it.
pub mod World
mod Waiters
mod Shared
mod Tests
use penampakan.Base.{
  ℕ, suc, ◌+◌, ◌-◌, String, Bool, true, false, ◌&&◌, Option, none, some, List, [], ◌∷◌, ◌++◌, map,
  ◌==◌, ltb, str_eq, if◌then◌else◌,
}
use penampakan.Base.Errors.{runtime_error}
use penampakan.Base.Result.{Result, ok, raised}
use penampakan.Base.Exec.{Exec, pure, lift, reject_when, ◌>>=◌, ◌>>◌}
use penampakan.Base.Dict.{Dict, lookup, without, insert}
use penampakan.Cache.{validate_key}

-- `_Flight`
pub record Flight : Type 0 where
  pub future : ℕ
  pub waiters : ℕ

-- `SingleFlightCoordinator`, with the number of the next future and the futures that were cancelled
pub record Coordinator : Type 0 where
  pub flights : Dict Flight
  pub closed : Bool
  pub next_future : ℕ
  pub cancelled : List ℕ

abbrev pub idle : Coordinator
idle = record { flights = []; closed = false; next_future = 0; cancelled = [] }

-- the flight of a key with one waiter more, from what `self._flights.get(key)` found
unfoldable pub add_waiter : String → Option Flight → Exec Coordinator ℕ
add_waiter key none c = (
  ok c.next_future,
  record c {
    flights = insert key (record { future = c.next_future; waiters = 1 }) c.flights;
    next_future = suc c.next_future;
  },
)
add_waiter key (some f) c = (
  ok f.future,
  record c { flights = insert key (record f { waiters = suc f.waiters }) c.flights },
)

-- the first part of `run`, up to the wait: the future that the caller waits for
unfoldable pub join_flight : String → Exec Coordinator ℕ
unfolding validate_key add_waiter
join_flight key = do
  valid ← lift (validate_key key)
  reject_when (λ c. c.closed) runtime_error
  λ c. add_waiter key (lookup key c.flights) c

-- the body of `_release` for the flight that was found; `done` is what `future.done()` says
unfoldable pub drop_waiter : String → ℕ → Bool → Option Flight → Coordinator → Coordinator
drop_waiter key future done none c = c
drop_waiter key future done (some f) c =
    let left = f.waiters - 1 in
    if f.future == future
    then if left == 0
      then record c {
        flights = without key c.flights;
        cancelled = if done then c.cancelled else future ∷ c.cancelled;
      }
      else record c { flights = insert key (record f { waiters = left }) c.flights }
    else c

-- `_release`, the last part of `run`
unfoldable pub release : String → ℕ → Bool → Coordinator → Coordinator
unfolding drop_waiter
release key future done c = drop_waiter key future done (lookup key c.flights) c

-- `aclose`
unfoldable pub close_flights : Coordinator → Coordinator
close_flights c = if c.closed then c else record c {
  flights = [];
  closed = true;
  cancelled = map (λ (x : String × Flight). x.1.future) c.flights ++ c.cancelled;
}
