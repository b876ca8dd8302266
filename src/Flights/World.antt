-- ===== src/Flights/World.antt =====
-- The callers that wait, beside the coordinator's own count of them, and their steps.
use penampakan.Base.{
  ℕ, suc, ◌<◌, ◌≡◌, String, Bool, false, ◌&&◌, Option, none, some, List, [], ◌∷◌, ◌==◌, str_eq,
  if◌then◌else◌,
}
use penampakan.Base.Result.{Result, ok, raised}
use penampakan.Base.Dict.{lookup}
use penampakan.Flights.{Flight, Coordinator, join_flight, release, close_flights}

-- the coordinator, and the callers that wait: the key and the future of each
pub record World : Type 0 where
  pub coordinator : Coordinator
  pub waiting : List (String × ℕ)

pub data Op : Type 0 where
  caller_joins : String → Op
  caller_leaves : String → ℕ → Bool → Op
  coordinator_closes : Op

abbrev pub is_wait : String → ℕ → String × ℕ → Bool
is_wait key future x = str_eq x.0 key && x.1 == future

-- how many callers wait for a future of a key
unfoldable pub waiters_of : String → ℕ → List (String × ℕ) → ℕ
waiters_of key future [] = 0
waiters_of key future (x ∷ xs) =
    let rest = waiters_of key future xs in if is_wait key future x then suc rest else rest

unfoldable pub stop_waiting : String → ℕ → List (String × ℕ) → List (String × ℕ)
stop_waiting key future [] = []
stop_waiting key future (x ∷ xs) =
    let rest = stop_waiting key future xs in if is_wait key future x then xs else x ∷ rest

unfoldable pub after_join : String → List (String × ℕ) → Result ℕ × Coordinator → World
after_join key waiting (ok future, c) = record {
  coordinator = c;
  waiting = (key, future) ∷ waiting;
}
after_join key waiting (raised e, c) = record { coordinator = c; waiting = waiting }

-- One step: a caller joins, one that waits leaves, or the coordinator is closed.
unfoldable pub apply : Op → World → World
unfolding join_flight after_join waiters_of stop_waiting release close_flights
apply (caller_joins key) w = after_join key w.waiting (join_flight key w.coordinator)
apply (caller_leaves key future done) w =
    if waiters_of key future w.waiting == 0 then w else record {
      coordinator = release key future done w.coordinator;
      waiting = stop_waiting key future w.waiting;
    }
apply coordinator_closes w = record w { coordinator = close_flights w.coordinator }

unfoldable pub apply_all : List Op → World → World
unfolding apply
apply_all [] w = w
apply_all (o ∷ ops) w = apply_all ops (apply o w)

-- the waiters of a future that a key's flight counts
abbrev pub counted : ℕ → Option Flight → ℕ
counted future none = 0
counted future (some f) = if f.future == future then f.waiters else 0

abbrev pub IsLive : ℕ → Option Flight → Type 0
IsLive next none = Unit
IsLive next (some f) = (f.future < next) × (0 < f.waiters)

-- While the coordinator is open, it counts the waiters of each future of each key, and every flight
-- has one.
pub record IsCounted (w : World) : Type 0 where
  pub counts :
      w.coordinator.closed ≡ false
      → (key : String) (future : ℕ)
      → waiters_of key future w.waiting ≡ counted future (lookup key w.coordinator.flights)
  pub live :
      w.coordinator.closed ≡ false
      → (key : String) → IsLive w.coordinator.next_future (lookup key w.coordinator.flights)
