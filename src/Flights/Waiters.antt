-- ===== src/Flights/Waiters.antt =====
-- The count of the waiters after each step.
use penampakan.Base.{
  ℕ, suc, ◌-◌, ◌<◌, ◌≡◌, refl, String, Bool, false, ◌&&◌, Option, none, some, List, [], ◌∷◌, ◌==◌,
  str_eq, if◌then◌else◌, arith, eq_iff, Bool-cases, Option-cases, inl, inr,
}
use penampakan.Base.Result.{Result-cases}
use penampakan.Base.Dict.{Dict, lookup, without, insert, lookup-insert, lookup-without}
use penampakan.Cache.{validate_key}
use penampakan.Flights.{Flight, Coordinator, add_waiter, release}
use penampakan.Flights.World.{
  World, caller_joins, caller_leaves, coordinator_closes, is_wait, waiters_of, stop_waiting,
  after_join, apply, IsLive, IsCounted,
}

waiters_of-stop_waiting :
    (key j : String) (future i : ℕ) (xs : List (String × ℕ))
    → 0 < waiters_of key future xs
    → waiters_of j i (stop_waiting key future xs)
      ≡ waiters_of j i xs - (if str_eq key j && future == i then 1 else 0)
unfolding waiters_of stop_waiting
waiters_of-stop_waiting key j future i [] h = absurd (omega arith)
waiters_of-stop_waiting key j future i (x ∷ xs) h = elim (Bool-cases (is_wait key future x)) [
  | inl e ↦ ground (arith, e, eq_iff x.0 key, eq_iff x.0 j, eq_iff key j)
  | inr e ↦ ground (
    arith,
    e,
    eq_iff x.0 key,
    eq_iff x.0 j,
    eq_iff key j,
    waiters_of-stop_waiting key j future i xs (ground (arith, e)),
  )
]

IsLive-suc : (n : ℕ) (o : Option Flight) → IsLive n o → IsLive (suc n) o
IsLive-suc n none h = tt
IsLive-suc n (some f) h = (omega (arith, h.0), h.1)

-- every flight of some flights is live
abbrev AllLive : ℕ → Dict Flight → Type 0
AllLive next flights = (key : String) → IsLive next (lookup key flights)

AllLive-insert :
    (next : ℕ) (key : String) (f : Flight) (flights : Dict Flight)
    → f.future < next
    → 0 < f.waiters
    → AllLive next flights
    → AllLive next (insert key f flights)
AllLive-insert next key f flights lt positive live j =
    rw (lookup-insert key j f flights)
      (elim (Bool-cases (str_eq key j)) [ inl e ↦ rw e (lt, positive) | inr e ↦ rw e (live j) ])

AllLive-without :
    (next : ℕ) (key : String) (flights : Dict Flight)
    → AllLive next flights
    → AllLive next (without key flights)
AllLive-without next key flights live j =
    rw (lookup-without key j flights)
      (elim (Bool-cases (str_eq key j)) [ inl e ↦ rw e tt | inr e ↦ rw e (live j) ])

-- the state after a join of an open coordinator
joined : String → Option Flight → World → World
unfolding after_join add_waiter
joined key found w = after_join key w.waiting (add_waiter key found w.coordinator)

joined-IsCounted :
    (key : String) (w : World) (found : Option Flight)
    → IsCounted w
    → w.coordinator.closed ≡ false
    → lookup key w.coordinator.flights ≡ found
    → IsCounted (joined key found w)
unfolding joined waiters_of
joined-IsCounted key w none v open_now h = record {
  counts = λ _ j i. ground (
    arith,
    v.counts open_now j i,
    v.live open_now j,
    h,
    eq_iff key j,
    lookup-insert key j (record { future = w.coordinator.next_future; waiters = 1 })
        w.coordinator.flights,
  );
  live = λ _.
      AllLive-insert (suc w.coordinator.next_future) key
        (record { future = w.coordinator.next_future; waiters = 1 }) w.coordinator.flights
        (omega arith) (omega arith)
        (λ j.
          IsLive-suc w.coordinator.next_future (lookup j w.coordinator.flights)
            (v.live open_now j));
}
joined-IsCounted key w (some f) v open_now h =
    let live : IsLive w.coordinator.next_future (some f) = rw h at (v.live open_now key) in
    record {
      counts = λ _ j i. ground (
        arith,
        v.counts open_now j i,
        h,
        eq_iff key j,
        lookup-insert key j (record f { waiters = suc f.waiters }) w.coordinator.flights,
      );
      live = λ _.
          AllLive-insert w.coordinator.next_future key (record f { waiters = suc f.waiters })
            w.coordinator.flights live.0 (omega arith) (v.live open_now);
    }

pub join-IsCounted :
    (key : String) (w : World) → IsCounted w → IsCounted (apply (caller_joins key) w)
unfolding apply joined
join-IsCounted key w v = elim (Result-cases (validate_key key)) [
  | inr (e, bad) ↦ let same : apply (caller_joins key) w ≡ w = ground (arith, bad) in rw same v
  | inl (k, good) ↦ elim (Bool-cases w.coordinator.closed) [
    | inl closed ↦
        let same : apply (caller_joins key) w ≡ w = ground (arith, good, closed) in rw same v
    | inr open_now ↦
        let found : Option Flight = lookup key w.coordinator.flights in
        let same : apply (caller_joins key) w ≡ joined key found w =
          ground (arith, good, open_now) in
        rw same (joined-IsCounted key w found v open_now refl)
  ]
]

release_closed :
    (key : String) (future : ℕ) (done : Bool) (c : Coordinator)
    → (release key future done c).closed ≡ c.closed
unfolding release
release_closed key future done c = ground arith

-- the state after a caller that waits has left
left : String → ℕ → Bool → World → World
left key future done w = record {
  coordinator = release key future done w.coordinator;
  waiting = stop_waiting key future w.waiting;
}

left-IsCounted :
    (key : String) (future : ℕ) (done : Bool) (w : World) (f : Flight)
    → IsCounted w
    → w.coordinator.closed ≡ false
    → 0 < waiters_of key future w.waiting
    → lookup key w.coordinator.flights ≡ some f
    → IsCounted (left key future done w)
unfolding left release
left-IsCounted key future done w f v open_now waits h =
    let live : IsLive w.coordinator.next_future (some f) = rw h at (v.live open_now key) in
    let same : f.future ≡ future = ground (arith, v.counts open_now key future, h) in
    elim (Bool-cases (f.waiters - 1 == 0)) [
      | inl last ↦
          let step : left key future done w ≡ record {
            coordinator = record w.coordinator {
              flights = without key w.coordinator.flights;
              cancelled =
                  if done then w.coordinator.cancelled else future ∷ w.coordinator.cancelled;
            };
            waiting = stop_waiting key future w.waiting;
          } =
            ground (arith, h, same, last) in
          rw step (record {
            counts = λ _ j i. ground (
              arith,
              v.counts open_now j i,
              v.counts open_now key future,
              h,
              same,
              last,
              live.1,
              eq_iff key j,
              lookup-without key j w.coordinator.flights,
              waiters_of-stop_waiting key j future i w.waiting waits,
            );
            live = λ _.
                AllLive-without w.coordinator.next_future key w.coordinator.flights
                  (v.live open_now);
          })
      | inr more ↦
          let fewer : Flight = record f { waiters = f.waiters - 1 } in
          let step : left key future done w ≡ record {
            coordinator = record w.coordinator { flights = insert key fewer w.coordinator.flights };
            waiting = stop_waiting key future w.waiting;
          } =
            ground (arith, h, same, more) in
          rw step (record {
            counts = λ _ j i. ground (
              arith,
              v.counts open_now j i,
              v.counts open_now key future,
              h,
              same,
              eq_iff key j,
              lookup-insert key j fewer w.coordinator.flights,
              waiters_of-stop_waiting key j future i w.waiting waits,
            );
            live = λ _.
                AllLive-insert w.coordinator.next_future key fewer w.coordinator.flights live.0
                  (ground arith) (v.live open_now);
          })
    ]

pub leave-IsCounted :
    (key : String) (future : ℕ) (done : Bool) (w : World)
    → IsCounted w
    → IsCounted (apply (caller_leaves key future done) w)
unfolding apply left
leave-IsCounted key future done w v = elim (Bool-cases (waiters_of key future w.waiting == 0)) [
  | inl nobody ↦ rw (nobody, apply) v
  | inr somebody ↦
      let step : apply (caller_leaves key future done) w ≡ left key future done w =
        ground (arith, somebody) in
      elim (Bool-cases w.coordinator.closed) [
        | inl closed ↦ rw step (record {
          counts = λ h. absurd (ground (arith, release_closed key future done w.coordinator));
          live = λ h. absurd (ground (arith, release_closed key future done w.coordinator));
        })
        | inr open_now ↦ elim (Option-cases (lookup key w.coordinator.flights)) [
          | inl no_flight ↦
              absurd (ground (arith, v.counts open_now key future, no_flight, somebody))
          | inr (f, h) ↦ rw step (left-IsCounted key future done w f v open_now (ground arith) h)
        ]
      ]
]

pub close-IsCounted : (w : World) → IsCounted w → IsCounted (apply coordinator_closes w)
unfolding apply
close-IsCounted w v = record {
  counts = λ h. absurd (ground arith);
  live = λ h. absurd (ground arith);
}
