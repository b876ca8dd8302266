-- ===== src/Sinks/Runs.antt =====
-- Sequences of calls on a memory sink of src/penampakan/trace_sinks/memory.py.
use penampakan.Base.{ℕ, ◌≡◌, refl, true, false, Option, List, [], ◌∷◌, arith, Bool-cases, inl, inr}
use penampakan.Base.Floats.{Floats, Arg}
use penampakan.Base.Errors.{Error}
use penampakan.Base.Result.{ok, raised, Result-cases, >>=-eq-ok, ok-injective}
use penampakan.Sinks.{
  TraceEvent, MemorySink, new, init, positive_int, event_limit, positive_float, now_of,
  expire_active,
}
use penampakan.Sinks.Emit.{emit, aclose}
use penampakan.Base.Exec.{gets, ◌>>◌}
use penampakan.Sinks.Views.{refresh, stats_now, stats, events_of, events, runs_of, runs}
use penampakan.Sinks.Evicted.{expire_active-IsBounded}
use penampakan.Sinks.Bounds.{IsBounded}
use penampakan.Sinks.Steps.{recount-IsBounded, admit-IsBounded, emit_cases}

-- A call that changes the sink.
pub data Op (F : Floats) : Type 0 where
  op_emit : TraceEvent F → Arg F.Float → Op F
  op_close : Op F
  op_stats : Arg F.Float → Op F
  op_events : Arg F.Float → Op F
  op_runs : Arg F.Float → Op F

module _ {F : Floats} where
  emit-IsBounded :
      (e : TraceEvent F) (clock : Arg F.Float) (s : MemorySink F)
      → IsBounded s
      → IsBounded (emit e clock s).1
  emit-IsBounded e clock s h =
      emit_cases (λ r. IsBounded r.1) e clock s (recount-IsBounded s _ h) (recount-IsBounded s _ h)
        (λ x. h)
        (λ now open_now.
          let (trimmed, still) = expire_active-IsBounded now s h open_now in
          admit-IsBounded now e (expire_active now s) trimmed still)

  aclose_again : (s : MemorySink F) → s.closed ≡ true → aclose s ≡ (ok tt, s)
  unfolding aclose
  aclose_again s closed = simp closed refl

  aclose-IsBounded : (s : MemorySink F) → IsBounded s → IsBounded (aclose s).1
  unfolding aclose
  aclose-IsBounded s h = elim (Bool-cases s.closed) [
    | inl closed ↦ rw (aclose_again s closed) h
    | inr open_now ↦ rw open_now (record {
      active = (tt, tt);
      completed = h.completed;
      few_active = omega arith;
      few_completed = h.few_completed;
      released = λ c. refl;
    })
  ]

  new-IsBounded :
      (most_runs : ℕ) (limit : Option ℕ) (most_active : ℕ) (ttl : F.Float)
      → IsBounded (new {F = F} most_runs limit most_active ttl)
  new-IsBounded most_runs limit most_active ttl = record {
    active = (tt, tt);
    completed = (tt, tt);
    few_active = omega arith;
    few_completed = omega arith;
    released = λ c. refl;
  }

  refresh_again :
      (clock : Arg F.Float) (s : MemorySink F) → s.closed ≡ true → refresh clock s ≡ (ok tt, s)
  unfolding refresh
  refresh_again clock s closed = simp closed refl

  refresh_failed :
      (clock : Arg F.Float) (s : MemorySink F) (x : Error)
      → s.closed ≡ false
      → now_of F clock ≡ raised x
      → refresh clock s ≡ (raised x, s)
  unfolding refresh now_of
  refresh_failed clock s x open_now failed = simp (open_now, failed) refl

  refresh_read :
      (clock : Arg F.Float) (s : MemorySink F) (now : F.Float)
      → s.closed ≡ false
      → now_of F clock ≡ ok now
      → refresh clock s ≡ (ok tt, expire_active now s)
  unfolding refresh now_of
  refresh_read clock s now open_now read = simp (open_now, read) refl

  -- a report leaves what the expiration before it left
  report-IsBounded :
      {A : Type 0} (clock : Arg F.Float) (report : MemorySink F → A) (s : MemorySink F)
      → IsBounded s
      → IsBounded ((refresh clock >> gets report) s).1
  report-IsBounded clock report s h = elim (Bool-cases s.closed) [
    | inl closed ↦ rw (refresh_again clock s closed) h
    | inr open_now ↦ elim (Result-cases (now_of F clock)) [
      | inl (now, read) ↦
          rw (refresh_read clock s now open_now read) (expire_active-IsBounded now s h open_now).0
      | inr (x, failed) ↦ rw (refresh_failed clock s x open_now failed) h
    ]
  ]

  abbrev pub apply : Op F → MemorySink F → MemorySink F
  apply (op_emit e clock) s = (emit e clock s).1
  apply op_close s = (aclose s).1
  apply (op_stats clock) s = (stats clock s).1
  apply (op_events clock) s = (events clock s).1
  apply (op_runs clock) s = (runs clock s).1

  unfoldable pub apply_all : List (Op F) → MemorySink F → MemorySink F
  apply_all [] s = s
  apply_all (x ∷ xs) s = apply_all xs (apply x s)

  apply_all-IsBounded :
      (xs : List (Op F)) (s : MemorySink F) → IsBounded s → IsBounded (apply_all xs s)
  unfolding apply_all stats events runs
  apply_all-IsBounded [] s h = h
  apply_all-IsBounded (op_emit e clock ∷ xs) s h =
      apply_all-IsBounded xs _ (emit-IsBounded e clock s h)
  apply_all-IsBounded (op_close ∷ xs) s h = apply_all-IsBounded xs _ (aclose-IsBounded s h)
  apply_all-IsBounded (op_stats clock ∷ xs) s h =
      apply_all-IsBounded xs _ (report-IsBounded clock stats_now s h)
  apply_all-IsBounded (op_events clock ∷ xs) s h =
      apply_all-IsBounded xs _ (report-IsBounded clock (λ t. events_of t.completed) s h)
  apply_all-IsBounded (op_runs clock ∷ xs) s h =
      apply_all-IsBounded xs _ (report-IsBounded clock (λ t. runs_of t.completed) s h)

  init-IsBounded :
      (max_runs : Arg F.Float) (max_events : Option (Arg F.Float)) (max_active ttl : Arg F.Float)
      {s : MemorySink F}
      → init max_runs max_events max_active ttl ≡ ok s
      → IsBounded s
  unfolding init
  init-IsBounded max_runs max_events max_active ttl made =
      let (a, _, made_a) = >>=-eq-ok (positive_int max_runs) _ made in
      let (b, _, made_b) = >>=-eq-ok (event_limit max_events) _ made_a in
      let (c, _, made_c) = >>=-eq-ok (positive_int max_active) _ made_b in
      let (d, _, made_d) = >>=-eq-ok (positive_float F ttl) _ made_c in
      rw⁻¹ (ok-injective made_d) (new-IsBounded a b c d)

  -- After any emissions, reports and closings of a memory sink that was made, no run stands twice among the
  -- active or the completed runs, there are at most `max_active_runs` and `max_runs` of them, no run
  -- has more events than `max_events_per_run` where there is that limit, and a closed sink has no
  -- active run.
  pub sink_run-IsBounded :
      (xs : List (Op F)) (max_runs : Arg F.Float) (max_events : Option (Arg F.Float))
      (max_active ttl : Arg F.Float) {s : MemorySink F}
      → init max_runs max_events max_active ttl ≡ ok s
      → IsBounded (apply_all xs s)
  sink_run-IsBounded xs max_runs max_events max_active ttl {s} made =
      apply_all-IsBounded xs s (init-IsBounded max_runs max_events max_active ttl made)
