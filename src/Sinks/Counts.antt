-- ===== src/Sinks/Counts.antt =====
-- The accounting of src/penampakan/trace_sinks/memory.py: where each event is.
use penampakan.Base.{
  ℕ, suc, ◌+◌, ◌≡◌, refl, ap, String, Option, none, some, List, [], ◌∷◌, ◌++◌, length,
  length-append, arith, ltb, str_eq, Bool-cases, inl, inr, eq_iff,
}
use penampakan.Base.Floats.{Floats}
use penampakan.Base.Dict.{Dict, IsUnique, lookup, without, without-Absent}
use penampakan.Sinks.{
  TraceEvent, ActiveRun, CompletedRun, MemorySink, is_terminal, active_events, completed_events,
  expire_loop,
}
use penampakan.Sinks.Emit.{replace_last, has_room, append_bounded, evict_oldest, bound_loop}

module _ {F : Floats} where
  -- the events of completed runs that are kept or were evicted, of active runs, and those dropped
  abbrev pub recorded : MemorySink F → ℕ
  recorded s =
      completed_events s.completed + active_events s.active + s.dropped_events + s.evicted_events

  -- the events that were not looked at
  abbrev pub ignored : MemorySink F → ℕ
  ignored s = s.post_close_emits + s.unsupported_schema_events + s.duplicate_terminal_events

  pub active_events-append :
      (d : Dict (ActiveRun F)) (id : String) (run : ActiveRun F)
      → active_events (d ++ (id, run) ∷ []) ≡ active_events d + length run.events
  active_events-append [] id run = omega arith
  active_events-append ((k, r) ∷ d) id run = omega (arith, active_events-append d id run)

  pub completed_events-append :
      (d : Dict (CompletedRun F)) (id : String) (run : CompletedRun F)
      → completed_events (d ++ (id, run) ∷ []) ≡ completed_events d + length run.events
  completed_events-append [] id run = omega arith
  completed_events-append ((k, r) ∷ d) id run = omega (arith, completed_events-append d id run)

  -- the events of a run that may be there
  abbrev pub events_at : Option (ActiveRun F) → ℕ
  events_at none = 0
  events_at (some run) = length run.events

  pub active_events-without :
      (id : String) (d : Dict (ActiveRun F))
      → IsUnique d
      → events_at (lookup id d) + active_events (without id d) ≡ active_events d
  unfolding lookup without
  active_events-without id [] u = refl
  active_events-without id ((k, r) ∷ d) u = elim (Bool-cases (str_eq k id)) [
    | inl e ↦
        let same : k ≡ id = ground (arith, eq_iff k id) in
        let gone : lookup id d ≡ none = rw same at (u.0) in
        rw e (rw (without-Absent id d gone) refl)
    | inr e ↦ rw e (omega (arith, active_events-without id d u.1))
  ]

  pub expire_loop-recorded :
      (now : F.Float) (d : Dict (ActiveRun F)) (s : MemorySink F)
      → (recorded (expire_loop now d s) + active_events s.active ≡ recorded s + active_events d)
        × (ignored (expire_loop now d s) ≡ ignored s)
        × ((expire_loop now d s).completed ≡ s.completed)
  unfolding expire_loop
  expire_loop-recorded now [] s = (omega arith, refl, refl)
  expire_loop-recorded now ((k, r) ∷ d) s =
      let (total, same, kept) = expire_loop-recorded now d s in
      elim (Bool-cases (F.le s.active_ttl_s (F.sub now r.last_seen))) [
        | inl e ↦ rw e (omega (arith, total), same, kept)
        | inr e ↦ rw e (omega (arith, total), same, kept)
      ]

  pub evict_oldest-recorded :
      (d : Dict (CompletedRun F)) (s : MemorySink F)
      → (recorded (evict_oldest d s) + completed_events s.completed
          ≡ recorded s + completed_events d)
        × (ignored (evict_oldest d s) ≡ ignored s)
  unfolding evict_oldest
  evict_oldest-recorded [] s = (omega arith, refl)
  evict_oldest-recorded ((k, r) ∷ d) s = elim (Bool-cases (ltb s.max_runs (suc (length d)))) [
    | inl e ↦
        let (total, same) = evict_oldest-recorded d (record s {
          losses = record s.losses {
            evicted_runs = s.evicted_runs + 1;
            evicted_events = s.evicted_events + length r.events;
          };
        }) in
        rw e (omega (arith, total), same)
    | inr e ↦ rw e (omega arith, refl)
  ]

  pub bound_loop-recorded :
      (d : Dict (ActiveRun F)) (s : MemorySink F)
      → (recorded (bound_loop d s) + active_events s.active ≡ recorded s + active_events d)
        × (ignored (bound_loop d s) ≡ ignored s)
  unfolding bound_loop
  bound_loop-recorded [] s = (omega arith, refl)
  bound_loop-recorded ((k, r) ∷ d) s = elim (Bool-cases (ltb s.max_active_runs (suc (length d)))) [
    | inl e ↦
        let (total, same) = bound_loop-recorded d (record s {
          losses = record s.losses {
            overflowed_active_runs = s.overflowed_active_runs + 1;
            dropped_events = s.dropped_events + length r.events;
          };
        }) in
        rw e (omega (arith, total), same)
    | inr e ↦ rw e (omega arith, refl)
  ]

  pub replace_last-length :
      (e : TraceEvent F) (es : List (TraceEvent F)) → length (replace_last e es) ≡ length es
  unfolding replace_last
  replace_last-length e [] = refl
  replace_last-length e (x ∷ []) = refl
  replace_last-length e (x ∷ y ∷ es) = ap suc (replace_last-length e (y ∷ es))

  pub append_bounded-length :
      (limit : Option ℕ) (run : ActiveRun F) (e : TraceEvent F)
      → length (append_bounded limit run e).0.events + (append_bounded limit run e).1
        ≡ length run.events + 1
  unfolding append_bounded
  append_bounded-length limit run e = elim (Bool-cases (has_room limit run)) [
    | inl room ↦ rw room (omega (arith, length-append run.events (e ∷ [])))
    | inr full ↦ elim (Bool-cases (is_terminal e)) [
      | inl last ↦ rw (full, last) (omega (arith, replace_last-length e run.events))
      | inr other ↦ rw (full, other) refl
    ]
  ]
