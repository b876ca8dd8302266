-- ===== src/Sinks/Steps.antt =====
-- `emit` of src/penampakan/trace_sinks/memory.py: its cases, and the limits it keeps.
use penampakan.Base.{
  ℕ, ◌+◌, ◌≡◌, refl, String, true, false, Option, none, some, [], ◌∷◌, ◌++◌, length, All,
  All-append, arith, Bool-cases, Option-cases, inl, inr, str_eq,
}
use penampakan.Base.Floats.{Floats, Arg}
use penampakan.Base.Errors.{Error}
use penampakan.Base.Result.{Result, ok, raised, Result-cases}
use penampakan.Base.Dict.{
  Dict, Absent, IsUnique-append_one, IsUnique-without, Absent-without_self, lookup, without,
}
use penampakan.Sinks.{
  Losses, TraceEvent, ActiveRun, MemorySink, is_terminal, is_known_schema, now_of, expire_active,
}
use penampakan.Sinks.Emit.{append_bounded, seen, record_event, admit, emit}
use penampakan.Sinks.Evicted.{complete-IsBounded}
use penampakan.Sinks.Trimmed.{bound_loop-IsTrimmed}
use penampakan.Sinks.Bounds.{
  Fits, ActiveFits, IsBounded, All-without, length-without, without-append_self,
  append_bounded-Fits,
}

module _ {F : Floats} where
  seen-Fits :
      (limit : Option ℕ) (now : F.Float) (id : String) (d : Dict (ActiveRun F))
      → All (ActiveFits limit) d
      → Fits limit (length (seen now (lookup id d)).events)
  unfolding seen lookup
  seen-Fits none now id d h = tt
  seen-Fits (some limit) now id [] h = omega arith
  seen-Fits (some limit) now id ((k, r) ∷ d) h = elim (Bool-cases (str_eq k id)) [
    | inl e ↦ rw (e, lookup, seen) h.0
    | inr e ↦ rw (e, lookup) (seen-Fits (some limit) now id d h.1)
  ]

  -- the sink with the event's run at the end of the active ones
  abbrev pub touched : F.Float → TraceEvent F → MemorySink F → MemorySink F
  touched now e s =
      let x = append_bounded s.max_events_per_run (seen now (lookup e.trace_id s.active)) e in
      record s {
        active = without e.trace_id s.active ++ (e.trace_id, x.0) ∷ [];
        losses = record s.losses { dropped_events = s.dropped_events + x.1 };
      }

  record_event-IsBounded :
      (now : F.Float) (e : TraceEvent F) (s : MemorySink F)
      → IsBounded s
      → s.closed ≡ false
      → Absent e.trace_id s.completed
      → IsBounded (record_event now e s)
  unfolding record_event
  record_event-IsBounded now e s h open_now fresh =
      let limit = s.max_events_per_run in
      let run = seen now (lookup e.trace_id s.active) in
      let x = append_bounded limit run e in
      let fits =
        append_bounded-Fits limit run e (seen-Fits limit now e.trace_id s.active h.active.1) in
      let gone = Absent-without_self e.trace_id s.active in
      let unique = IsUnique-without e.trace_id s.active h.active.0 in
      let rest = All-without limit e.trace_id s.active h.active.1 in
      let same = without-append_self e.trace_id x.0 (without e.trace_id s.active) gone in
      elim (Bool-cases (is_terminal e)) [
        | inl last ↦ rw last (
            complete-IsBounded e.trace_id x.0 (touched now e s) (rw same (unique, rest))
              (rw same (omega (arith, length-without e.trace_id s.active, h.few_active)))
              h.completed fresh fits open_now)
        | inr going ↦
            let t = touched now e s in
            let (w, few) = bound_loop-IsTrimmed t.active t in
            rw going (record {
              active = (
                w.unique
                    (IsUnique-append_one e.trace_id x.0 (without e.trace_id s.active) unique gone),
                rw w.max_events (
                    w.fits limit (
                      All-append (ActiveFits limit) (without e.trace_id s.active) _ rest
                        (fits, tt))),
              );
              completed = rw (w.completed, w.max_events) h.completed;
              few_active = rw w.max_active few;
              few_completed = rw (w.completed, w.max_runs) h.few_completed;
              released = λ c. absurd (ground (arith, w.closed, open_now));
            })
      ]

  -- the counters have no limit
  pub recount-IsBounded :
      (s : MemorySink F) (counters : Losses)
      → IsBounded s
      → IsBounded (record s { losses = counters })
  recount-IsBounded s counters h = record {
    active = h.active;
    completed = h.completed;
    few_active = h.few_active;
    few_completed = h.few_completed;
    released = h.released;
  }

  pub admit-IsBounded :
      (now : F.Float) (e : TraceEvent F) (s : MemorySink F)
      → IsBounded s
      → s.closed ≡ false
      → IsBounded (admit now e s)
  unfolding admit
  admit-IsBounded now e s h open_now = elim (Option-cases (lookup e.trace_id s.completed)) [
    | inl fresh ↦ rw (fresh, admit) (record_event-IsBounded now e s h open_now fresh)
    | inr (run, there) ↦ rw (there, admit) (recount-IsBounded s _ h)
  ]

  -- what an emission leaves in each case
  emit_late :
      (e : TraceEvent F) (clock : Arg F.Float) (s : MemorySink F)
      → s.closed ≡ true
      → emit e clock s ≡ (
        ok tt,
        record s { losses = record s.losses { post_close_emits = s.post_close_emits + 1 } },
      )
  unfolding emit
  emit_late e clock s closed = simp closed refl

  emit_strange :
      (e : TraceEvent F) (clock : Arg F.Float) (s : MemorySink F)
      → s.closed ≡ false
      → is_known_schema e ≡ false
      → emit e clock s ≡ (
        ok tt,
        record s {
          losses = record s.losses { unsupported_schema_events = s.unsupported_schema_events + 1 };
        },
      )
  unfolding emit
  emit_strange e clock s open_now strange = simp (open_now, strange) refl

  emit_failed :
      (e : TraceEvent F) (clock : Arg F.Float) (s : MemorySink F) (x : Error)
      → s.closed ≡ false
      → is_known_schema e ≡ true
      → now_of F clock ≡ raised x
      → emit e clock s ≡ (raised x, s)
  unfolding emit
  emit_failed e clock s x open_now known failed = simp (open_now, known, failed) refl

  emit_read :
      (e : TraceEvent F) (clock : Arg F.Float) (s : MemorySink F) (now : F.Float)
      → s.closed ≡ false
      → is_known_schema e ≡ true
      → now_of F clock ≡ ok now
      → emit e clock s ≡ (ok tt, admit now e (expire_active now s))
  unfolding emit
  emit_read e clock s now open_now known read = simp (open_now, known, read) refl

  -- the outcomes of an event
  pub emit_cases {ℓ} :
      (Q : Result (Unit {0}) × MemorySink F → Type ℓ) (e : TraceEvent F) (clock : Arg F.Float)
      (s : MemorySink F)
      → Q (
        ok tt,
        record s { losses = record s.losses { post_close_emits = s.post_close_emits + 1 } },
      )
      → Q (
        ok tt,
        record s {
          losses = record s.losses { unsupported_schema_events = s.unsupported_schema_events + 1 };
        },
      )
      → ((x : Error) → Q (raised x, s))
      → ((now : F.Float) → s.closed ≡ false → Q (ok tt, admit now e (expire_active now s)))
      → Q (emit e clock s)
  emit_cases Q e clock s late other bad good = elim (Bool-cases s.closed) [
    | inl closed ↦ rw (emit_late e clock s closed) late
    | inr open_now ↦ elim (Bool-cases (is_known_schema e)) [
      | inr strange ↦ rw (emit_strange e clock s open_now strange) other
      | inl known ↦ elim (Result-cases (now_of F clock)) [
        | inl (now, read) ↦ rw (emit_read e clock s now open_now known read) (good now open_now)
        | inr (x, failed) ↦ rw (emit_failed e clock s x open_now known failed) (bad x)
      ]
    ]
  ]
