-- ===== src/Sinks/Totals.antt =====
-- Each event that src/penampakan/trace_sinks/memory.py is offered is accounted for.
use penampakan.Base.{
  ◌+◌, ◌≡◌, refl, String, Option, none, some, length, arith, if◌then◌else◌, Bool-cases,
  Option-cases, inl, inr,
}
use penampakan.Base.Floats.{Floats, Arg}
use penampakan.Base.Result.{Result, ok, raised}
use penampakan.Base.Dict.{
  Absent, IsUnique, lookup, without, insert, insert-Absent, Absent-without_self,
}
use penampakan.Sinks.{
  TraceEvent, ActiveRun, CompletedRun, MemorySink, is_terminal, active_events, completed_events,
  expire_active,
}
use penampakan.Sinks.Emit.{append_bounded, complete, seen, record_event, admit, emit}
use penampakan.Sinks.Counts.{
  recorded, ignored, events_at, active_events-append, completed_events-append,
  active_events-without, expire_loop-recorded, evict_oldest-recorded, bound_loop-recorded,
  append_bounded-length,
}
use penampakan.Sinks.Evicted.{expire_active-IsBounded}
use penampakan.Sinks.Bounds.{IsBounded, without-append_self}
use penampakan.Sinks.Steps.{touched, emit_cases}

module _ {F : Floats} where
  seen-events :
      (now : F.Float) (found : Option (ActiveRun F))
      → length (seen now found).events ≡ events_at found
  unfolding seen
  seen-events now none = refl
  seen-events now (some run) = refl

  touched-recorded :
      (now : F.Float) (e : TraceEvent F) (s : MemorySink F)
      → IsUnique s.active
      → recorded (touched now e s) ≡ recorded s + 1
  touched-recorded now e s unique =
      let run = seen now (lookup e.trace_id s.active) in
      let x = append_bounded s.max_events_per_run run e in
      omega (
        arith,
        append_bounded-length s.max_events_per_run run e,
        active_events-append (without e.trace_id s.active) e.trace_id x.0,
        active_events-without e.trace_id s.active unique,
        seen-events now (lookup e.trace_id s.active),
      )

  complete-recorded :
      (id : String) (run : ActiveRun F) (s : MemorySink F)
      → Absent id s.completed
      → (recorded (complete id run s) + active_events s.active
          ≡ recorded s + active_events (without id s.active) + length run.events)
        × (ignored (complete id run s) ≡ ignored s)
  unfolding complete
  complete-recorded id run s fresh =
      let done : CompletedRun F = record { events = run.events; truncated = run.truncated } in
      let counted = if run.truncated then s.truncated_runs + 1 else s.truncated_runs in
      let start : MemorySink F = record s {
        active = without id s.active;
        losses = record s.losses { truncated_runs = counted };
      } in
      let (total, same) = evict_oldest-recorded (insert id done s.completed) start in
      let grown = insert-Absent id done s.completed fresh in
      let more : completed_events (insert id done s.completed)
          ≡ completed_events s.completed + length run.events =
        rw grown (completed_events-append s.completed id done) in
      (omega (arith, total, more), same)

  record_event-recorded :
      (now : F.Float) (e : TraceEvent F) (s : MemorySink F)
      → IsUnique s.active
      → Absent e.trace_id s.completed
      → (recorded (record_event now e s) ≡ recorded s + 1)
        × (ignored (record_event now e s) ≡ ignored s)
  unfolding record_event
  record_event-recorded now e s unique fresh =
      let t = touched now e s in
      let x = append_bounded s.max_events_per_run (seen now (lookup e.trace_id s.active)) e in
      let one = touched-recorded now e s unique in
      let gone = Absent-without_self e.trace_id s.active in
      let same = without-append_self e.trace_id x.0 (without e.trace_id s.active) gone in
      let grown = active_events-append (without e.trace_id s.active) e.trace_id x.0 in
      elim (Bool-cases (is_terminal e)) [
        | inl last ↦
            let (total, kept) = complete-recorded e.trace_id x.0 t fresh in
            let total_now = rw same at total in rw last (omega (arith, total_now, one, grown), kept)
        | inr going ↦
            let (total, kept) = bound_loop-recorded t.active t in
            rw going (omega (arith, total, one), kept)
      ]

  admit-recorded :
      (now : F.Float) (e : TraceEvent F) (s : MemorySink F)
      → IsUnique s.active
      → recorded (admit now e s) + ignored (admit now e s) ≡ recorded s + ignored s + 1
  unfolding admit
  admit-recorded now e s unique = elim (Option-cases (lookup e.trace_id s.completed)) [
    | inl fresh ↦
        let (total, same) = record_event-recorded now e s unique fresh in
        rw (fresh, admit) (omega (arith, total, same))
    | inr (run, there) ↦ rw (there, admit) (omega arith)
  ]

  expire_active-recorded :
      (now : F.Float) (s : MemorySink F)
      → (recorded (expire_active now s) ≡ recorded s) × (ignored (expire_active now s) ≡ ignored s)
  unfolding expire_active
  expire_active-recorded now s =
      let (total, same, _) = expire_loop-recorded now s.active s in (omega (arith, total), same)

  -- the counts after a call that returned, and after one that raised
  abbrev pub Counted : MemorySink F → Result (Unit {0}) × MemorySink F → Type 0
  Counted s (ok _, t) = recorded t + ignored t ≡ recorded s + ignored s + 1
  Counted s (raised x, t) = t ≡ s

  -- For a sink within its limits, an emission that returns makes the number of events it accounts for
  -- (kept in completed runs, held in active ones, dropped, evicted or ignored) greater by exactly one,
  -- and an emission that raises leaves the sink as it was.
  pub emit-Counted :
      (e : TraceEvent F) (clock : Arg F.Float) (s : MemorySink F)
      → IsBounded s
      → Counted s (emit e clock s)
  emit-Counted e clock s h =
      emit_cases (Counted s) e clock s (omega arith) (omega arith) (λ x. refl)
        (λ now open_now.
          let (trimmed, _) = expire_active-IsBounded now s h open_now in
          let (total, same) = expire_active-recorded now s in
          let counts = admit-recorded now e (expire_active now s) trimmed.active.0 in
          omega (arith, counts, total, same))
