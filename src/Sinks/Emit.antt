-- ===== src/Sinks/Emit.antt =====
-- What `emit` and `aclose` of src/penampakan/trace_sinks/memory.py do to the runs.
use penampakan.Base.{
  ℕ, ◌+◌, String, Bool, true, false, not, Option, none, some, List, [], ◌∷◌, ◌++◌, length, ltb,
  if◌then◌else◌,
}
use penampakan.Base.Floats.{Floats, Arg}
use penampakan.Base.Result.{ok, raised}
use penampakan.Base.Exec.{Exec}
use penampakan.Base.Dict.{Dict, lookup, without, insert}
use penampakan.Sinks.{
  TraceEvent, ActiveRun, CompletedRun, MemorySink, is_terminal, is_known_schema, active_events,
  now_of, expire_active,
}

module _ {F : Floats} where
  unfoldable pub replace_last : TraceEvent F → List (TraceEvent F) → List (TraceEvent F)
  replace_last e [] = []
  replace_last e (x ∷ []) = e ∷ []
  replace_last e (x ∷ y ∷ xs) = x ∷ replace_last e (y ∷ xs)

  -- `limit is None or len(run.events) < limit`
  abbrev pub has_room : Option ℕ → ActiveRun F → Bool
  has_room none run = true
  has_room (some limit) run = ltb (length run.events) limit

  -- `_append_bounded`: the run, and the number of events that were dropped
  unfoldable pub append_bounded : Option ℕ → ActiveRun F → TraceEvent F → ActiveRun F × ℕ
  unfolding replace_last
  append_bounded limit run e =
      let full = record run { truncated = true } in
      if has_room limit run
      then (record run { events = run.events ++ e ∷ [] }, 0)
      else if is_terminal e
      then (record full { events = replace_last e run.events }, 1)
      else (full, 1)

  -- the `while` loop of `_complete`: the oldest completed run leaves first
  unfoldable pub evict_oldest : Dict (CompletedRun F) → MemorySink F → MemorySink F
  evict_oldest [] s = record s { completed = [] }
  evict_oldest ((id, run) ∷ d) s =
      let rest = evict_oldest d (record s {
        losses = record s.losses {
          evicted_runs = s.evicted_runs + 1;
          evicted_events = s.evicted_events + length run.events;
        };
      }) in
      if ltb s.max_runs (length ((id, run) ∷ d))
      then rest
      else record s { completed = (id, run) ∷ d }

  -- `_complete`
  unfoldable pub complete : String → ActiveRun F → MemorySink F → MemorySink F
  unfolding evict_oldest insert without
  complete id run s =
      let counted = if run.truncated then s.truncated_runs + 1 else s.truncated_runs in
      evict_oldest
        (insert id (record { events = run.events; truncated = run.truncated }) s.completed)
        (record s {
          active = without id s.active;
          losses = record s.losses { truncated_runs = counted };
        })

  -- `_bound_active`: the run that was seen longest ago leaves first
  unfoldable pub bound_loop : Dict (ActiveRun F) → MemorySink F → MemorySink F
  bound_loop [] s = record s { active = [] }
  bound_loop ((id, run) ∷ d) s =
      let rest = bound_loop d (record s {
        losses = record s.losses {
          overflowed_active_runs = s.overflowed_active_runs + 1;
          dropped_events = s.dropped_events + length run.events;
        };
      }) in
      if ltb s.max_active_runs (length ((id, run) ∷ d))
      then rest
      else record s { active = (id, run) ∷ d }

  -- `self._active.get(event.trace_id)`, a new run where there is none, seen now
  unfoldable pub seen : F.Float → Option (ActiveRun F) → ActiveRun F
  seen now none = record { events = []; last_seen = now; truncated = false }
  seen now (some run) = record run { last_seen = now }

  -- the run's event, the run at the end of the active ones
  unfoldable pub record_event : F.Float → TraceEvent F → MemorySink F → MemorySink F
  record_event now e s =
      let (run, dropped) =
        append_bounded s.max_events_per_run (seen now (lookup e.trace_id s.active)) e in
      let t = record s {
        active = without e.trace_id s.active ++ (e.trace_id, run) ∷ [];
        losses = record s.losses { dropped_events = s.dropped_events + dropped };
      } in
      if is_terminal e then complete e.trace_id run t else bound_loop t.active t

  -- `emit` of an open sink, after the schema test
  unfoldable pub admit : F.Float → TraceEvent F → MemorySink F → MemorySink F
  admit now e s = elim (lookup e.trace_id s.completed) [
    | none ↦ record_event now e s
    | some run ↦ record s {
      losses = record s.losses { duplicate_terminal_events = s.duplicate_terminal_events + 1 };
    }
  ]

  -- `emit`
  unfoldable pub emit : TraceEvent F → Arg F.Float → Exec (MemorySink F) (Unit {0})
  emit e clock s =
      if s.closed
      then (
        ok tt,
        record s { losses = record s.losses { post_close_emits = s.post_close_emits + 1 } },
      )
      else if not (is_known_schema e)
      then (
        ok tt,
        record s {
          losses = record s.losses { unsupported_schema_events = s.unsupported_schema_events + 1 };
        },
      )
      else elim (now_of F clock) [
        | raised x ↦ (raised x, s)
        | ok now ↦ (ok tt, admit now e (expire_active now s))
      ]

  -- `aclose`
  unfoldable pub aclose : Exec (MemorySink F) (Unit {0})
  aclose s = if s.closed then (ok tt, s) else (
    ok tt,
    record s {
      closed = true;
      active = [];
      losses = record s.losses {
        closed_active_runs = s.closed_active_runs + length s.active;
        dropped_events = s.dropped_events + active_events s.active;
      };
    },
  )
