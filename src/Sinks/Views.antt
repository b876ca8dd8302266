-- ===== src/Sinks/Views.antt =====
-- The reports of src/penampakan/trace_sinks/memory.py, which expire active runs first.
use penampakan.Base.{ℕ, List, [], ◌∷◌, ◌++◌, length, if◌then◌else◌}
use penampakan.Base.Floats.{Floats, Arg}
use penampakan.Base.Result.{ok, raised}
use penampakan.Base.Exec.{Exec, gets, ◌>>◌}
use penampakan.Base.Dict.{Dict}
use penampakan.Sinks.{
  TraceEvent, CompletedRun, Losses, MemorySink, completed_events, now_of, expire_active,
}

-- `InMemoryTraceSinkStats`
pub record MemorySinkStats : Type 0 where
  pub completed_runs : ℕ
  pub active_runs : ℕ
  pub retained_events : ℕ
  pub counters : Losses

module _ {F : Floats} where
  -- `if not self._closed: self._expire_active(self._now())`
  unfoldable pub refresh : Arg F.Float → Exec (MemorySink F) (Unit {0})
  refresh clock s = if s.closed then (ok tt, s) else elim (now_of F clock) [
    | raised x ↦ (raised x, s)
    | ok now ↦ (ok tt, expire_active now s)
  ]

  -- `_stats`
  abbrev pub stats_now : MemorySink F → MemorySinkStats
  stats_now s = record {
    completed_runs = length s.completed;
    active_runs = length s.active;
    retained_events = completed_events s.completed;
    counters = s.losses;
  }

  -- `stats`
  unfoldable pub stats : Arg F.Float → Exec (MemorySink F) MemorySinkStats
  stats clock = refresh clock >> gets stats_now

  abbrev pub events_of : Dict (CompletedRun F) → List (TraceEvent F)
  events_of [] = []
  events_of ((id, run) ∷ d) = run.events ++ events_of d

  -- `events`
  unfoldable pub events : Arg F.Float → Exec (MemorySink F) (List (TraceEvent F))
  events clock = refresh clock >> gets (λ s. events_of s.completed)

  abbrev pub runs_of : Dict (CompletedRun F) → Dict (List (TraceEvent F))
  runs_of [] = []
  runs_of ((id, run) ∷ d) = (id, run.events) ∷ runs_of d

  -- `runs`
  unfoldable pub runs : Arg F.Float → Exec (MemorySink F) (Dict (List (TraceEvent F)))
  runs clock = refresh clock >> gets (λ s. runs_of s.completed)
