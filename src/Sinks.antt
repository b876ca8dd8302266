-- ===== src/Sinks.antt =====
-- src/penampakan/trace_sinks/memory.py: the trace events of the latest runs. A method runs under the
-- object's lock, so it is one step on the state. A run's identifier is a text, the reading of the clock
-- an argument.
mod Emit
mod Views
mod Counts
mod Bounds
mod Trimmed
mod Evicted
mod Steps
mod Runs
mod Totals
mod Tests
use penampakan.Base.{
  ℕ, zero, suc, ◌+◌, String, Bool, true, false, not, ◌&&◌, ◌||◌, Option, none, some, List, [], ◌∷◌,
  ◌++◌, length, ◌==◌, ltb, str_eq, if◌then◌else◌,
}
use penampakan.Base.Int.{ℤ, pos}
use penampakan.Base.Floats.{Floats, Arg, boolean, integer, real, other}
use penampakan.Base.Errors.{type_error, value_error}
use penampakan.Base.Result.{Result, ok, raised, ◌>>=◌, ◌>>◌}
use penampakan.Base.Exec.{Exec}
use penampakan.Base.Dict.{Dict, lookup, without, insert}
use penampakan.Models.{JsonDict}

-- `TraceEvent` of models.py, what is not read here as one mapping
pub record TraceEvent (F : Floats) : Type 0 where
  pub schema_version : ℕ
  pub trace_id : String
  pub event_type : String
  pub content : JsonDict F

-- `_ActiveRun`
pub record ActiveRun (F : Floats) : Type 0 where
  pub events : List (TraceEvent F)
  pub last_seen : F.Float
  pub truncated : Bool

-- `_CompletedRun`
pub record CompletedRun (F : Floats) : Type 0 where
  pub events : List (TraceEvent F)
  pub truncated : Bool

-- the counters of `InMemoryTraceSink`
pub record Losses : Type 0 where
  pub truncated_runs : ℕ
  pub dropped_events : ℕ
  pub evicted_runs : ℕ
  pub evicted_events : ℕ
  pub expired_active_runs : ℕ
  pub overflowed_active_runs : ℕ
  pub closed_active_runs : ℕ
  pub post_close_emits : ℕ
  pub unsupported_schema_events : ℕ
  pub duplicate_terminal_events : ℕ

-- `InMemoryTraceSink`
pub record MemorySink (F : Floats) : Type 0 where
  pub max_runs : ℕ
  pub max_events_per_run : Option ℕ
  pub max_active_runs : ℕ
  pub active_ttl_s : F.Float
  pub active : Dict (ActiveRun F)
  pub completed : Dict (CompletedRun F)
  pub closed : Bool
  pub losses : Losses
  pub open losses use *

abbrev no_losses : Losses
no_losses = record {
  truncated_runs = 0;
  dropped_events = 0;
  evicted_runs = 0;
  evicted_events = 0;
  expired_active_runs = 0;
  overflowed_active_runs = 0;
  closed_active_runs = 0;
  post_close_emits = 0;
  unsupported_schema_events = 0;
  duplicate_terminal_events = 0;
}

abbrev pub is_terminal : {F : Floats} → TraceEvent F → Bool
is_terminal e = str_eq e.event_type "run_finished" || str_eq e.event_type "run_failed"

abbrev pub is_known_schema : {F : Floats} → TraceEvent F → Bool
is_known_schema e = e.schema_version == 1 || e.schema_version == 2

-- `_positive_int`
unfoldable pub positive_int : {V : Type 0} → Arg V → Result ℕ
positive_int (integer (pos (suc n))) = ok (suc n)
positive_int (integer n) = raised value_error
positive_int x = raised type_error

module _ (F : Floats) where
  -- the test of `_now`
  finite_number : F.Float → Result F.Float
  finite_number x = if F.is_finite x then ok x else raised value_error

  -- `_now`
  unfoldable pub now_of : Arg F.Float → Result F.Float
  unfolding finite_number
  now_of (integer n) = finite_number (F.of_int n)
  now_of (real x) = finite_number x
  now_of (boolean b) = raised type_error
  now_of other = raised type_error

  -- `_positive_float`
  unfoldable pub positive_float : Arg F.Float → Result F.Float
  positive_float (integer n) =
      let x = F.of_int n in
      if not (F.is_finite x) || F.le x F.zero_float then raised value_error else ok x
  positive_float (real x) =
      if not (F.is_finite x) || F.le x F.zero_float then raised value_error else ok x
  positive_float (boolean b) = raised type_error
  positive_float other = raised type_error

-- the events a run may have, `None` for no limit
unfoldable pub event_limit : {V : Type 0} → Option (Arg V) → Result (Option ℕ)
unfolding positive_int
event_limit none = ok none
event_limit (some x) = positive_int x >>= λ n. ok (some n)

module _ {F : Floats} where
  -- the events of all runs
  abbrev pub active_events : Dict (ActiveRun F) → ℕ
  active_events [] = 0
  active_events ((id, run) ∷ d) = length run.events + active_events d

  abbrev pub completed_events : Dict (CompletedRun F) → ℕ
  completed_events [] = 0
  completed_events ((id, run) ∷ d) = length run.events + completed_events d

  -- what `__init__` sets
  abbrev pub new : ℕ → Option ℕ → ℕ → F.Float → MemorySink F
  new max_runs max_events_per_run max_active_runs active_ttl_s = record {
    max_runs = max_runs;
    max_events_per_run = max_events_per_run;
    max_active_runs = max_active_runs;
    active_ttl_s = active_ttl_s;
    active = [];
    completed = [];
    closed = false;
    losses = no_losses;
  }

  -- `__init__`
  unfoldable pub init :
      Arg F.Float → Option (Arg F.Float) → Arg F.Float → Arg F.Float → Result (MemorySink F)
  init max_runs max_events_per_run max_active_runs active_ttl_s = do
    runs ← positive_int max_runs
    events ← event_limit max_events_per_run
    active_runs ← positive_int max_active_runs
    ttl ← positive_float F active_ttl_s
    ok (new runs events active_runs ttl)

  -- the loop of `_expire_active` over the runs
  unfoldable pub expire_loop : F.Float → Dict (ActiveRun F) → MemorySink F → MemorySink F
  expire_loop now [] s = record s { active = [] }
  expire_loop now ((id, run) ∷ d) s =
      let t = expire_loop now d s in
      if F.le s.active_ttl_s (F.sub now run.last_seen)
      then record t {
        losses = record t.losses {
          expired_active_runs = t.expired_active_runs + 1;
          dropped_events = t.dropped_events + length run.events;
        };
      }
      else record t { active = (id, run) ∷ t.active }

  -- `_expire_active`
  unfoldable pub expire_active : F.Float → MemorySink F → MemorySink F
  unfolding expire_loop
  expire_active now s = expire_loop now s.active s
