-- ===== src/Sinks/Tests.antt =====
-- A sink of two runs with two events each, and the theorems on memory sinks at it.
use penampakan.Base.{◌≡◌, refl, String, none, some, List, [], ◌∷◌}
use penampakan.Base.Int.{pos}
use penampakan.Base.Floats.{integer, other}
use penampakan.Base.Ticks.{ticks}
use penampakan.Base.Errors.{value_error}
use penampakan.Base.Result.{ok, raised}
use penampakan.Base.Dict.{lookup, insert, without}
use penampakan.Models.{dict_end}
use penampakan.Sinks.{
  TraceEvent, MemorySink, new, init, positive_int, positive_float, event_limit, now_of,
  expire_active,
}
use penampakan.Sinks.Emit.{
  emit, aclose, admit, record_event, bound_loop, append_bounded, seen, complete,
}
use penampakan.Sinks.Views.{stats, runs, refresh}
use penampakan.Sinks.Bounds.{IsBounded}
use penampakan.Sinks.Runs.{Op, op_emit, op_close, op_stats, op_runs, apply_all, sink_run-IsBounded}
use penampakan.Sinks.Totals.{Counted, emit-Counted}

program : Unit {0}
unfolding init positive_int positive_float event_limit emit aclose stats runs refresh apply_all
    lookup insert without now_of admit expire_active record_event bound_loop append_bounded seen
    complete
program = tt

abbrev event : String → String → TraceEvent ticks
event id name = record { schema_version = 2; trace_id = id; event_type = name; content = dict_end }

abbrev two_runs : MemorySink ticks
two_runs = new 2 (some 2) 2 30

abbrev calls : List (Op ticks)
calls =
    op_emit (event "a" "run_started") (integer (pos 1))
    ∷ op_emit (event "a" "step") (integer (pos 2))
    ∷ op_emit (event "a" "run_finished") (integer (pos 3))
    ∷ op_emit (event "b" "run_started") (integer (pos 4))
    ∷ op_emit (event "a" "late") (integer (pos 5))
    ∷ op_stats (integer (pos 6))
    ∷ op_close
    ∷ op_runs other
    ∷ []

two_runs_made :
    init {F = ticks} (integer (pos 2)) (some (integer (pos 2))) (integer (pos 2)) (integer (pos 30))
    ≡ ok two_runs
unfolding program
two_runs_made = refl

no_runs :
    init {F = ticks} (integer (pos 0)) none (integer (pos 2)) (integer (pos 30))
    ≡ raised value_error
unfolding program
no_runs = refl

-- the run that ended lost its second event to its last, and the other run its only one
after_calls :
    ((apply_all calls two_runs).dropped_events ≡ 2)
    × ((apply_all calls two_runs).closed_active_runs ≡ 1)
    × ((apply_all calls two_runs).duplicate_terminal_events ≡ 1)
unfolding program
after_calls = (refl, refl, refl)

sink_run-IsBounded_example : IsBounded (apply_all calls two_runs)
sink_run-IsBounded_example =
    sink_run-IsBounded calls (integer (pos 2)) (some (integer (pos 2))) (integer (pos 2))
      (integer (pos 30)) two_runs_made

abbrev one_event : List (Op ticks)
one_event = op_emit (event "a" "run_started") (integer (pos 1)) ∷ []

emit-Counted_example :
    Counted
      (apply_all one_event two_runs)
      (emit (event "a" "run_finished") (integer (pos 2)) (apply_all one_event two_runs))
emit-Counted_example =
    emit-Counted (event "a" "run_finished") (integer (pos 2)) (apply_all one_event two_runs) (
      sink_run-IsBounded one_event (integer (pos 2)) (some (integer (pos 2))) (integer (pos 2))
        (integer (pos 30)) two_runs_made)
