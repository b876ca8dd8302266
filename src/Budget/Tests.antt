-- ===== src/Budget/Tests.antt =====
-- A run under the default limits, and the theorems on budgets at it.
use penampakan.Base.{ℕ, suc, ◌≡◌, ◌↔◌, refl, true, false, none, List, [], ◌∷◌, arith}
use penampakan.Base.Int.{pos}
use penampakan.Base.Floats.{Arg, integer, real}
use penampakan.Base.Ticks.{ticks}
use penampakan.Base.Errors.{backend_call_limit_exceeded, operation_timeout}
use penampakan.Base.Result.{ok, raised}
use penampakan.Base.Exec.{◌>>◌}
use penampakan.Config.Tests.{defaults, defaults_accepted}
use penampakan.Budget.{
  RunBudget, RemainingBudget, init, check_deadline, component_timeout, can_start_interactive_step,
  soft_stop_reason, reserve_step, reserve_llm_call, reserve_policy_decision, reserve_tool_call,
  reserve_backend_call, refund_unstarted_backend_call, reserve_derived_assets, refund_reused_assets,
  remaining,
}
use penampakan.Budget.Calls.{Call, policy_decision, tool_call, backend_call, perform, run}
use penampakan.Budget.Limits.{IsWithin, perform_refused, run_from_init-IsWithin}
use penampakan.Budget.Final.{
  IsOrderedAtZero, refusal, final_decision_granted, decision-soft_stop_reason, can_start-decision,
}
use penampakan.Budget.Deadline.{perform-in_time}
use penampakan.Budget.Account.{refund-reserve_backend}

program : Unit {0}
unfolding init check_deadline component_timeout reserve_step reserve_llm_call
    reserve_policy_decision reserve_tool_call reserve_backend_call refund_unstarted_backend_call
    reserve_derived_assets refund_reused_assets remaining perform run
program = tt

abbrev at : ℕ → Arg ℕ
at n = integer (pos n)

abbrev fresh : RunBudget ticks
fresh = record {
  limits = defaults;
  started = 5;
  timeout_s = 120;
  deadline = 125;
  usage = record {
    steps = 0;
    llm_calls = 0;
    tool_calls = 0;
    backend_calls = 0;
    derived_assets = 0;
  };
}

built : init ticks defaults none (at 5) ≡ ok fresh
unfolding program
built = refl

abbrev calls : List (Call ticks)
calls = policy_decision false (at 6) ∷ tool_call (at 2) (at 7) ∷ backend_call (at 99) (at 8) ∷ []

after_calls :
    (run ticks calls fresh).usage ≡ record fresh.usage { steps = 1; llm_calls = 1; tool_calls = 2 }
unfolding program
after_calls = refl

run_from_init-IsWithin_example : IsWithin ticks defaults (run ticks calls fresh)
run_from_init-IsWithin_example = run_from_init-IsWithin ticks defaults none (at 5) calls built

too_many :
    (perform ticks (backend_call (at 99) (at 8)) fresh).0 ≡ raised backend_call_limit_exceeded
unfolding program
too_many = refl

perform_refused_example : (perform ticks (backend_call (at 99) (at 8)) fresh).1 ≡ fresh
perform_refused_example =
    perform_refused ticks (backend_call (at 99) (at 8)) fresh backend_call_limit_exceeded too_many

in_time : check_deadline ticks (run ticks calls fresh) (at 9) ≡ ok tt
unfolding program
in_time = refl

fresh_in_time : check_deadline ticks fresh (at 9) ≡ ok tt
unfolding program
fresh_in_time = refl

final_decision_granted_example :
    (perform ticks (policy_decision true (at 9)) (run ticks calls fresh)).0 ≡ ok tt
final_decision_granted_example =
    final_decision_granted ticks defaults defaults none (at 5) (at 9) calls defaults_accepted built
      (refl, (tt, (tt, tt))) in_time

decision-soft_stop_reason_example :
    (reserve_policy_decision ticks false (at 9) fresh).0
    ≡ refusal ticks (soft_stop_reason ticks fresh)
decision-soft_stop_reason_example = decision-soft_stop_reason ticks fresh (at 9) fresh_in_time

ordered : IsOrderedAtZero ticks
ordered x = ground arith

can_start-decision_example :
    (can_start_interactive_step ticks fresh (at 9) ≡ ok true)
    ↔ ((reserve_policy_decision ticks false (at 9) fresh).0 ≡ ok tt)
can_start-decision_example = can_start-decision ticks fresh (at 9) ordered

granted : (perform ticks (tool_call (at 2) (at 7)) fresh).0 ≡ ok tt
unfolding program
granted = refl

perform-in_time_example : check_deadline ticks fresh (at 7) ≡ ok tt
perform-in_time_example = perform-in_time ticks (tool_call (at 2) (at 7)) fresh (at 7) refl granted

expired : check_deadline ticks fresh (at 125) ≡ raised operation_timeout
unfolding program
expired = refl

shortened : component_timeout ticks fresh (real 60) (at 100) (at 101) ≡ ok 24
unfolding program
shortened = refl

reserved : (reserve_backend_call ticks (at 3) (at 7) fresh).0 ≡ ok tt
unfolding program
reserved = refl

refund-reserve_backend_example :
    refund_unstarted_backend_call ticks (at 3) (reserve_backend_call ticks (at 3) (at 7) fresh).1
    ≡ (ok tt, fresh)
refund-reserve_backend_example = refund-reserve_backend ticks (at 3) (at 7) fresh reserved

reserved_twice :
    ((reserve_backend_call ticks (integer (pos (suc 1))) (at 7)
        >> reserve_backend_call ticks (integer (pos (suc 2))) (at 7))
      fresh).0
    ≡ ok tt
unfolding program
reserved_twice = refl

abbrev left : RemainingBudget ticks
left = record {
  steps = 8;
  llm_calls = 10;
  tool_calls = 12;
  backend_calls = 16;
  derived_assets = 16;
  derivation_depth = 2;
  context_chars = 24_000;
  remaining_time_s = 116;
}

reported : remaining ticks fresh (at 1) (at 9) ≡ ok left
unfolding program
reported = refl

fresh-IsWithin : IsWithin ticks fresh.limits fresh
fresh-IsWithin = record {
  same_limits = refl;
  steps = omega arith;
  llm_calls = omega arith;
  tool_calls = omega arith;
  backend_calls = omega arith;
  derived_assets = omega arith;
}
