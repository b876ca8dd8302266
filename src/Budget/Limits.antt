-- ===== src/Budget/Limits.antt =====
-- The counters of a budget against its limits, and the state after a refused call.
use penampakan.Base.{◌≤◌, ◌≡◌, Option, List, [], ◌∷◌, arith}
use penampakan.Base.Floats.{Floats, Arg}
use penampakan.Base.Errors.{Error}
use penampakan.Base.Result.{ok, raised}
use penampakan.Config.{RunLimits}
use penampakan.Budget.{
  RunBudget, init, reserve_step, reserve_llm_call, reserve_policy_decision, reserve_tool_call,
  reserve_backend_call, refund_unstarted_backend_call, reserve_derived_assets, refund_reused_assets,
}
use penampakan.Budget.Calls.{Call, step, perform, run}

pub record IsWithin (F : Floats) (l : RunLimits F) (b : RunBudget F) : Type 0 where
  pub same_limits : b.limits ≡ l
  pub steps : b.steps ≤ l.max_steps
  pub llm_calls : b.llm_calls ≤ l.max_llm_calls
  pub tool_calls : b.tool_calls ≤ l.max_tool_calls
  pub backend_calls : b.backend_calls ≤ l.max_backend_calls
  pub derived_assets : b.derived_assets ≤ l.max_derived_assets

module _ (F : Floats) where
  -- Every call, accepted or refused, keeps the counters within the limits.
  pub perform-IsWithin :
      (l : RunLimits F) (c : Call F) (b : RunBudget F)
      → IsWithin F l b
      → IsWithin F l (perform F c b).1
  unfolding perform reserve_step reserve_llm_call reserve_policy_decision reserve_tool_call
      reserve_backend_call refund_unstarted_backend_call reserve_derived_assets refund_reused_assets
  perform-IsWithin l (step a clock) b h = ground arith
  perform-IsWithin l c b h = ground arith

  -- A call that raises leaves the budget as it was.
  pub perform_refused :
      (c : Call F) (b : RunBudget F) (e : Error)
      → (perform F c b).0 ≡ raised e
      → (perform F c b).1 ≡ b
  unfolding perform reserve_step reserve_llm_call reserve_policy_decision reserve_tool_call
      reserve_backend_call refund_unstarted_backend_call reserve_derived_assets refund_reused_assets
  perform_refused (step a clock) b e h = ground arith
  perform_refused c b e h = ground arith

  run-IsWithin :
      (l : RunLimits F) (calls : List (Call F)) (b : RunBudget F)
      → IsWithin F l b
      → IsWithin F l (run F calls b)
  unfolding run
  run-IsWithin l [] b h = h
  run-IsWithin l (c ∷ calls) b h = run-IsWithin l calls (perform F c b).1 (perform-IsWithin l c b h)

  init-IsWithin :
      (l : RunLimits F) (timeout_s : Option (Arg F.Float)) (clock : Arg F.Float) {b : RunBudget F}
      → init F l timeout_s clock ≡ ok b
      → IsWithin F l b
  unfolding init
  init-IsWithin l timeout_s clock h = ground arith

  -- Whatever sequence of reservations and refunds a run makes, and whatever the clock returns, no
  -- counter of the budget that it was built with ever passes its limit.
  pub run_from_init-IsWithin :
      (l : RunLimits F) (timeout_s : Option (Arg F.Float)) (clock : Arg F.Float)
      (calls : List (Call F)) {b : RunBudget F}
      → init F l timeout_s clock ≡ ok b
      → IsWithin F l (run F calls b)
  run_from_init-IsWithin l timeout_s clock calls {b} h =
      run-IsWithin l calls b (init-IsWithin l timeout_s clock h)
