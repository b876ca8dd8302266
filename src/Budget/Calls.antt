-- ===== src/Budget/Calls.antt =====
-- A run as the sequence of the budget's state-changing calls. A caller that catches an exception goes
-- on with the same budget, so the state after a call is kept whether it raised or not.
use penampakan.Base.{Bool, List, [], ◌∷◌}
use penampakan.Base.Floats.{Floats, Arg}
use penampakan.Base.Exec.{Exec}
use penampakan.Budget.{
  RunBudget, reserve_step, reserve_llm_call, reserve_policy_decision, reserve_tool_call,
  reserve_backend_call, refund_unstarted_backend_call, reserve_derived_assets, refund_reused_assets,
}

pub data Call (F : Floats) : Type 0 where
  step : Bool → Arg F.Float → Call F
  llm_call : Bool → Bool → Arg F.Float → Call F
  policy_decision : Bool → Arg F.Float → Call F
  tool_call : Arg F.Float → Arg F.Float → Call F
  backend_call : Arg F.Float → Arg F.Float → Call F
  refund_backend_call : Arg F.Float → Call F
  derived_assets : Arg F.Float → Arg F.Float → Arg F.Float → Call F
  refund_assets : Arg F.Float → Call F

module _ (F : Floats) where
  unfoldable pub perform : Call F → Exec (RunBudget F) (Unit {0})
  perform (step answer_only clock) = reserve_step F answer_only clock
  perform (llm_call final repair clock) = reserve_llm_call F final repair clock
  perform (policy_decision answer_only clock) = reserve_policy_decision F answer_only clock
  perform (tool_call count clock) = reserve_tool_call F count clock
  perform (backend_call count clock) = reserve_backend_call F count clock
  perform (refund_backend_call count) = refund_unstarted_backend_call F count
  perform (derived_assets count depth clock) = reserve_derived_assets F count depth clock
  perform (refund_assets count) = refund_reused_assets F count

  unfoldable pub run : List (Call F) → RunBudget F → RunBudget F
  run [] b = b
  run (c ∷ calls) b = run calls (perform c b).1
