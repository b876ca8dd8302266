-- ===== src/Budget/Final.antt =====
-- The final answer's decision beside the interactive ones.
use penampakan.Base.{
  ◌+◌, ◌≤◌, ◌≡◌, ◌↔◌, inl, inr, Bool, true, false, not, Option, none, some, List, [], ◌∷◌, arith,
  All,
}
use penampakan.Base.Floats.{Floats, Arg, max_float}
use penampakan.Base.Errors.{step_limit_exceeded, llm_call_limit_exceeded}
use penampakan.Base.Result.{Result, ok, raised, Result-cases}
use penampakan.Config.{RunLimits, run_limits}
use penampakan.Config.Laws.{IsConsistent, run_limits-IsConsistent}
use penampakan.Budget.{
  RunBudget, BudgetStopReason, step_limit, init, check_deadline, reserve_step, reserve_llm_call,
  reserve_policy_decision, reserve_tool_call, reserve_backend_call, refund_unstarted_backend_call,
  reserve_derived_assets, refund_reused_assets, soft_stop_reason, can_start_interactive_step,
  read_clock,
}
use penampakan.Budget.Calls.{
  Call, step, llm_call, policy_decision, tool_call, backend_call, refund_backend_call,
  derived_assets, refund_assets, perform, run,
}

module _ (F : Floats) where
  -- A call that is not made for the final answer.
  abbrev pub IsInteractive : Call F → Type 0
  IsInteractive (step answer_only clock) = answer_only ≡ false
  IsInteractive (llm_call final repair clock) = final ≡ false
  IsInteractive (policy_decision answer_only clock) = answer_only ≡ false
  IsInteractive (tool_call count clock) = Unit
  IsInteractive (backend_call count clock) = Unit
  IsInteractive (refund_backend_call count) = Unit
  IsInteractive (derived_assets count depth clock) = Unit
  IsInteractive (refund_assets count) = Unit

  -- One step and one LLM call are free.
  record LeavesFinal (l : RunLimits F) (b : RunBudget F) : Type 0 where
    pub same_limits : b.limits ≡ l
    pub step_left : b.steps + 1 ≤ l.max_steps
    pub call_left : b.llm_calls + 1 ≤ l.max_llm_calls

  perform-LeavesFinal :
      (l : RunLimits F) (c : Call F) (b : RunBudget F)
      → IsInteractive c
      → LeavesFinal l b
      → LeavesFinal l (perform F c b).1
  unfolding perform reserve_step reserve_llm_call reserve_policy_decision reserve_tool_call
      reserve_backend_call refund_unstarted_backend_call reserve_derived_assets refund_reused_assets
  perform-LeavesFinal l (step a clock) b i h = ground arith
  perform-LeavesFinal l c b i h = ground arith

  run-LeavesFinal :
      (l : RunLimits F) (calls : List (Call F)) (b : RunBudget F)
      → All IsInteractive calls
      → LeavesFinal l b
      → LeavesFinal l (run F calls b)
  unfolding run
  run-LeavesFinal l [] b i h = h
  run-LeavesFinal l (c ∷ calls) b i h =
      run-LeavesFinal l calls (perform F c b).1 i.1 (perform-LeavesFinal l c b i.0 h)

  init-LeavesFinal :
      (l : RunLimits F) (timeout_s : Option (Arg F.Float)) (clock : Arg F.Float) {b : RunBudget F}
      → IsConsistent F l
      → init F l timeout_s clock ≡ ok b
      → LeavesFinal l b
  unfolding init
  init-LeavesFinal l timeout_s clock c h = ground arith

  LeavesFinal-decision :
      (l : RunLimits F) (b : RunBudget F) (clock : Arg F.Float)
      → LeavesFinal l b
      → check_deadline F b clock ≡ ok tt
      → (perform F (policy_decision true clock) b).0 ≡ ok tt
  unfolding perform reserve_policy_decision
  LeavesFinal-decision l b clock h d = ground arith

  -- Under accepted limits, after any interactive calls, refused ones included, the final answer's
  -- decision is granted if the deadline has not passed.
  pub final_decision_granted :
      (l m : RunLimits F) (timeout_s : Option (Arg F.Float)) (start now : Arg F.Float)
      (calls : List (Call F)) {b : RunBudget F}
      → run_limits F l ≡ ok m
      → init F m timeout_s start ≡ ok b
      → All IsInteractive calls
      → check_deadline F (run F calls b) now ≡ ok tt
      → (perform F (policy_decision true now) (run F calls b)).0 ≡ ok tt
  final_decision_granted l m timeout_s start now calls {b} v e i d =
      let (same, consistent) = run_limits-IsConsistent F l m v in
      LeavesFinal-decision m (run F calls b) now
        (run-LeavesFinal m calls b i (init-LeavesFinal m timeout_s start (rw same consistent) e)) d

  -- what a decision raises for a soft stop
  abbrev pub refusal : Option BudgetStopReason → Result (Unit {0})
  refusal (some step_limit) = raised step_limit_exceeded
  refusal (some r) = raised llm_call_limit_exceeded
  refusal none = ok tt

  -- Before the deadline an interactive decision is granted exactly when there is no soft stop, and
  -- otherwise raises the error of the stop's own limit.
  pub decision-soft_stop_reason :
      (b : RunBudget F) (clock : Arg F.Float)
      → check_deadline F b clock ≡ ok tt
      → (reserve_policy_decision F false clock b).0 ≡ refusal (soft_stop_reason F b)
  unfolding reserve_policy_decision soft_stop_reason
  decision-soft_stop_reason b clock d = ground arith

  -- `x <= 0.0` is the opposite of `x > 0.0` for `max(0.0, x)`, which is never a NaN.
  abbrev pub IsOrderedAtZero : Type 0
  IsOrderedAtZero =
      (x : F.Float)
      → F.le (max_float F F.zero_float x) F.zero_float
        ≡ not (F.lt F.zero_float (max_float F F.zero_float x))

  -- At one clock reading, an interactive step can start exactly when its decision is granted.
  pub can_start-decision :
      (b : RunBudget F) (clock : Arg F.Float)
      → IsOrderedAtZero
      → (can_start_interactive_step F b clock ≡ ok true)
        ↔ ((reserve_policy_decision F false clock b).0 ≡ ok tt)
  unfolding can_start_interactive_step reserve_policy_decision
  can_start-decision b clock ordered = elim (Result-cases (read_clock F clock)) [
    | inl (now, e) ↦ (
      λ h. ground (arith, e, ordered (F.sub b.deadline now)),
      λ h. ground (arith, e, ordered (F.sub b.deadline now)),
    )
    | inr (err, e) ↦ (λ h. ground (arith, e), λ h. ground (arith, e))
  ]

  -- The `repair` flag changes nothing: a repair call is granted, refused and counted as any other.
  pub reserve_llm_call-repair :
      (final : Bool) (clock : Arg F.Float) (b : RunBudget F)
      → reserve_llm_call F final true clock b ≡ reserve_llm_call F final false clock b
  unfolding reserve_llm_call
  reserve_llm_call-repair final clock b = ground arith
