-- ===== src/Session/Ask.antt =====
-- `_ask_body` of src/penampakan/session.py after the initial observations: the loop over the policy's
-- actions, with one unit of fuel for a round.
use penampakan.Base.{
  ℕ, zero, suc, ◌+◌, String, Bool, true, false, Option, none, some, List, [], ◌∷◌, ◌++◌, leb,
  if◌then◌else◌,
}
use penampakan.Base.Floats.{Floats}
use penampakan.Base.Errors.{Error, invalid_model_action}
use penampakan.Base.Result.{Result, ok, raised}
use penampakan.Base.Run.{Run, pure, fail, attempt, ◌>>=◌, ◌>>◌}
use penampakan.Base.Dict.{Dict, lookup, insert}
use penampakan.Models.{WarningInfo, dict_end, entry, json_str}
use penampakan.Budget.{can_start_interactive_step, reserve_step}
use penampakan.Answer.{VisionAnswer}
use penampakan.Context.Lines.{Text}
use penampakan.Context.Select.{CompiledContext}
use penampakan.Assets.{Imaging}
use penampakan.Session.{
  Host, Session, ToolAction, PolicyAction, calls_tool, gives_answer, budget_code, read, clocked,
}
use penampakan.Session.Policy.{compile_context, policy_action}
use penampakan.Session.Tools.{Acted, warning, ids_of, commit_reasoning_warning}
use penampakan.Session.Execute.{execute_action}
use penampakan.Session.Answering.{complete_answer}

-- the variables of the loop
pub record Turn (F : Floats) : Type 0 where
  pub actions : List (PolicyAction F)
  pub action_counts : Dict ℕ
  pub previous_action_ids : List String
  pub recent_lineage : List String
  pub warnings : List (WarningInfo F)

abbrev pub first_turn : {F : Floats} → List String → List (WarningInfo F) → String → Turn F
first_turn initial_ids warnings root_id = record {
  actions = [];
  action_counts = [];
  previous_action_ids = initial_ids;
  recent_lineage = root_id ∷ [];
  warnings = warnings;
}

-- how a round ends: it returns an answer, goes on, or leaves the loop
pub data Ended (F : Floats) (T : Type 0) : Type 0 where
  answers : VisionAnswer F T → Ended F T
  goes_on breaks : Turn F → Ended F T

-- `action_counts.get(canonical_call, 0)`
unfoldable pub count_of : String → Dict ℕ → ℕ
unfolding lookup
count_of call counts = elim (lookup call counts) [ none ↦ 0 | some n ↦ n ]

-- a turn with what an executed action left
unfoldable pub after_action : {F : Floats} → Turn F → Acted F → Turn F
after_action t acted = record t {
  previous_action_ids = ids_of acted.observations;
  warnings = t.warnings ++ acted.warnings;
  recent_lineage = elim acted.lineage [ [] ↦ t.recent_lineage | id ∷ ids ↦ id ∷ ids ];
}

module _ {P : Imaging} {F : Floats} {H : Host P F} where
  -- `except BudgetExceededError`
  unfoldable pub stop_on_budget : Turn F → Error → Option String → Run (Session H) (Ended F H.Trace)
  stop_on_budget t e none = fail e
  stop_on_budget t e (some code) = pure (
      breaks (record t {
        warnings =
            t.warnings
            ++ record {
              code = "budget_stop";
              message = "A tool action was stopped by a configured run budget.";
              details = entry "reason" (json_str code) dict_end;
            }
              ∷ [];
      }))

  -- what comes after the `try`
  unfoldable pub after_attempt : Turn F → Result (Acted F) → Run (Session H) (Ended F H.Trace)
  unfolding after_action stop_on_budget budget_code
  after_attempt t (ok acted) = pure (goes_on (after_action t acted))
  after_attempt t (raised e) = stop_on_budget t e (budget_code e)

  -- a repeated action that is blocked
  unfoldable pub block_action : Turn F → Run (Session H) (Ended F H.Trace)
  unfolding commit_reasoning_warning
  block_action t = do
    o ←
        commit_reasoning_warning "repeated_action_cycle"
          "A repeated identical tool action was blocked by the cycle limit." t.previous_action_ids
    pure (
        goes_on (record t {
          warnings =
              t.warnings
              ++ warning "repeated_action_cycle" "A repeated identical tool action was blocked."
                ∷ [];
          previous_action_ids = o.id ∷ [];
        }))

  -- a tool action in a round
  unfoldable pub tool_round :
      ToolAction F → CompiledContext → Turn F → Run (Session H) (Ended F H.Trace)
  unfolding count_of block_action execute_action after_attempt insert
  tool_round action context t =
      let call = H.canonical action in
      let count = count_of call t.action_counts in
      let counted = record t { action_counts = insert call (count + 1) t.action_counts } in
      if leb H.max_identical_actions count
      then block_action t
      else attempt (execute_action action context t.previous_action_ids) >>= after_attempt counted

  -- the body of the loop from its `isinstance` test on
  unfoldable pub act :
      Text → CompiledContext → Turn F → PolicyAction F → Run (Session H) (Ended F H.Trace)
  unfolding complete_answer tool_round
  act question context t (gives_answer answer) = do
    a ← complete_answer answer question context t.actions t.warnings false
    pure (answers a)
  act question context t (calls_tool call) = tool_round call context t

  -- the body of the loop
  unfoldable pub ask_round : Text → Turn F → Run (Session H) (Ended F H.Trace)
  unfolding compile_context policy_action reserve_step act
  ask_round question t = do
    context ← compile_context question t.previous_action_ids t.recent_lineage
    action ← policy_action question context t.actions false
    clocked (reserve_step F false)
    act question context (record t { actions = t.actions ++ action ∷ [] }) action

  -- the last action has to be an answer
  unfoldable pub act_finally :
      Text → CompiledContext → Turn F → PolicyAction F → Run (Session H) (VisionAnswer F H.Trace)
  unfolding complete_answer
  act_finally question context t (calls_tool call) =
      fail (invalid_model_action "final_action_must_answer")
  act_finally question context t (gives_answer answer) =
      complete_answer answer question context (t.actions ++ gives_answer answer ∷ []) t.warnings
        true

  -- the statements after the loop
  unfoldable pub final_round : Text → Turn F → Run (Session H) (VisionAnswer F H.Trace)
  unfolding compile_context policy_action reserve_step act_finally
  final_round question t = do
    context ← compile_context question t.previous_action_ids t.recent_lineage
    action ← policy_action question context t.actions true
    clocked (reserve_step F true)
    act_finally question context t action

  -- `budget.can_start_interactive_step()`
  unfoldable pub may_go_on : Run (Session H) Bool
  unfolding can_start_interactive_step
  may_go_on = do now ← read; λ s. some (can_start_interactive_step F s.budget now, s)

  -- the loop's control flow after a round
  unfoldable pub after_round :
      (Turn F → Run (Session H) (VisionAnswer F H.Trace))
      → Text
      → Ended F H.Trace
      → Run (Session H) (VisionAnswer F H.Trace)
  unfolding final_round
  after_round loop question (answers a) = pure a
  after_round loop question (goes_on next) = loop next
  after_round loop question (breaks last) = final_round question last

  -- the loop, and what comes after it
  unfoldable pub ask_loop : ℕ → Text → Turn F → Run (Session H) (VisionAnswer F H.Trace)
  unfolding may_go_on ask_round after_round final_round
  ask_loop zero question t = λ s. none
  ask_loop (suc fuel) question t = do
    more ← may_go_on
    let round : Run (Session H) (VisionAnswer F H.Trace) =
        ask_round question t >>= after_round (ask_loop fuel question) question
    if more then round else final_round question t

  -- `_ask_body` from the identifiers and warnings of the initial observations on: a round takes one of
  -- `max_steps` steps
  unfoldable pub ask :
      Text → List String → List (WarningInfo F) → Run (Session H) (VisionAnswer F H.Trace)
  unfolding ask_loop
  ask question initial_ids warnings s =
      ask_loop (suc s.budget.limits.max_steps) question
        (first_turn initial_ids warnings s.assets.root_id) s
