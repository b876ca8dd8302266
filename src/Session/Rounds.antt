-- ===== src/Session/Rounds.antt =====
-- A round of the loop of `_ask_body` in src/penampakan/session.py: it ends, a step further.
use penampakan.Base.{
  ℕ, suc, refl, String, Bool, true, false, Option, none, some, List, arith, leb, if◌then◌else◌,
}
use penampakan.Base.Floats.{Floats}
use penampakan.Base.Errors.{Error}
use penampakan.Base.Result.{Result, ok, raised}
use penampakan.Base.Run.{Run, attempt, ◌>>=◌, Ends, Ends->>=, Keeps-attempt}
use penampakan.Config.{RunLimits}
use penampakan.Context.Lines.{Text}
use penampakan.Context.Select.{CompiledContext}
use penampakan.Assets.{Imaging}
use penampakan.Session.{
  Host, Session, ToolAction, PolicyAction, calls_tool, gives_answer, budget_code,
}
use penampakan.Session.Tools.{Acted}
use penampakan.Session.Ask.{
  Turn, count_of, Ended, answers, goes_on, breaks, stop_on_budget, after_attempt, block_action,
  tool_round, act, ask_round,
}
use penampakan.Session.Keeps.{IsSafe, reserve_step-IsStepped}
use penampakan.Session.Halts.{Keeps-compile_context, Keeps-policy_action}
use penampakan.Session.Execute.{execute_action}
use penampakan.Session.Acts.{Keeps-commit_reasoning_warning, Keeps-execute_action}
use penampakan.Session.Grounded.{IsValidated, complete_answer-IsAnswered}

module _ {P : Imaging} {F : Floats} {H : Host P F} where
  fewer : (l : RunLimits F) (k : ℕ) (s : Session H) → IsSafe l (suc k) s → IsSafe l k s
  fewer l k s h = record {
    within = h.within;
    taken = omega (arith, h.taken);
    observed = h.observed;
    owned = h.owned;
  }

  pub started : (l : RunLimits F) (k : ℕ) (s : Session H) → IsSafe l k s → IsSafe l 0 s
  started l k s h = record {
    within = h.within;
    taken = omega arith;
    observed = h.observed;
    owned = h.owned;
  }

  -- how a round leaves the session: a step further, or with an exception
  abbrev pub IsTurned : RunLimits F → ℕ → Result (Ended F H.Trace) → Session H → Type 0
  IsTurned l k (raised e) s = IsSafe l k s
  IsTurned l k (ok (answers a)) s = IsSafe l (suc k) s × IsValidated a s
  IsTurned l k (ok (goes_on t)) s = IsSafe l (suc k) s
  IsTurned l k (ok (breaks t)) s = IsSafe l (suc k) s

  pub Ends-if :
      {A : Type 0} {S : Session H → Type 0} {Q : Result A → Session H → Type 0} (b : Bool)
      {m n : Run (Session H) A}
      → Ends S m Q
      → Ends S n Q
      → Ends S (if b then m else n) Q
  Ends-if true hm hn = hm
  Ends-if false hm hn = hn

  module _ {l : RunLimits F} {k : ℕ} where
    stop_on_budget-IsTurned :
        (t : Turn F) (e : Error) (code : Option String)
        → Ends (IsSafe l (suc k)) (stop_on_budget {H = H} t e code) (IsTurned l k)
    unfolding stop_on_budget
    stop_on_budget-IsTurned t e none = λ s h. (_, _, refl, fewer l k s h)
    stop_on_budget-IsTurned t e (some code) = λ s h. (_, _, refl, h)

    after_attempt-IsTurned :
        (t : Turn F) (r : Result (Acted F))
        → Ends (IsSafe l (suc k)) (after_attempt {H = H} t r) (IsTurned l k)
    unfolding after_attempt
    after_attempt-IsTurned t (ok acted) = λ s h. (_, _, refl, h)
    after_attempt-IsTurned t (raised e) = stop_on_budget-IsTurned t e (budget_code e)

    block_action-IsTurned :
        (t : Turn F) → Ends (IsSafe l (suc k)) (block_action {H = H} t) (IsTurned l k)
    unfolding block_action
    block_action-IsTurned t =
        Ends->>= {R = λ r s. IsSafe l (suc k) s} (Keeps-commit_reasoning_warning _ _ _)
          (λ o s h. (_, _, refl, h)) (λ x s h. fewer l k s h)

    executed-IsTurned :
        (action : ToolAction F) (context : CompiledContext) (parents : List String) (t : Turn F)
        → Ends
            (IsSafe l (suc k))
            (attempt (execute_action {H = H} action context parents) >>= after_attempt t)
            (IsTurned l k)
    executed-IsTurned action context parents t =
        Ends->>= {R = λ r s. IsSafe l (suc k) s}
          (Keeps-attempt (Keeps-execute_action action context parents)) (after_attempt-IsTurned t)
          (λ x s h. fewer l k s h)

    tool_round-IsTurned :
        (action : ToolAction F) (context : CompiledContext) (t : Turn F)
        → Ends (IsSafe l (suc k)) (tool_round {H = H} action context t) (IsTurned l k)
    unfolding tool_round
    tool_round-IsTurned action context t =
        Ends-if (leb H.max_identical_actions (count_of (H.canonical action) t.action_counts))
          (block_action-IsTurned t) (executed-IsTurned action context t.previous_action_ids _)

    act-IsTurned :
        (question : Text) (context : CompiledContext) (t : Turn F) (action : PolicyAction F)
        → Ends (IsSafe l (suc k)) (act {H = H} question context t action) (IsTurned l k)
    unfolding act
    act-IsTurned question context t (calls_tool call) = tool_round-IsTurned call context t
    act-IsTurned question context t (gives_answer answer) =
        Ends->>= (complete_answer-IsAnswered answer question context t.actions t.warnings false)
          (λ a s h. (_, _, refl, h)) (λ x s h. fewer l k s h)

    pub ask_round-IsTurned :
        (question : Text) (t : Turn F)
        → Ends (IsSafe l k) (ask_round {H = H} question t) (IsTurned l k)
    unfolding ask_round
    ask_round-IsTurned question t =
        Ends->>= {R = λ r s. IsSafe l k s}
          (Keeps-compile_context question t.previous_action_ids t.recent_lineage)
          (λ context.
            Ends->>= {R = λ r s. IsSafe l k s}
              (Keeps-policy_action question context t.actions false)
              (λ action.
                Ends->>= (reserve_step-IsStepped false)
                  (λ _. act-IsTurned question context _ action) (λ x s h. h))
              (λ x s h. h))
          (λ x s h. h)
