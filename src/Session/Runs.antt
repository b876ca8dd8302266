-- ===== src/Session/Runs.antt =====
-- The loop of `_ask_body` in src/penampakan/session.py: it ends.
use penampakan.Base.{ℕ, zero, suc, ◌+◌, ◌≤◌, ◌≡◌, refl, ap, String, true, some, List, arith}
use penampakan.Base.Floats.{Floats}
use penampakan.Base.Result.{Result, ok, raised}
use penampakan.Base.Run.{Run, Ends, Keeps, Ends->>=, Keeps->>=}
use penampakan.Config.{RunLimits}
use penampakan.Models.{WarningInfo}
use penampakan.Answer.{VisionAnswer}
use penampakan.Context.Lines.{Text}
use penampakan.Context.Select.{CompiledContext}
use penampakan.Assets.{Imaging}
use penampakan.Session.{Host, Session, PolicyAction, calls_tool, gives_answer}
use penampakan.Session.Ask.{
  Turn, first_turn, Ended, answers, goes_on, breaks, act_finally, final_round, may_go_on,
  after_round, ask_loop, ask,
}
use penampakan.Session.Keeps.{IsSafe, Keeps-read, reserve_step-IsStepped}
use penampakan.Session.Halts.{Keeps-compile_context, Keeps-policy_action}
use penampakan.Session.Grounded.{IsAnswered, complete_answer-IsAnswered}
use penampakan.Session.Rounds.{started, IsTurned, Ends-if, ask_round-IsTurned}

module _ {P : Imaging} {F : Floats} {H : Host P F} where
  Keeps-may_go_on : (l : RunLimits F) (k : ℕ) → Keeps (IsSafe l k) (may_go_on {H = H})
  unfolding may_go_on
  Keeps-may_go_on l k = Keeps->>= Keeps-read (λ now s h. (_, _, refl, h))

  -- an answer of any number of steps
  finished :
      (l : RunLimits F) (k : ℕ) (r : Result (VisionAnswer F H.Trace)) (s : Session H)
      → IsAnswered l k r s
      → IsAnswered l 0 r s
  finished l k (raised e) s h = started l k s h
  finished l k (ok a) s h = (started l k s h.0, h.1)

  Ends-finished :
      (l : RunLimits F) (k : ℕ) {m : Run (Session H) (VisionAnswer F H.Trace)}
      → Ends (IsSafe l k) m (IsAnswered l k)
      → Ends (IsSafe l k) m (IsAnswered l 0)
  Ends-finished l k e s h = let (r, t, d, a) = e s h in (r, t, d, finished l k r t a)

  act_finally-IsAnswered :
      (l : RunLimits F) (k : ℕ) (question : Text) (context : CompiledContext) (t : Turn F)
      (action : PolicyAction F)
      → Ends (IsSafe l (suc k)) (act_finally {H = H} question context t action) (IsAnswered l 0)
  unfolding act_finally
  act_finally-IsAnswered l k question context t (calls_tool call) =
      λ s h. (_, _, refl, started l (suc k) s h)
  act_finally-IsAnswered l k question context t (gives_answer answer) =
      Ends-finished l (suc k) (complete_answer-IsAnswered answer question context _ t.warnings true)

  final_round-IsAnswered :
      (l : RunLimits F) (k : ℕ) (question : Text) (t : Turn F)
      → Ends (IsSafe l k) (final_round {H = H} question t) (IsAnswered l 0)
  unfolding final_round
  final_round-IsAnswered l k question t =
      Ends->>= {R = λ r s. IsSafe l k s}
        (Keeps-compile_context question t.previous_action_ids t.recent_lineage)
        (λ context.
          Ends->>= {R = λ r s. IsSafe l k s} (Keeps-policy_action question context t.actions true)
            (λ action.
              Ends->>= (reserve_step-IsStepped true)
                (λ _. act_finally-IsAnswered l k question context t action)
                (λ x s h. started l k s h))
            (λ x s h. started l k s h))
        (λ x s h. started l k s h)

  -- what the loop has to do for the states after a round
  after_round-IsAnswered :
      (l : RunLimits F) (k : ℕ) (question : Text)
      (loop : Turn F → Run (Session H) (VisionAnswer F H.Trace)) (ended : Ended F H.Trace)
      → ((t : Turn F) → Ends (IsSafe l (suc k)) (loop t) (IsAnswered l 0))
      → Ends (IsTurned l k (ok ended)) (after_round {H = H} loop question ended) (IsAnswered l 0)
  unfolding after_round
  after_round-IsAnswered l k question loop (answers a) next =
      λ s h. (_, _, refl, (started l (suc k) s h.0, h.1))
  after_round-IsAnswered l k question loop (goes_on t) next = next t
  after_round-IsAnswered l k question loop (breaks t) next =
      final_round-IsAnswered l (suc k) question t

  -- a round takes a step, and there are at most `max_steps` of them
  ask_loop-IsAnswered :
      (l : RunLimits F) (fuel k : ℕ) (question : Text) (t : Turn F)
      → l.max_steps + 1 ≤ fuel + k
      → Ends (IsSafe l k) (ask_loop {H = H} fuel question t) (IsAnswered l 0)
  unfolding ask_loop
  ask_loop-IsAnswered l zero k question t enough =
      λ s h. absurd (omega (arith, h.within.steps, h.taken, enough))
  ask_loop-IsAnswered l (suc fuel) k question t enough =
      Ends->>= {R = λ r s. IsSafe l k s} (Keeps-may_go_on l k)
        (λ more.
          Ends-if more
            (Ends->>= (ask_round-IsTurned question t)
              (λ ended.
                after_round-IsAnswered l k question (ask_loop fuel question) ended (λ next.
                  ask_loop-IsAnswered l fuel (suc k) question next (omega (arith, enough))))
              (λ x s h. started l k s h))
            (final_round-IsAnswered l k question t))
        (λ x s h. started l k s h)

  -- A question asked in a safe session ends with an answer or an exception, whatever the policy, the
  -- tools and the clock do. Afterwards no counter of the budget has passed its limit, and the
  -- observations and the assets are valid. The evidence of an answer passed the validation against
  -- the session's observations.
  pub ask-IsAnswered :
      (l : RunLimits F) (question : Text) (ids : List String) (ws : List (WarningInfo F))
      (s : Session H)
      → IsSafe l 0 s
      → (r : Result (VisionAnswer F H.Trace)) × (t : Session H) × (ask question ids ws s
          ≡ some (r, t))
        × IsAnswered l 0 r t
  unfolding ask
  ask-IsAnswered l question ids ws s h =
      ask_loop-IsAnswered l (suc s.budget.limits.max_steps) 0 question
        (first_turn ids ws s.assets.root_id)
        (omega (arith, ap (λ (m : RunLimits F). m.max_steps) h.within.same_limits)) s h
