-- ===== src/Session/Tally.antt =====
-- The turns that the loop of src/penampakan/session.py reaches, and what its counters count.
use penampakan.Base.{
  ℕ, ◌+◌, ◌≡◌, refl, String, true, false, Option, none, some, List, [], ◌∷◌, ◌++◌, leb, str_eq,
  if◌then◌else◌, arith, Bool-cases, inl, inr, eq_iff,
}
use penampakan.Base.Floats.{Floats}
use penampakan.Base.Errors.{Error}
use penampakan.Base.Result.{Result, ok, raised}
use penampakan.Base.Run.{attempt, >>=-returned}
use penampakan.Base.Dict.{Dict, lookup, insert, lookup-insert}
use penampakan.Models.{WarningInfo}
use penampakan.Context.Lines.{Text}
use penampakan.Context.Select.{CompiledContext}
use penampakan.Budget.{reserve_step}
use penampakan.Assets.{Imaging}
use penampakan.Session.{
  Host, Session, ToolAction, PolicyAction, calls_tool, gives_answer, budget_code, clocked,
}
use penampakan.Session.Policy.{compile_context, policy_action}
use penampakan.Session.Tools.{Acted, commit_reasoning_warning}
use penampakan.Session.Execute.{execute_action}
use penampakan.Session.Answering.{complete_answer}
use penampakan.Session.Ask.{
  Turn, goes_on, first_turn, count_of, after_action, stop_on_budget, after_attempt, block_action,
  tool_round, act, ask_round, may_go_on,
}

count_of-insert :
    (call j : String) (n : ℕ) (counts : Dict ℕ)
    → count_of j (insert call n counts) ≡ (if str_eq call j then n else count_of j counts)
unfolding count_of
count_of-insert call j n counts = ground (arith, lookup-insert call j n counts)

module _ {P : Imaging} {F : Floats} (H : Host P F) where
  -- how often the actions ask for a tool call
  unfoldable pub request_count : String → List (PolicyAction F) → ℕ
  request_count call [] = 0
  request_count call (gives_answer a ∷ actions) = request_count call actions
  request_count call (calls_tool action ∷ actions) =
      let rest = request_count call actions in
      if str_eq (H.canonical action) call then rest + 1 else rest

  -- The counters are the numbers of requests in the turn's actions, up to the limit.
  abbrev pub IsTallied : List (PolicyAction F) → Dict ℕ → Type 0
  IsTallied actions counts =
      (call : String)
      → count_of call counts ≡ (
          if leb H.max_identical_actions (request_count call actions)
          then H.max_identical_actions
          else request_count call actions)

  -- a turn whose counters count the requests in its actions
  abbrev pub IsTalliedTurn : Turn F → Type 0
  IsTalliedTurn t = IsTallied t.actions t.action_counts

  request_count-append :
      (call : String) (actions : List (PolicyAction F)) (action : ToolAction F)
      → request_count call (actions ++ calls_tool action ∷ []) ≡ (
          if str_eq (H.canonical action) call
          then request_count call actions + 1
          else request_count call actions)
  unfolding request_count
  request_count-append call [] action = refl
  request_count-append call (gives_answer a ∷ actions) action =
      request_count-append call actions action
  request_count-append call (calls_tool x ∷ actions) action =
      ground (arith, request_count-append call actions action)

module _ {P : Imaging} {F : Floats} {H : Host P F} where
  -- the turns of a run, each with the session before its round
  pub data Reached (question : Text) (initial_ids : List String) (warnings : List (WarningInfo F))
      (start : Session H) : Turn F → Session H → Type 0 where
    begins :
        Reached question initial_ids warnings start
          (first_turn initial_ids warnings start.assets.root_id)
          start
    continues :
        {t u : Turn F} {s s1 s2 : Session H}
        → Reached question initial_ids warnings start t s
        → may_go_on s ≡ some (ok true, s1)
        → ask_round question t s1 ≡ some (ok (goes_on u), s2)
        → Reached question initial_ids warnings start u s2

  block_action-counts :
      (t u : Turn F) (s s2 : Session H)
      → block_action t s ≡ some (ok (goes_on u), s2)
      → (u.actions ≡ t.actions) × (u.action_counts ≡ t.action_counts)
  unfolding block_action
  block_action-counts t u s s2 h =
      let (o, s1, _, done) =
        >>=-returned
          (commit_reasoning_warning "repeated_action_cycle"
            "A repeated identical tool action was blocked by the cycle limit."
            t.previous_action_ids)
          _ s h in
      (cc done, cc done)

  -- a tool action that the budget stopped leaves the loop
  stop_on_budget-breaks :
      (t u : Turn F) (e : Error) (code : Option String) (s s2 : Session H)
      → stop_on_budget t e code s ≡ some (ok (goes_on u), s2)
      → ⊥
  unfolding stop_on_budget
  stop_on_budget-breaks t u e none s s2 h = cc h
  stop_on_budget-breaks t u e (some code) s s2 h = cc h

  after_attempt-counts :
      (t u : Turn F) (r : Result (Acted F)) (s s2 : Session H)
      → after_attempt t r s ≡ some (ok (goes_on u), s2)
      → (u.actions ≡ t.actions) × (u.action_counts ≡ t.action_counts)
  unfolding after_attempt after_action
  after_attempt-counts t u (ok acted) s s2 h = (cc h, cc h)
  after_attempt-counts t u (raised e) s s2 h =
      absurd (stop_on_budget-breaks t u e (budget_code e) s s2 h)

  tool_round-IsTallied :
      (action : ToolAction F) (context : CompiledContext) (t u : Turn F)
      (actions : List (PolicyAction F)) (s s2 : Session H)
      → IsTallied H actions t.action_counts
      → t.actions ≡ actions ++ calls_tool action ∷ []
      → tool_round action context t s ≡ some (ok (goes_on u), s2)
      → IsTalliedTurn H u
  unfolding tool_round
  tool_round-IsTallied action context t u actions s s2 tallied asks h =
      let key = H.canonical action in
      let count = count_of key t.action_counts in
      elim (Bool-cases (leb H.max_identical_actions count)) [
        | inl blocked ↦
            let (same_actions, same_counts) =
              block_action-counts t u s s2 (rw (blocked, tool_round) at h) in
            λ call.
              rw (same_actions, same_counts, asks)
                (ground (
                  arith,
                  tallied call,
                  tallied key,
                  request_count-append H call actions action,
                  eq_iff key call,
                ))
        | inr free ↦
            let counted = record t { action_counts = insert key (count + 1) t.action_counts } in
            let (r, s1, _, after) =
              >>=-returned (attempt (execute_action action context t.previous_action_ids))
                (after_attempt counted) s (rw (free, tool_round) at h) in
            let (same_actions, same_counts) = after_attempt-counts counted u r s1 s2 after in
            λ call.
              rw (same_actions, same_counts, asks)
                (ground (
                  arith,
                  tallied call,
                  tallied key,
                  request_count-append H call actions action,
                  count_of-insert key call (count + 1) t.action_counts,
                  eq_iff key call,
                ))
      ]

  act-IsTallied :
      (question : Text) (context : CompiledContext) (t u : Turn F) (action : PolicyAction F)
      (s s2 : Session H)
      → IsTalliedTurn H t
      → act question context (record t { actions = t.actions ++ action ∷ [] }) action s
        ≡ some (ok (goes_on u), s2)
      → IsTalliedTurn H u
  unfolding act
  act-IsTallied question context t u (calls_tool action) s s2 tallied h =
      tool_round-IsTallied action context
        (record t { actions = t.actions ++ calls_tool action ∷ [] }) u t.actions s s2 tallied refl h
  act-IsTallied question context t u (gives_answer answer) s s2 tallied h =
      let (a, s1, _, ended) =
        >>=-returned (complete_answer answer question context _ t.warnings false) _ s h in
      absurd (cc ended)

  ask_round-IsTallied :
      (question : Text) (t u : Turn F) (s s2 : Session H)
      → IsTalliedTurn H t
      → ask_round question t s ≡ some (ok (goes_on u), s2)
      → IsTalliedTurn H u
  unfolding ask_round
  ask_round-IsTallied question t u s s2 tallied h =
      let (context, s3, _, h1) =
        >>=-returned (compile_context question t.previous_action_ids t.recent_lineage) _ s h in
      let (action, s4, _, h2) =
        >>=-returned (policy_action question context t.actions false) _ s3 h1 in
      let (_, s5, _, h3) = >>=-returned (clocked (reserve_step F false)) _ s4 h2 in
      act-IsTallied question context t u action s5 s2 tallied h3

  pub Reached-IsTallied :
      {question : Text} {ids : List String} {ws : List (WarningInfo F)} {start : Session H}
      {t : Turn F} {s : Session H}
      → Reached question ids ws start t s
      → IsTalliedTurn H t
  unfolding request_count count_of lookup
  Reached-IsTallied begins = λ call. ground arith
  Reached-IsTallied {question} (continues {t} {u} {s} {s1} {s2} before _ round) =
      ask_round-IsTallied question t u s1 s2 (Reached-IsTallied before) round
