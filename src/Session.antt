-- ===== src/Session.antt =====
-- src/penampakan/session.py: the run of a question. The session owns a budget for the run, the
-- observations and the assets; the policy, the tools, the clock and the trace that it was given are
-- parameters (`Host`). Each `await` that can fail is a step of the run. What is emitted to the trace,
-- and the cancellation of a run from outside, are left out.
pub mod Policy
pub mod Tools
pub mod Execute
pub mod Answering
pub mod Ask
pub mod Keeps
mod Halts
mod Lineage
mod Acts
mod Grounded
mod Rounds
mod Tally
mod Blocked
mod Runs
mod Tests
use penampakan.Base.{
  ℕ, suc, ◌+◌, ◌*◌, String, Bool, true, false, Option, none, some, List, [], ◌∷◌, map, str_eq,
  if◌then◌else◌,
}
use penampakan.Base.Floats.{Floats, Arg, boolean, integer, real}
use penampakan.Base.Int.{pos}
use penampakan.Base.Errors.{
  Error, runtime_error, step_limit_exceeded, llm_call_limit_exceeded, tool_limit_exceeded,
  backend_call_limit_exceeded, asset_limit_exceeded, derivation_depth_limit_exceeded,
  context_limit_exceeded,
}
use penampakan.Base.Result.{Result, ok, raised}
use penampakan.Base.Exec.{Exec}
use penampakan.Base.Run.{Run, once, ◌>>=◌, ◌>>◌}
use penampakan.Base.Dict.{Dict, lookup}
use penampakan.Config.{RunLimits}
use penampakan.Models.{
  Json, JsonDict, Observation, ObservationPayload, ObservationDraft, Provenance, WarningInfo,
  MarkRef,
}
use penampakan.Budget.{
  RunBudget, RemainingBudget, reserve_backend_call, refund_unstarted_backend_call,
}
use penampakan.Answer.{ActionStatus, AnswerAction}
use penampakan.Context.Lines.{Text}
use penampakan.Context.Pieces.{Writer}
use penampakan.Context.Select.{CompiledContext}
use penampakan.Assets.{Imaging, AssetStore, PendingAsset}
use penampakan.Store.{ObservationStore, AssetOwner}

-- `ToolAction`
pub record ToolAction (F : Floats) : Type 0 where
  pub tool : String
  pub arguments : JsonDict F
  pub purpose : String

-- `PolicyAction`
pub data PolicyAction (F : Floats) : Type 0 where
  calls_tool : ToolAction F → PolicyAction F
  gives_answer : AnswerAction → PolicyAction F

-- `ToolSpec`, its description, schema and costs as one mapping
pub record ToolSpec (F : Floats) : Type 0 where
  pub name : String
  pub declaration : JsonDict F

-- `PolicyInput`
pub record PolicyInput (F : Floats) : Type 0 where
  pub question : Text
  pub context : Text
  pub tools : List (ToolSpec F)
  pub prior_actions : List (PolicyAction F)
  pub remaining : RemainingBudget F
  pub answer_only : Bool
  pub validation_feedback : List (WarningInfo F)
  pub invalid_model_output : Option String

-- What the awaited policy gives: an action, an `ActionParseError` with its feedback, the expiration of
-- `wait_for`, another exception, or an object that is no action.
pub data Decision (F : Floats) : Type 0 where
  decides : PolicyAction F → Decision F
  misparses : List (WarningInfo F) → Option String → Decision F
  times_out decides_nothing : Decision F
  fails : Error → Decision F

-- the attributes of validated arguments that the session reads
pub record ToolTarget : Type 0 where
  pub asset_id : Option String
  pub rows : Option ℕ
  pub columns : Option ℕ

-- `ToolResult` of perception/registry.py, its observations left out since the session ignores them
pub record ToolResult (P : Imaging) (F : Floats) : Type 0 where
  pub assets : List (PendingAsset P F)
  pub warnings : List (WarningInfo F)
  pub mark_mappings : List (List (MarkRef F))
  pub source_observation_ids : List String

-- `_PerceptionOutcome`: what a tool perceived, its provenance without the parents
pub record Perception (F : Floats) : Type 0 where
  pub asset_id : String
  pub drafts : List (ObservationDraft F)
  pub provenance : Provenance

-- the calls of the run's budget that a tool makes for its backends
pub data BackendUse (F : Floats) : Type 0 where
  reserves : Arg F.Float → Arg F.Float → BackendUse F
  refunds : Arg F.Float → BackendUse F

-- how an executed tool ends: its result, a `ToolExecutionError` with its code, or another exception
pub data ToolOutcome (P : Imaging) (F : Floats) : Type 0 where
  returns : ToolResult P F → ToolOutcome P F
  tool_fails : String → ToolOutcome P F
  raises : ToolOutcome P F

pub record Execution (P : Imaging) (F : Floats) : Type 0 where
  pub uses : List (BackendUse F)
  pub outcome : ToolOutcome P F
  pub perception : Option (Perception F)

-- What the session was given, and the library functions that it calls. `World` is the state of the
-- given objects.
pub record Host (P : Imaging) (F : Floats) : Type 1 where
  pub World : Type 0
  pub Trace : Type 0
  pub clock : World → Arg F.Float × World
  pub has_policy : Bool
  -- pydantic's validation of a `PolicyInput`
  pub accepts_input : PolicyInput F → Bool
  pub next_action : PolicyInput F → F.Float → World → Decision F × World
  pub prompt_version : Option String
  pub degradations : World → List (WarningInfo F)
  pub specs : List (ToolSpec F)
  pub validate_arguments : ToolAction F → Option ToolTarget
  pub execute :
      ToolAction F
      → List String
      → AssetStore P F
      → ObservationStore F
      → World
      → Execution P F × World
  pub finish : ActionStatus → World → Trace × World
  pub trace_warnings : World → List (WarningInfo F)
  pub max_identical_actions : ℕ
  pub writer : Writer F
  pub strip : Text → Text
  pub score : Text → ℕ → Observation F → F.Float
  pub raw_decode : String → Option (Json F)
  pub casefold : String → String
  pub sha256 : String → String
  pub canonical : ToolAction F → String
  pub dump_answer : AnswerAction → String
  pub is_safe_code : String → Bool

-- `AsyncVisionSession`, with the budget of the run
pub record Session {P : Imaging} {F : Floats} (H : Host P F) : Type 0 where
  pub budget : RunBudget F
  pub observations : ObservationStore F
  pub assets : AssetStore P F
  pub previous_answer_observation_ids : List String
  pub world : H.World

-- `isinstance(error, BudgetExceededError)`, and `error.code`
unfoldable pub budget_code : Error → Option String
budget_code step_limit_exceeded = some "step_limit_exceeded"
budget_code llm_call_limit_exceeded = some "llm_call_limit_exceeded"
budget_code tool_limit_exceeded = some "tool_limit_exceeded"
budget_code backend_call_limit_exceeded = some "backend_call_limit_exceeded"
budget_code asset_limit_exceeded = some "asset_limit_exceeded"
budget_code derivation_depth_limit_exceeded = some "derivation_depth_limit_exceeded"
budget_code context_limit_exceeded = some "context_limit_exceeded"
budget_code e = none

module _ {P : Imaging} {F : Floats} where
  -- `asset_id in self._assets`
  abbrev pub owner : AssetStore P F → AssetOwner
  owner a id = some (elim (lookup id a.records) [ none ↦ false | some r ↦ true ])

module _ {F : Floats} where
  -- what a tool's backends do to the budget
  unfoldable pub spend : List (BackendUse F) → RunBudget F → RunBudget F
  unfolding reserve_backend_call refund_unstarted_backend_call
  spend [] b = b
  spend (reserves count clock ∷ uses) b = spend uses (reserve_backend_call F count clock b).1
  spend (refunds count ∷ uses) b = spend uses (refund_unstarted_backend_call F count b).1

module _ {P : Imaging} {F : Floats} {H : Host P F} where
  -- what the injected clock returns
  abbrev pub read : Run (Session H) (Arg F.Float)
  read s = let (now, w) = H.clock s.world in some (ok now, record s { world = w })

  -- a method of the budget, of the observations, or of the assets
  abbrev pub on_budget : {A : Type 0} → Exec (RunBudget F) A → Run (Session H) A
  on_budget m s = let (r, b) = m s.budget in some (r, record s { budget = b })

  abbrev pub on_observations : {A : Type 0} → Exec (ObservationStore F) A → Run (Session H) A
  on_observations m s = let (r, o) = m s.observations in some (r, record s { observations = o })

  abbrev pub on_assets : {A : Type 0} → Exec (AssetStore P F) A → Run (Session H) A
  on_assets m s = let (r, a) = m s.assets in some (r, record s { assets = a })

  -- a method of the budget that reads the clock once
  abbrev pub clocked : {A : Type 0} → (Arg F.Float → Exec (RunBudget F) A) → Run (Session H) A
  clocked m = do now ← read; on_budget (m now)
