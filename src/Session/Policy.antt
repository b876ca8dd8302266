-- ===== src/Session/Policy.antt =====
-- `_compile_context`, `_policy_tool_specs`, `_maximum_depth` and `_policy_action` of
-- src/penampakan/session.py.
use penampakan.Base.{
  ℕ, max, String, Bool, true, false, not, ◌&&◌, ◌||◌, Option, none, some, List, [], ◌∷◌, map, any,
  str_eq, if◌then◌else◌,
}
use penampakan.Base.Floats.{Floats, integer, real}
use penampakan.Base.Int.{pos}
use penampakan.Base.Errors.{
  value_error, llm_call_limit_exceeded, llm_not_configured, llm_error, invalid_model_action,
}
use penampakan.Base.Result.{Result, ok, raised, require}
use penampakan.Base.Run.{Run, pure, fail, lift, attempt, ◌>>=◌, ◌>>◌}
use penampakan.Base.Texts.{contains}
use penampakan.Models.{
  Observation, ObservationPayload, WarningInfo, detection_payload, segmentation_payload,
  mark_payload,
}
use penampakan.Budget.{RunBudget, reserve_llm_call, remaining, component_timeout}
use penampakan.Context.Lines.{Text}
use penampakan.Context.Select.{CompiledContext, Focus}
use penampakan.Context.Compile.{compile}
use penampakan.Assets.{Imaging, ImageAsset}
use penampakan.Assets.Commit as AssetMethods
use penampakan.Store as ObservationMethods
use penampakan.Session.{
  Host, Session, PolicyAction, PolicyInput, ToolSpec, Decision, decides, misparses, times_out,
  decides_nothing, fails, read, on_assets, on_observations, clocked,
}

-- one round of the policy: an action, or an output that did not parse
pub data Parsed (F : Floats) : Type 0 where
  parsed : PolicyAction F → Parsed F
  unparsed : List (WarningInfo F) → Option String → Parsed F

module _ {F : Floats} where
  is_region : Observation F → Bool
  is_region o = elim o.region [ none ↦ false | some r ↦ is_localized o.payload ]
    where
      is_localized : ObservationPayload F → Bool
      is_localized (detection_payload label attributes) = true
      is_localized (segmentation_payload label points) = true
      is_localized payload = false

  is_mark : ObservationPayload F → Bool
  is_mark (mark_payload p) = true
  is_mark payload = false

  deepest : List (ImageAsset F) → ℕ
  deepest [] = 0
  deepest (a ∷ assets) = max a.derivation_depth (deepest assets)

  -- the filter of `_policy_tool_specs`
  unfoldable pub select_specs : Bool → Bool → List (ToolSpec F) → List (ToolSpec F)
  select_specs source mapping [] = []
  select_specs source mapping (spec ∷ specs) =
      let rest = select_specs source mapping specs in
      if (not (str_eq spec.name "mark_regions") || source)
        && (not (str_eq spec.name "describe_marks") || mapping)
      then spec ∷ rest
      else rest

-- `except LLMCallLimitExceededError`
unfoldable pub call_limit_invalid : {A : Type 0} → Result A → Result A
call_limit_invalid (raised llm_call_limit_exceeded) =
    raised (invalid_model_action "invalid_model_action")
call_limit_invalid r = r

module _ {P : Imaging} {F : Floats} {H : Host P F} where
  -- the arguments of `compile`
  unfoldable pub focus : List String → List String → List (ImageAsset F) → Session H → Focus
  focus previous_action_ids recent_lineage assets s = record {
    root_asset_id = s.assets.root_id;
    relevant_asset_ids = some (map (λ (a : ImageAsset F). a.id) assets);
    most_recent_asset_lineage = recent_lineage;
    previous_action_observation_ids = previous_action_ids;
    previous_answer_observation_ids = s.previous_answer_observation_ids;
    pinned_observation_ids = [];
  }

  -- `_compile_context`
  unfoldable pub compile_context :
      Text → List String → List String → Run (Session H) CompiledContext
  unfolding compile focus AssetMethods.snapshots ObservationMethods.snapshots
  compile_context question previous_action_ids recent_lineage = do
    observations ← on_observations ObservationMethods.snapshots
    assets ← on_assets AssetMethods.snapshots
    λ s.
        elim (compile H.writer H.strip H.score s.budget.limits.max_context_chars question
          observations (focus previous_action_ids recent_lineage assets s)) [
            | none ↦ none
            | some r ↦ some (r, s)
          ]

  -- `_policy_tool_specs`
  unfoldable pub policy_tool_specs : CompiledContext → Run (Session H) (List (ToolSpec F))
  unfolding is_region is_mark select_specs ObservationMethods.snapshots contains
  policy_tool_specs context = do
    observations ← on_observations ObservationMethods.snapshots
    let visible : Observation F → Bool =
        λ (o : Observation F). contains o.id context.visible_observation_ids
    let enabled : Bool = elim H.prompt_version [ none ↦ true | some v ↦ not (str_eq v "agent-v1") ]
    pure (
        select_specs (enabled && any (λ o. visible o && is_region o) observations)
          (enabled && any (λ (o : Observation F). visible o && is_mark o.payload) observations)
          H.specs)

  -- `_maximum_depth`
  unfoldable pub maximum_depth : Run (Session H) ℕ
  unfolding deepest AssetMethods.snapshots
  maximum_depth = do assets ← on_assets AssetMethods.snapshots; pure (deepest assets)

  -- the budget's answers that raise but change nothing
  abbrev of_budget : {A : Type 0} → (RunBudget F → Result A) → Run (Session H) A
  of_budget m s = some (m s.budget, s)

  -- `self._policy.next_action` under `wait_for`
  abbrev ask_policy : PolicyInput F → F.Float → Run (Session H) (Decision F)
  ask_policy i seconds s =
      let (d, w) = H.next_action i seconds s.world in some (ok d, record s { world = w })

  -- what `_policy_action` makes of the policy's decision
  unfoldable pub judge : Decision F → Run (Session H) (Parsed F)
  judge (decides action) = pure (parsed action)
  judge (misparses feedback output) = pure (unparsed feedback output)
  judge times_out = fail (llm_error "llm_timeout")
  judge decides_nothing = fail (invalid_model_action "invalid_policy_action")
  judge (fails e) = fail e

  -- `_policy_action` up to its recursive call
  unfoldable pub policy_round :
      Text
      → CompiledContext
      → List (PolicyAction F)
      → Bool
      → List (WarningInfo F)
      → Option String
      → Bool
      → Bool
      → Run (Session H) (Parsed F)
  unfolding policy_tool_specs maximum_depth remaining component_timeout reserve_llm_call judge
  policy_round question context prior answer_only feedback output repair final = do
    lift (require H.has_policy llm_not_configured)
    clocked (reserve_llm_call F final repair)
    tools ← policy_tool_specs context
    depth ← maximum_depth
    now ← read
    left ← of_budget λ b. remaining F b (integer (pos depth)) now
    let input : PolicyInput F = record {
      question = question;
      context = context.text;
      tools = tools;
      prior_actions = prior;
      remaining = left;
      answer_only = answer_only;
      validation_feedback = feedback;
      invalid_model_output = output;
    }
    lift (require (H.accepts_input input) value_error)
    clock ← read
    clock' ← read
    seconds ← of_budget λ b. component_timeout F b (real b.limits.llm_timeout_s) clock clock'
    decision ← ask_policy input seconds
    judge decision

  -- `if repair: raise`
  unfoldable pub accept_repair : Parsed F → Run (Session H) (PolicyAction F)
  accept_repair (parsed action) = pure action
  accept_repair (unparsed feedback output) = fail (invalid_model_action "invalid_model_action")

  -- `_policy_action` with `repair=True`
  unfoldable pub policy_repair :
      Text
      → CompiledContext
      → List (PolicyAction F)
      → Bool
      → List (WarningInfo F)
      → Option String
      → Bool
      → Run (Session H) (PolicyAction F)
  unfolding policy_round accept_repair
  policy_repair question context prior answer_only feedback output final = do
    p ← policy_round question context prior answer_only feedback output true final
    accept_repair p

  -- the action of the first output, or of the second one
  unfoldable pub or_repair :
      Text
      → CompiledContext
      → List (PolicyAction F)
      → Bool
      → Parsed F
      → Run (Session H) (PolicyAction F)
  unfolding policy_repair call_limit_invalid
  or_repair question context prior answer_only (parsed action) = pure action
  or_repair question context prior answer_only (unparsed feedback output) =
      attempt (policy_repair question context prior answer_only feedback output answer_only)
      >>= λ r. lift (call_limit_invalid r)

  -- `_policy_action` with `repair=False`
  unfoldable pub policy_action :
      Text → CompiledContext → List (PolicyAction F) → Bool → Run (Session H) (PolicyAction F)
  unfolding policy_round or_repair
  policy_action question context prior answer_only = do
    p ← policy_round question context prior answer_only [] none false answer_only
    or_repair question context prior answer_only p
