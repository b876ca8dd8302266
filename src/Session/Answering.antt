-- ===== src/Session/Answering.antt =====
-- `_complete_answer`, `_validate_evidence_traced` and `_policy_degradations` of
-- src/penampakan/session.py.
use penampakan.Base.{
  ℕ, zero, suc, String, Bool, true, false, some, List, [], ◌∷◌, ◌++◌, map, if◌then◌else◌,
}
use penampakan.Base.Floats.{Floats}
use penampakan.Base.Errors.{
  Error, evidence_validation, llm_call_limit_exceeded, invalid_model_action,
}
use penampakan.Base.Result.{Result, ok, raised}
use penampakan.Base.Run.{Run, pure, fail, lift, attempt, modify, ◌>>=◌, ◌>>◌}
use penampakan.Base.Dict.{update}
use penampakan.Base.Texts.{contains}
use penampakan.Models.{WarningInfo, dict_end}
use penampakan.Answer.{
  Scope, AnswerAction, EvidenceRef, Evidence, VisionAnswer, observation_index, validate_evidence,
  materialize_answer,
}
use penampakan.Context.Lines.{Text, dedupe}
use penampakan.Context.Select.{CompiledContext}
use penampakan.Assets.{Imaging, ImageAsset}
use penampakan.Assets.Commit as AssetMethods
use penampakan.Store as ObservationMethods
use penampakan.Session.{
  Host, Session, PolicyAction, calls_tool, gives_answer, on_assets, on_observations,
}
use penampakan.Session.Policy.{policy_repair}

-- `_MAX_POLICY_DEGRADATIONS`
abbrev max_policy_degradations : ℕ
max_policy_degradations = 4

-- `except (InvalidModelActionError, LLMCallLimitExceededError)`
unfoldable pub repair_invalid : {A : Type 0} → Result A → Result A
repair_invalid (raised llm_call_limit_exceeded) = raised evidence_validation
repair_invalid (raised (invalid_model_action code)) = raised evidence_validation
repair_invalid r = r

-- `except EvidenceValidationError`
unfoldable pub is_evidence_error : Error → Bool
is_evidence_error evidence_validation = true
is_evidence_error e = false

module _ {F : Floats} where
  -- the loop of `_policy_degradations` over the first warnings that were reported
  unfoldable pub policy_degradations : ℕ → List String → List (WarningInfo F) → List (WarningInfo F)
  unfolding contains
  policy_degradations zero present ws = []
  policy_degradations (suc n) present [] = []
  policy_degradations (suc n) present (w ∷ ws) =
      let skip = policy_degradations n present ws in
      let keep = policy_degradations n (w.code ∷ present) ws in
      if contains w.code present then skip else w ∷ keep

  abbrev feedback : WarningInfo F
  feedback = record {
    code = "evidence_validation";
    message = "The answer contains invalid evidence references.";
    details = dict_end;
  }

module _ {P : Imaging} {F : Floats} {H : Host P F} where
  -- the arguments of `validate_evidence`
  unfoldable pub answer_scope : CompiledContext → Run (Session H) (Scope F)
  unfolding ObservationMethods.snapshots AssetMethods.snapshots observation_index update
  answer_scope context = do
    observations ← on_observations ObservationMethods.snapshots
    assets ← on_assets AssetMethods.snapshots
    λ s. some (
      ok (record {
        raw_decode = H.raw_decode;
        casefold = H.casefold;
        indexed = observation_index observations;
        visible = context.visible_observation_ids;
        root_asset_id = s.assets.root_id;
        asset_root_ids = update [] (map (λ (a : ImageAsset F). (a.id, s.assets.root_id)) assets);
      }),
      s,
    )

  -- `_validate_evidence_traced`
  unfoldable pub validate : AnswerAction → CompiledContext → Run (Session H) (List (Evidence F))
  unfolding answer_scope validate_evidence
  validate action context = do scope ← answer_scope context; lift (validate_evidence action scope)

  -- the repaired action has to be an answer that is valid
  unfoldable pub check_repaired : CompiledContext → PolicyAction F → Run (Session H) AnswerAction
  unfolding validate
  check_repaired context (calls_tool call) = fail evidence_validation
  check_repaired context (gives_answer answer) = do es ← validate answer context; pure answer

  -- the handler of a first `EvidenceValidationError`: the repaired answer
  unfoldable pub repair_answer :
      AnswerAction
      → Text
      → CompiledContext
      → List (PolicyAction F)
      → Bool
      → Run (Session H) AnswerAction
  unfolding policy_repair repair_invalid check_repaired
  repair_answer action question context prior final_call = do
    repaired ←
        attempt (
          policy_repair question context prior true (feedback ∷ []) (some (H.dump_answer action))
            final_call)
        >>= λ r. lift (repair_invalid r)
    check_repaired context repaired

  -- the `except` of the first validation
  unfoldable pub accept_answer :
      AnswerAction
      → Text
      → CompiledContext
      → List (PolicyAction F)
      → Bool
      → Result (List (Evidence F))
      → Run (Session H) AnswerAction
  unfolding repair_answer is_evidence_error
  accept_answer action question context prior final_call (ok es) = pure action
  accept_answer action question context prior final_call (raised e) =
      if is_evidence_error e then repair_answer action question context prior final_call else fail e

  -- the statements of `_complete_answer` after its validation
  unfoldable pub finish_answer :
      AnswerAction
      → CompiledContext
      → List (WarningInfo F)
      → Run (Session H) (VisionAnswer F H.Trace)
  unfolding answer_scope policy_degradations materialize_answer dedupe
  finish_answer action context warnings = do
    let cited : List String = map (λ (r : EvidenceRef). r.observation_id) action.evidence
    modify (λ s. record s { previous_answer_observation_ids = dedupe [] cited })
    trace ← λ s. let (t, w) = H.finish action.status s.world in some (ok t, record s { world = w })
    scope ← answer_scope context
    λ s.
        let codes : List String = map (λ (w : WarningInfo F). w.code) warnings in
        let degraded = policy_degradations max_policy_degradations codes (H.degradations s.world) in
        some (
          materialize_answer action scope (warnings ++ degraded ++ H.trace_warnings s.world) trace,
          s,
        )

  -- `_complete_answer`
  unfoldable pub complete_answer :
      AnswerAction
      → Text
      → CompiledContext
      → List (PolicyAction F)
      → List (WarningInfo F)
      → Bool
      → Run (Session H) (VisionAnswer F H.Trace)
  unfolding validate accept_answer finish_answer
  complete_answer action question context prior warnings final_call = do
    checked ← attempt (validate action context)
    accepted ← accept_answer action question context prior final_call checked
    finish_answer accepted context warnings
