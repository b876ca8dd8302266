-- ===== src/Session/Acts.antt =====
-- The tools' part of a run of src/penampakan/session.py: it ends, and keeps the session safe.
use penampakan.Base.{ℕ, zero, suc, refl, String, Option, none, some, List, [], ◌∷◌, ◌++◌}
use penampakan.Base.Floats.{Floats, integer}
use penampakan.Base.Int.{pos}
use penampakan.Base.Result.{Result, ok, raised}
use penampakan.Base.Run.{Keeps, Keeps->>=, Keeps-lift, Keeps-attempt, Keeps-if}
use penampakan.Base.Texts.{contains}
use penampakan.Config.{RunLimits}
use penampakan.Models.{Observation, WarningInfo, MarkRef, Provenance}
use penampakan.Context.Select.{CompiledContext}
use penampakan.Assets.{Imaging, PendingAsset, AssetCommit}
use penampakan.Session.{
  Host, ToolAction, ToolTarget, ToolResult, ToolOutcome, returns, tool_fails, raises, Perception,
}
use penampakan.Session.Tools.{
  first, commit_reasoning_warning, commit_warning_infos, commit_each, commit_transform_observations,
  refuse_action,
}
use penampakan.Session.Execute.{
  reserve_assets, reserve_action, committed_or_refund, commit_assets, last_lineage, finish_assets,
  finish_perception, finish_result, finish_action, perform_action, check_asset, check_arguments,
  execute_action,
}
use penampakan.Session.Keeps.{
  IsSafe, Keeps-commit_drafts, Keeps-asset_snapshot, Keeps-asset_commit, Keeps-reserve_tool_call,
  Keeps-reserve_derived_assets, Keeps-refund, Keeps-run_tool,
}
use penampakan.Session.Lineage.{Keeps-lineage_for_asset}

module _ {P : Imaging} {F : Floats} {H : Host P F} {l : RunLimits F} {k : ℕ} where
  Keeps-first : (os : List (Observation F)) → Keeps (IsSafe l k) (first {H = H} os)
  unfolding first
  Keeps-first [] = λ s h. (_, _, refl, h)
  Keeps-first (o ∷ os) = Keeps-lift (ok o)

  pub Keeps-commit_reasoning_warning :
      (code message : String) (parents : List String)
      → Keeps (IsSafe l k) (commit_reasoning_warning {H = H} code message parents)
  unfolding commit_reasoning_warning
  Keeps-commit_reasoning_warning code message parents =
      Keeps->>= (Keeps-lift _)
        λ _. Keeps->>= (λ s. Keeps-commit_drafts s.assets.root_id _ _ s) Keeps-first

  Keeps-commit_warning_infos :
      (id : String) (ws : List (WarningInfo F)) (parents : List String)
      → Keeps (IsSafe l k) (commit_warning_infos {H = H} id ws parents)
  unfolding commit_warning_infos
  Keeps-commit_warning_infos id [] parents = Keeps-lift (ok [])
  Keeps-commit_warning_infos id (w ∷ ws) parents = Keeps-commit_drafts id _ _

  Keeps-commit_each :
      (cs : List (AssetCommit F)) (mappings : List (List (MarkRef F))) (p : Provenance)
      → Keeps (IsSafe l k) (commit_each {H = H} cs mappings p)
  unfolding commit_each
  Keeps-commit_each [] mappings p = Keeps-lift (ok [])
  Keeps-commit_each (c ∷ cs) mappings p =
      Keeps->>= (Keeps-commit_drafts c.asset.id _ p)
        λ os. Keeps->>= (Keeps-commit_each cs _ p) λ more. Keeps-lift (ok (os ++ more))

  Keeps-commit_transform_observations :
      (action : ToolAction F) (cs : List (AssetCommit F)) (parents : List String)
      (result : ToolResult P F)
      → Keeps (IsSafe l k) (commit_transform_observations {H = H} action cs parents result)
  unfolding commit_transform_observations
  Keeps-commit_transform_observations action cs parents result =
      Keeps->>= (λ s h. (_, _, refl, h)) λ _. Keeps-commit_each cs result.mark_mappings _

  Keeps-refuse_action :
      (code message : String) (info : WarningInfo F) (parents : List String)
      → Keeps (IsSafe l k) (refuse_action {H = H} code message info parents)
  unfolding refuse_action
  Keeps-refuse_action code message info parents =
      Keeps->>= (Keeps-commit_reasoning_warning code message parents) λ o s h. (_, _, refl, h)

  Keeps-reserve_assets : (id : String) (n : ℕ) → Keeps (IsSafe l k) (reserve_assets {H = H} id n)
  unfolding reserve_assets
  Keeps-reserve_assets id zero = Keeps-lift (ok 0)
  Keeps-reserve_assets id (suc n) = Keeps->>= (Keeps-asset_snapshot id) λ parent.
      Keeps->>=
        (Keeps-reserve_derived_assets (integer (pos (suc n)))
          (integer (pos parent.derivation_depth)))
        λ _. Keeps-lift (ok (suc n))

  Keeps-reserve_action :
      (action : ToolAction F) (target : ToolTarget) (id : String)
      → Keeps (IsSafe l k) (reserve_action {H = H} action target id)
  unfolding reserve_action
  Keeps-reserve_action action target id =
      Keeps->>= (Keeps-reserve_tool_call (integer (pos 1))) λ _. Keeps-reserve_assets id _

  Keeps-committed_or_refund :
      (reserved : ℕ) (r : Result (List (AssetCommit F)))
      → Keeps (IsSafe l k) (committed_or_refund {H = H} reserved r)
  unfolding committed_or_refund
  Keeps-committed_or_refund reserved (ok commits) = Keeps-lift (ok commits)
  Keeps-committed_or_refund reserved (raised e) =
      Keeps->>= (Keeps-refund reserved) λ _. Keeps-lift (raised e)

  Keeps-commit_assets :
      (id : String) (pending : List (PendingAsset P F)) (reserved : ℕ)
      → Keeps (IsSafe l k) (commit_assets {H = H} id pending reserved)
  unfolding commit_assets
  Keeps-commit_assets id pending reserved =
      Keeps->>= (Keeps-attempt (Keeps-asset_commit id pending)) (Keeps-committed_or_refund reserved)

  Keeps-last_lineage : (cs : List (AssetCommit F)) → Keeps (IsSafe l k) (last_lineage {H = H} cs)
  unfolding last_lineage
  Keeps-last_lineage [] = Keeps-lift (ok [])
  Keeps-last_lineage (c ∷ cs) = Keeps-lineage_for_asset _

  Keeps-finish_assets :
      (action : ToolAction F) (id : String) (parents : List String) (result : ToolResult P F)
      (reserved : ℕ)
      → Keeps (IsSafe l k) (finish_assets {H = H} action id parents result reserved)
  unfolding finish_assets
  Keeps-finish_assets action id parents result reserved =
      Keeps->>= (Keeps-commit_assets id result.assets reserved) λ commits.
        Keeps->>= (Keeps-refund _) λ _.
          Keeps->>= (Keeps-commit_transform_observations action commits parents result) λ os.
            Keeps->>= (Keeps-commit_warning_infos id result.warnings _)
              λ more. Keeps->>= (Keeps-last_lineage commits) λ lineage s h. (_, _, refl, h)

  Keeps-finish_perception :
      (id : String) (parents : List String) (result : ToolResult P F) (p : Option (Perception F))
      → Keeps (IsSafe l k) (finish_perception {H = H} id parents result p)
  unfolding finish_perception
  Keeps-finish_perception id parents result none =
      Keeps->>= (Keeps-lineage_for_asset id) λ lineage s h. (_, _, refl, h)
  Keeps-finish_perception id parents result (some p) =
      Keeps->>= (Keeps-commit_drafts p.asset_id p.drafts _) λ os.
        Keeps->>= (Keeps-commit_warning_infos p.asset_id result.warnings _)
          λ more. Keeps->>= (Keeps-lineage_for_asset id) λ lineage s h. (_, _, refl, h)

  Keeps-finish_result :
      (action : ToolAction F) (id : String) (parents : List String) (reserved : ℕ)
      (p : Option (Perception F)) (result : ToolResult P F) (assets : List (PendingAsset P F))
      → Keeps (IsSafe l k) (finish_result {H = H} action id parents reserved p result assets)
  unfolding finish_result
  Keeps-finish_result action id parents reserved p result [] =
      Keeps-finish_perception id parents result p
  Keeps-finish_result action id parents reserved p result (a ∷ rest) =
      Keeps-finish_assets action id parents result reserved

  Keeps-finish_action :
      (action : ToolAction F) (id : String) (parents : List String) (reserved : ℕ)
      (p : Option (Perception F)) (o : ToolOutcome P F)
      → Keeps (IsSafe l k) (finish_action {H = H} action id parents reserved p o)
  unfolding finish_action
  Keeps-finish_action action id parents reserved p (tool_fails code) =
      Keeps->>= (Keeps-refund reserved) λ _. Keeps-refuse_action _ _ _ parents
  Keeps-finish_action action id parents reserved p raises =
      Keeps->>= (Keeps-refund reserved) λ _. Keeps-refuse_action _ _ _ parents
  Keeps-finish_action action id parents reserved p (returns result) =
      Keeps-finish_result action id parents reserved p result result.assets

  Keeps-perform_action :
      (action : ToolAction F) (target : ToolTarget) (id : String) (context : CompiledContext)
      (parents : List String)
      → Keeps (IsSafe l k) (perform_action {H = H} action target id context parents)
  unfolding perform_action
  Keeps-perform_action action target id context parents =
      Keeps->>= (Keeps-reserve_action action target id) λ reserved.
        Keeps->>= (Keeps-run_tool action context.visible_observation_ids)
          λ x. Keeps-finish_action action id parents reserved x.perception x.outcome

  Keeps-check_asset :
      (action : ToolAction F) (context : CompiledContext) (parents : List String)
      (target : ToolTarget) (id : Option String)
      → Keeps (IsSafe l k) (check_asset {H = H} action context parents target id)
  unfolding check_asset
  Keeps-check_asset action context parents target none = Keeps-refuse_action _ _ _ parents
  Keeps-check_asset action context parents target (some id) =
      Keeps-if (contains id context.visible_asset_ids)
        (Keeps-perform_action action target id context parents) (Keeps-refuse_action _ _ _ parents)

  Keeps-check_arguments :
      (action : ToolAction F) (context : CompiledContext) (parents : List String)
      (target : Option ToolTarget)
      → Keeps (IsSafe l k) (check_arguments {H = H} action context parents target)
  unfolding check_arguments
  Keeps-check_arguments action context parents none = Keeps-refuse_action _ _ _ parents
  Keeps-check_arguments action context parents (some target) =
      Keeps-check_asset action context parents target target.asset_id

  pub Keeps-execute_action :
      (action : ToolAction F) (context : CompiledContext) (parents : List String)
      → Keeps (IsSafe l k) (execute_action {H = H} action context parents)
  unfolding execute_action
  Keeps-execute_action action context parents =
      Keeps-check_arguments action context parents (H.validate_arguments action)
