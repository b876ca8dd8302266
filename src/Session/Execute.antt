-- ===== src/Session/Execute.antt =====
-- `_execute_action` of src/penampakan/session.py.
use penampakan.Base.{ℕ, zero, suc, String, Option, none, some, List, [], ◌∷◌, ◌++◌, if◌then◌else◌}
use penampakan.Base.Floats.{Floats, integer}
use penampakan.Base.Int.{pos}
use penampakan.Base.Result.{Result, ok, raised}
use penampakan.Base.Run.{Run, pure, fail, attempt, ◌>>=◌, ◌>>◌}
use penampakan.Base.Texts.{contains}
use penampakan.Models.{WarningInfo, dict_end, entry, json_str}
use penampakan.Budget.{reserve_tool_call, reserve_derived_assets}
use penampakan.Context.Select.{CompiledContext}
use penampakan.Assets.{Imaging, PendingAsset, AssetCommit}
use penampakan.Assets.Commit as AssetMethods
use penampakan.Session.{
  Host, Session, ToolAction, ToolTarget, ToolResult, ToolOutcome, returns, tool_fails, raises,
  Execution, Perception, spend, on_assets, clocked,
}
use penampakan.Session.Tools.{
  Acted, transform_asset_count, warning, ids_of, count_reused, last_id, commit_drafts,
  commit_warning_infos, commit_transform_observations, lineage_for_asset, refuse_action, refund,
}

module _ {F : Floats} where
  abbrev failed : String → String → WarningInfo F
  failed code tool = record {
    code = code;
    message = "A requested visual tool failed safely.";
    details = entry "tool_name" (json_str tool) dict_end;
  }

module _ {P : Imaging} {F : Floats} {H : Host P F} where
  -- `if reserved_assets: ...`
  unfoldable pub reserve_assets : String → ℕ → Run (Session H) ℕ
  unfolding reserve_derived_assets AssetMethods.snapshot
  reserve_assets asset_id zero = pure 0
  reserve_assets asset_id (suc n) = do
    parent ← on_assets (AssetMethods.snapshot asset_id)
    clocked
        (reserve_derived_assets F (integer (pos (suc n))) (integer (pos parent.derivation_depth)))
    pure (suc n)

  -- the reservations before the tool runs, and the number of reserved assets
  unfoldable pub reserve_action : ToolAction F → ToolTarget → String → Run (Session H) ℕ
  unfolding transform_asset_count reserve_tool_call reserve_assets
  reserve_action action target asset_id = do
    clocked (reserve_tool_call F (integer (pos 1)))
    reserve_assets asset_id (transform_asset_count action.tool target)

  -- `self._tools.execute`
  unfoldable pub run_tool : ToolAction F → List String → Run (Session H) (Execution P F)
  unfolding spend
  run_tool action visible s =
      let (x, w) = H.execute action visible s.assets s.observations s.world in
      some (ok x, record s { world = w; budget = spend x.uses s.budget })

  unfoldable pub committed_or_refund :
      ℕ → Result (List (AssetCommit F)) → Run (Session H) (List (AssetCommit F))
  unfolding refund
  committed_or_refund reserved (ok commits) = pure commits
  committed_or_refund reserved (raised e) = refund reserved >> fail e

  -- `self._assets.commit`, with a refund where it raises
  unfoldable pub commit_assets :
      String → List (PendingAsset P F) → ℕ → Run (Session H) (List (AssetCommit F))
  unfolding AssetMethods.commit committed_or_refund
  commit_assets asset_id pending reserved = do
    r ← attempt (on_assets (AssetMethods.commit asset_id pending))
    committed_or_refund reserved r

  -- the lineage of the last commit
  unfoldable pub last_lineage : List (AssetCommit F) → Run (Session H) (List String)
  unfolding lineage_for_asset last_id
  last_lineage [] = pure []
  last_lineage (c ∷ cs) = lineage_for_asset (last_id c cs)

  -- a result with assets
  unfoldable pub finish_assets :
      ToolAction F → String → List String → ToolResult P F → ℕ → Run (Session H) (Acted F)
  unfolding commit_assets refund count_reused commit_transform_observations commit_warning_infos
      last_lineage
  finish_assets action asset_id parents result reserved = do
    commits ← commit_assets asset_id result.assets reserved
    refund (count_reused commits)
    observations ← commit_transform_observations action commits parents result
    more ← commit_warning_infos asset_id result.warnings (ids_of observations)
    lineage ← last_lineage commits
    pure (record {
      observations = observations ++ more;
      warnings = result.warnings;
      lineage = lineage;
    })

  -- a result without assets
  unfoldable pub finish_perception :
      String → List String → ToolResult P F → Option (Perception F) → Run (Session H) (Acted F)
  unfolding commit_drafts commit_warning_infos lineage_for_asset
  finish_perception asset_id parents result none = do
    lineage ← lineage_for_asset asset_id
    pure (record { observations = []; warnings = result.warnings; lineage = lineage })
  finish_perception asset_id parents result (some p) = do
    observations ←
        commit_drafts p.asset_id p.drafts (record p.provenance { parent_observation_ids = parents })
    more ← commit_warning_infos p.asset_id result.warnings (ids_of observations)
    lineage ← lineage_for_asset asset_id
    pure (record {
      observations = observations ++ more;
      warnings = result.warnings;
      lineage = lineage;
    })

  -- `if result.assets`
  unfoldable pub finish_result :
      ToolAction F
      → String
      → List String
      → ℕ
      → Option (Perception F)
      → ToolResult P F
      → List (PendingAsset P F)
      → Run (Session H) (Acted F)
  unfolding finish_assets finish_perception
  finish_result action asset_id parents reserved perception result [] =
      finish_perception asset_id parents result perception
  finish_result action asset_id parents reserved perception result (a ∷ rest) =
      finish_assets action asset_id parents result reserved

  -- what the session does with the tool's outcome
  unfoldable pub finish_action :
      ToolAction F
      → String
      → List String
      → ℕ
      → Option (Perception F)
      → ToolOutcome P F
      → Run (Session H) (Acted F)
  unfolding refund refuse_action finish_result
  finish_action action asset_id parents reserved perception (tool_fails code) = do
    refund reserved
    let safe : String = if H.is_safe_code code then code else "tool_execution_failed"
    refuse_action safe "A visual tool rejected an unavailable or invalid source."
        (failed safe action.tool) parents
  finish_action action asset_id parents reserved perception raises = do
    refund reserved
    refuse_action "tool_execution_failed"
        "A visual tool could not complete its requested operation."
        (failed "tool_execution_failed" action.tool) parents
  finish_action action asset_id parents reserved perception (returns result) =
      finish_result action asset_id parents reserved perception result result.assets

  -- `_execute_action` after the check of the arguments and the asset
  unfoldable pub perform_action :
      ToolAction F → ToolTarget → String → CompiledContext → List String → Run (Session H) (Acted F)
  unfolding reserve_action run_tool finish_action
  perform_action action target asset_id context parents = do
    reserved ← reserve_action action target asset_id
    x ← run_tool action context.visible_observation_ids
    finish_action action asset_id parents reserved x.perception x.outcome

  -- the check of the asset
  unfoldable pub check_asset :
      ToolAction F
      → CompiledContext
      → List String
      → ToolTarget
      → Option String
      → Run (Session H) (Acted F)
  unfolding refuse_action perform_action contains
  check_asset action context parents target none =
      refuse_action "tool_asset_not_visible"
        "A tool action referenced an asset outside the latest policy context."
        (warning "tool_asset_not_visible" "A tool action referenced an unavailable asset.") parents
  check_asset action context parents target (some asset_id) =
      if contains asset_id context.visible_asset_ids
      then perform_action action target asset_id context parents
      else refuse_action "tool_asset_not_visible"
          "A tool action referenced an asset outside the latest policy context."
          (warning "tool_asset_not_visible" "A tool action referenced an unavailable asset.")
          parents

  -- the check of the arguments
  unfoldable pub check_arguments :
      ToolAction F → CompiledContext → List String → Option ToolTarget → Run (Session H) (Acted F)
  unfolding refuse_action check_asset
  check_arguments action context parents none =
      refuse_action "invalid_tool_arguments"
        "A tool action contained invalid or undeclared arguments."
        (warning "invalid_tool_arguments" "A tool action contained invalid arguments.") parents
  check_arguments action context parents (some target) =
      check_asset action context parents target target.asset_id

  -- `_execute_action`
  unfoldable pub execute_action :
      ToolAction F → CompiledContext → List String → Run (Session H) (Acted F)
  unfolding check_arguments
  execute_action action context parents =
      check_arguments action context parents (H.validate_arguments action)
