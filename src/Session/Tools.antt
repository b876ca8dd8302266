-- ===== src/Session/Tools.antt =====
-- What an action of src/penampakan/session.py commits to the session's stores.
use penampakan.Base.{
  ℕ, zero, suc, ◌*◌, String, Bool, false, ◌||◌, Option, none, some, List, [], ◌∷◌, ◌++◌, map,
  length, ◌==◌, str_eq, if◌then◌else◌,
}
use penampakan.Base.Floats.{Floats, integer}
use penampakan.Base.Int.{pos}
use penampakan.Base.Errors.{value_error, index_error}
use penampakan.Base.Result.{ok, require}
use penampakan.Base.Run.{Run, pure, fail, lift, ◌>>=◌, ◌>>◌}
use penampakan.Base.Dict.{Dict, lookup, update}
use penampakan.Models.{
  is_snake_name, ObservationPayload, Observation, ObservationDraft, Provenance, WarningInfo,
  MarkRef, dict_end, warning_payload, transform_payload, mark_payload,
}
use penampakan.Budget.{refund_reused_assets}
use penampakan.Context.Lines.{dedupe}
use penampakan.Assets.{Imaging, ImageAsset, AssetCommit}
use penampakan.Assets.Commit as AssetMethods
use penampakan.Store as ObservationMethods
use penampakan.Session.{
  Host, Session, ToolAction, ToolTarget, ToolResult, owner, on_budget, on_observations, on_assets,
}

-- what a tool action left: its observations, its warnings, and the lineage to look at next
pub record Acted (F : Floats) : Type 0 where
  pub observations : List (Observation F)
  pub warnings : List (WarningInfo F)
  pub lineage : List String

makes_one : String → Bool
makes_one tool =
    str_eq tool "crop"
    || str_eq tool "rotate"
    || str_eq tool "enhance_contrast"
    || str_eq tool "to_grayscale"
    || str_eq tool "add_coordinate_grid"
    || str_eq tool "mark_regions"

tile_count : Option ℕ → Option ℕ → ℕ
tile_count (some rows) (some columns) = rows * columns
tile_count rows columns = 0

-- `_transform_asset_count`
unfoldable pub transform_asset_count : String → ToolTarget → ℕ
unfolding makes_one tile_count
transform_asset_count tool target =
    if str_eq tool "tile"
    then tile_count target.rows target.columns
    else if makes_one tool
    then 1
    else 0

-- a provenance of the session's own
abbrev own_provenance : String → String → String → List String → Provenance
own_provenance tool backend request_hash parents = record {
  tool = tool;
  capability = none;
  backend_name = backend;
  backend_version = "1";
  model_id = none;
  model_revision = none;
  request_hash = request_hash;
  parent_observation_ids = parents;
  cache_hit = false;
  duration_ms = 0;
}

module _ {F : Floats} where
  abbrev pub warning : String → String → WarningInfo F
  warning code message = record { code = code; message = message; details = dict_end }

  abbrev draft : ObservationPayload F → ObservationDraft F
  draft payload = record { payload = payload; region = none; confidence = none; warnings = [] }

  abbrev pub ids_of : List (Observation F) → List String
  ids_of os = map (λ (o : Observation F). o.id) os

  -- `"\n".join(...)` of the codes
  join_codes : List (WarningInfo F) → String
  join_codes [] = ""
  join_codes (w ∷ []) = w.code
  join_codes (w ∷ ws) = append_text w.code (String.◌∷◌ "\n" (join_codes ws))
    where
      append_text : String → String → String
      append_text String.[] t = t
      append_text (String.◌∷◌ c s) t = String.◌∷◌ c (append_text s t)

  -- `{asset.id: asset ...}`
  unfoldable pub by_id : List (ImageAsset F) → Dict (ImageAsset F)
  unfolding update
  by_id assets = update [] (map (λ (a : ImageAsset F). (a.id, a)) assets)

  -- the `while` loop of `_lineage_for_asset`, the root first; `none` is out of fuel
  unfoldable pub follow_lineage :
      ℕ → Dict (ImageAsset F) → Option (ImageAsset F) → Option (List String)
  unfolding lookup
  follow_lineage zero snapshots current = none
  follow_lineage (suc fuel) snapshots none = some []
  follow_lineage (suc fuel) snapshots (some asset) =
      let parent = elim asset.parent_id as (λ _. Option (ImageAsset F)) [
        | none ↦ none
        | some id ↦ lookup id snapshots
      ] in
      elim (follow_lineage fuel snapshots parent) [
        | none ↦ none
        | some ids ↦ some (ids ++ asset.id ∷ [])
      ]

  unfoldable pub count_reused : List (AssetCommit F) → ℕ
  count_reused [] = 0
  count_reused (c ∷ cs) = let rest = count_reused cs in if c.reused then suc rest else rest

  unfoldable pub last_id : AssetCommit F → List (AssetCommit F) → String
  last_id c [] = c.asset.id
  last_id c (d ∷ cs) = last_id d cs

  -- the drafts of one committed asset
  transform_drafts : AssetCommit F → List (List (MarkRef F)) → List (ObservationDraft F)
  transform_drafts c mappings =
      draft (
        transform_payload (record {
          derived_asset_id = c.asset.id;
          parent_asset_id = c.parent_id;
          transform = c.transform;
        }))
      ∷ marks mappings
    where
      marks : List (List (MarkRef F)) → List (ObservationDraft F)
      marks [] = []
      marks (m ∷ ms) =
          draft (
            mark_payload
              (record { derived_asset_id = c.asset.id; parent_asset_id = c.parent_id; marks = m }))
          ∷ []

  rest_of : List (List (MarkRef F)) → List (List (MarkRef F))
  rest_of [] = []
  rest_of (m ∷ ms) = ms

module _ {P : Imaging} {F : Floats} {H : Host P F} where
  -- `self._observations.commit_drafts`, and `commit_result`
  unfoldable pub commit_drafts :
      String → List (ObservationDraft F) → Provenance → Run (Session H) (List (Observation F))
  unfolding ObservationMethods.commit lookup
  commit_drafts asset_id drafts provenance s =
      on_observations (ObservationMethods.commit (owner s.assets) asset_id drafts provenance []) s

  -- `committed[0]`
  unfoldable pub first : List (Observation F) → Run (Session H) (Observation F)
  first [] = fail index_error
  first (o ∷ os) = pure o

  -- `_commit_reasoning_warning`; a payload's code is a `_SnakeName`
  unfoldable pub commit_reasoning_warning :
      String → String → List String → Run (Session H) (Observation F)
  unfolding commit_drafts first
  commit_reasoning_warning code message parents = do
    let safe_code = if H.is_safe_code code then code else "reasoning_warning"
    lift (require (is_snake_name safe_code) value_error)
    committed ← λ s.
        commit_drafts s.assets.root_id (draft (warning_payload safe_code message) ∷ [])
          (own_provenance "reasoning_warning" "penampakan.core" (H.sha256 code) parents) s
    first committed

  -- `_commit_warning_infos`
  unfoldable pub commit_warning_infos :
      String → List (WarningInfo F) → List String → Run (Session H) (List (Observation F))
  unfolding commit_drafts join_codes
  commit_warning_infos asset_id [] parents = pure []
  commit_warning_infos asset_id (w ∷ ws) parents =
      commit_drafts asset_id
        (map (λ (x : WarningInfo F). draft (warning_payload x.code x.message)) (w ∷ ws))
        (own_provenance "perception_warning" "penampakan.core" (H.sha256 (join_codes (w ∷ ws)))
          parents)

  -- the loop of `_commit_transform_observations`
  unfoldable pub commit_each :
      List (AssetCommit F)
      → List (List (MarkRef F))
      → Provenance
      → Run (Session H) (List (Observation F))
  unfolding commit_drafts transform_drafts rest_of
  commit_each [] mappings provenance = pure []
  commit_each (c ∷ cs) mappings provenance = do
    os ← commit_drafts c.asset.id (transform_drafts c mappings) provenance
    more ← commit_each cs (rest_of mappings) provenance
    pure (os ++ more)

  -- `_commit_transform_observations`
  unfoldable pub commit_transform_observations :
      ToolAction F
      → List (AssetCommit F)
      → List String
      → ToolResult P F
      → Run (Session H) (List (Observation F))
  unfolding commit_each dedupe
  commit_transform_observations action commits parents result = do
    lift (
        require (length result.mark_mappings == 0 || length result.mark_mappings == length commits)
          value_error)
    commit_each commits result.mark_mappings (
        own_provenance action.tool "penampakan.transforms" (H.canonical action)
          (dedupe [] (parents ++ result.source_observation_ids)))

  -- `_lineage_for_asset`
  unfoldable pub lineage_for_asset : String → Run (Session H) (List String)
  unfolding AssetMethods.snapshots by_id follow_lineage lookup
  lineage_for_asset asset_id = do
    assets ← on_assets AssetMethods.snapshots
    λ s.
        elim (follow_lineage (suc (suc s.assets.run_limits.max_derivation_depth)) (by_id assets)
          (lookup asset_id (by_id assets))) [ none ↦ none | some ids ↦ some (ok ids, s) ]

  -- an action that came to nothing but a warning
  unfoldable pub refuse_action :
      String → String → WarningInfo F → List String → Run (Session H) (Acted F)
  unfolding commit_reasoning_warning
  refuse_action code message info parents = do
    o ← commit_reasoning_warning code message parents
    pure (record { observations = o ∷ []; warnings = info ∷ []; lineage = [] })

  -- `if count: await budget.refund_reused_assets(count)`
  unfoldable pub refund : ℕ → Run (Session H) (Unit {0})
  unfolding refund_reused_assets
  refund zero = pure tt
  refund (suc n) = on_budget (refund_reused_assets F (integer (pos (suc n))))
