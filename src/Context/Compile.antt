-- ===== src/Context/Compile.antt =====
-- `ContextCompiler` of src/penampakan/reasoning/context.py: the text of a selection, and the removal
-- of items until it fits.
use penampakan.Base.{
  ℕ, zero, suc, String, Bool, true, false, not, ◌||◌, Option, none, some, List, [], ◌∷◌, ◌++◌, map,
  any, length, ltb, leb, ◌==◌, str_eq, if◌then◌else◌,
}
use penampakan.Base.Floats.{Floats}
use penampakan.Base.Errors.{value_error, context_limit_exceeded}
use penampakan.Base.Result.{Result, ok, raised}
use penampakan.Base.Dict.{Dict, insert}
use penampakan.Base.Texts.{contains, all_distinct}
use penampakan.Models.{Observation}
use penampakan.Models.Ids.{observation_sequence}
use penampakan.Context.Pieces.{Writer, omission_record}
use penampakan.Context.Lines.{Text, filter, sort_by, dedupe, render_context}
use penampakan.Context.Assets.{eligible_assets}
use penampakan.Context.Select.{
  RankedObservation, SelectedLine, CompiledContext, Focus, id_of, before, rank_observations,
  mandatory_root_metadata, select_lines, references, is_warning, is_empty,
}

unfoldable pub is_blank : Text → Bool
is_blank [] = true
is_blank (c ∷ s) = false

module _ {F : Floats} where
  abbrev pub ids_of : List (SelectedLine F) → List String
  ids_of selected = map (λ (x : SelectedLine F). id_of x) selected

  -- the observations that are not selected, by their numbers
  unfoldable pub omitted_from : List (Observation F) → List (SelectedLine F) → List (Observation F)
  unfolding sort_by filter contains observation_sequence
  omitted_from os selected =
      sort_by (λ (x y : Observation F). ltb (observation_sequence x.id) (observation_sequence y.id))
        (filter (λ (o : Observation F). not (contains o.id (ids_of selected))) os)

  -- the context that a selection gives
  unfoldable pub context_of :
      Writer F → Text → List (Observation F) → List (SelectedLine F) → CompiledContext
  unfolding omitted_from omission_record render_context dedupe
  context_of w question os selected =
      let omitted = omitted_from os selected in
      let (record_text, counts) = omission_record w omitted in
      record {
        text = render_context question (map (λ (x : SelectedLine F). x.line) selected) record_text;
        visible_observation_ids = ids_of selected;
        omitted_observation_ids = map (λ (o : Observation F). o.id) omitted;
        visible_asset_ids =
            dedupe [] (map (λ (x : SelectedLine F). x.ranked.observation.asset_id) selected);
        omission_counts = counts;
      }

  -- `item.ranked.observation.id != mandatory_id`
  unfoldable pub is_removable : Option String → SelectedLine F → Bool
  is_removable none item = true
  is_removable (some id) item = not (str_eq (id_of item) id)

  -- the first greatest item, as `max` with a key
  unfoldable pub last_ranked : SelectedLine F → List (SelectedLine F) → SelectedLine F
  unfolding before
  last_ranked best [] = best
  last_ranked best (x ∷ xs) = last_ranked (if before best.ranked x.ranked then x else best) xs

  -- `selected.remove(item)`; items of one selection have different identifiers
  unfoldable pub remove_item : String → List (SelectedLine F) → List (SelectedLine F)
  remove_item id [] = []
  remove_item id (x ∷ xs) =
      let rest = remove_item id xs in if str_eq (id_of x) id then xs else x ∷ rest

  -- `_materialize`; `none` is out of fuel
  unfoldable pub materialize :
      ℕ
      → Writer F
      → ℕ
      → Text
      → List (Observation F)
      → Option String
      → List (SelectedLine F)
      → Option (Result CompiledContext)
  unfolding context_of is_removable last_ranked remove_item filter
  materialize zero w max_context_chars question os mandatory_id selected = none
  materialize (suc fuel) w max_context_chars question os mandatory_id selected =
      let context = context_of w question os selected in
      let again = λ (x : SelectedLine F) (xs : List (SelectedLine F)).
        materialize fuel w max_context_chars question os mandatory_id
          (remove_item (id_of (last_ranked x xs)) selected) in
      if leb (length context.text) max_context_chars
      then some (ok context)
      else elim (filter (is_removable mandatory_id) selected) [
        | [] ↦ some (raised context_limit_exceeded)
        | x ∷ xs ↦ again x xs
      ]

  unfoldable pub observation_by_id :
      Dict (Observation F) → List (Observation F) → Dict (Observation F)
  observation_by_id d [] = d
  observation_by_id d (o ∷ os) = observation_by_id (insert o.id o d) os

  unfoldable pub is_eligible : Option (List String) → Observation F → Bool
  unfolding contains
  is_eligible none o = true
  is_eligible (some assets) o = contains o.asset_id assets

  -- `conflict_and_warning_ids`
  unfoldable pub conflict_and_warning_ids : List (Observation F) → List String
  unfolding references is_warning is_empty dedupe
  conflict_and_warning_ids os =
      dedupe [] (
        references (λ (o : Observation F). is_warning o.payload || not (is_empty o.contradicts)) os)

  unfoldable pub mandatory_id_of : Option (RankedObservation F) → Option String
  mandatory_id_of none = none
  mandatory_id_of (some r) = some r.observation.id

  -- the selection, from the ranked observations on
  unfoldable pub select_and_materialize :
      Writer F
      → ℕ
      → Text
      → List (Observation F)
      → List (RankedObservation F)
      → Option (RankedObservation F)
      → Option (Result CompiledContext)
  unfolding select_lines materialize mandatory_id_of
  select_and_materialize w max_context_chars question os ranked mandatory =
      elim (select_lines w max_context_chars question ranked mandatory) [
        | raised e ↦ some (raised e)
        | ok selected ↦
            materialize (suc (length selected)) w max_context_chars question os
              (mandatory_id_of mandatory) selected
      ]

  -- the body of `compile` for the normalized question
  unfoldable pub compile_question :
      Writer F
      → (Text → ℕ → Observation F → F.Float)
      → ℕ
      → Text
      → List (Observation F)
      → Focus
      → Option (Result CompiledContext)
  unfolding eligible_assets rank_observations mandatory_root_metadata select_and_materialize
      is_eligible observation_by_id conflict_and_warning_ids filter
  compile_question w score max_context_chars question os f =
      elim (eligible_assets os f.root_asset_id f.relevant_asset_ids f.most_recent_asset_lineage
        (f.previous_action_observation_ids
          ++ f.previous_answer_observation_ids
          ++ f.pinned_observation_ids
          ++ conflict_and_warning_ids os)
        (observation_by_id [] os)) [
          | none ↦ none
          | some assets ↦
              let ranked =
                rank_observations (score question) f os (filter (is_eligible assets) os) in
              select_and_materialize w max_context_chars question os ranked
                (mandatory_root_metadata f.root_asset_id ranked)
        ]

  -- `ContextCompiler.compile`, with `_validate_question` and `_validate_unique_observations`
  unfoldable pub compile :
      Writer F
      → (Text → Text)
      → (Text → ℕ → Observation F → F.Float)
      → ℕ
      → Text
      → List (Observation F)
      → Focus
      → Option (Result CompiledContext)
  unfolding compile_question is_blank all_distinct
  compile w strip score max_context_chars question os f =
      if is_blank (strip question) || any (λ c. c == 0) (strip question)
      then some (raised value_error)
      else if all_distinct (map (λ (o : Observation F). o.id) os)
      then compile_question w score max_context_chars (strip question) os f
      else some (raised value_error)
