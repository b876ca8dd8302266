-- ===== src/Context/Select.antt =====
-- `_rank_observations` and `_select_lines` of src/penampakan/reasoning/context.py: the order of the
-- observations and the lines that fit.
use penampakan.Base.{
  ℕ, ◌+◌, ◌-◌, String, Bool, true, false, not, ◌&&◌, ◌||◌, Option, none, some, List, [], ◌∷◌, ◌++◌,
  map, length, ltb, ◌==◌, str_eq, if◌then◌else◌,
}
use penampakan.Base.Floats.{Floats}
use penampakan.Base.Errors.{context_limit_exceeded}
use penampakan.Base.Result.{Result, ok, raised, ◌>>=◌, ◌>>◌, reject}
use penampakan.Base.Dict.{Dict}
use penampakan.Base.Texts.{contains}
use penampakan.Models.{Observation, ObservationPayload, metadata_payload, warning_payload}
use penampakan.Models.Ids.{observation_sequence}
use penampakan.Context.Pieces.{Writer, serialize, truncate_line}
use penampakan.Context.Lines.{Text, filter, sort_by, render_context}

-- `_RankedObservation`
pub record RankedObservation (F : Floats) : Type 0 where
  pub observation : Observation F
  pub pin_group : ℕ
  pub score : F.Float

-- `_SelectedLine`
pub record SelectedLine (F : Floats) : Type 0 where
  pub ranked : RankedObservation F
  pub line : Text

pub record CompiledContext : Type 0 where
  pub text : Text
  pub visible_observation_ids : List String
  pub omitted_observation_ids : List String
  pub visible_asset_ids : List String
  pub omission_counts : Dict ℕ

-- The arguments of `compile` after the observations.
pub record Focus : Type 0 where
  pub root_asset_id : String
  pub relevant_asset_ids : Option (List String)
  pub most_recent_asset_lineage : List String
  pub previous_action_observation_ids : List String
  pub previous_answer_observation_ids : List String
  pub pinned_observation_ids : List String

abbrev pub omission_reserve : ℕ
omission_reserve = 512

unfoldable pub is_empty : List String → Bool
is_empty [] = true
is_empty (x ∷ xs) = false

abbrev pub skeleton_length : Text → ℕ
skeleton_length question = length (render_context question [] [])

module _ {F : Floats} where
  abbrev pub id_of : SelectedLine F → String
  id_of item = item.ranked.observation.id

  -- `sort_key` of one before another's: the pin group, the greater score, the smaller number
  unfoldable pub before : RankedObservation F → RankedObservation F → Bool
  before r q =
      if r.pin_group == q.pin_group
      then if F.eq r.score q.score
        then ltb (observation_sequence r.observation.id) (observation_sequence q.observation.id)
        else F.lt q.score r.score
      else ltb r.pin_group q.pin_group

  unfoldable pub is_warning : ObservationPayload F → Bool
  is_warning (warning_payload c m) = true
  is_warning payload = false

  is_metadata : ObservationPayload F → Bool
  is_metadata (metadata_payload w h r a) = true
  is_metadata payload = false

  -- `(observation.id, *observation.contradicts)` of the observations that pass a test
  unfoldable pub references : (Observation F → Bool) → List (Observation F) → List String
  references test [] = []
  references test (o ∷ os) =
      let rest = references test os in if test o then o.id ∷ o.contradicts ++ rest else rest

  -- the pin group of one observation in `_rank_observations`
  unfoldable pub pin_group_of : Focus → List String → Observation F → ℕ
  unfolding is_warning is_metadata contains
  pin_group_of f contradiction_ids o =
      if contains o.id f.previous_action_observation_ids
        || contains o.id f.pinned_observation_ids
        || is_warning o.payload
      then 1
      else if str_eq o.asset_id f.root_asset_id && is_metadata o.payload
      then 2
      else if contains o.id f.previous_answer_observation_ids
      then 3
      else if contains o.id contradiction_ids
      then 4
      else 5

  -- `max(sequences, default=1)`
  latest_sequence : Option ℕ → List (Observation F) → ℕ
  latest_sequence none [] = 1
  latest_sequence (some best) [] = best
  latest_sequence none (o ∷ os) = latest_sequence (some (observation_sequence o.id)) os
  latest_sequence (some best) (o ∷ os) =
      let n = observation_sequence o.id in
      latest_sequence (some (if ltb best n then n else best)) os

  -- `_rank_observations`, with the score of an observation for the latest number
  unfoldable pub rank_observations :
      (ℕ → Observation F → F.Float)
      → Focus
      → List (Observation F)
      → List (Observation F)
      → List (RankedObservation F)
  unfolding before pin_group_of references is_empty latest_sequence sort_by
  rank_observations score f all_observations eligible =
      let latest = latest_sequence none all_observations in
      let conflicts =
        references (λ (o : Observation F). not (is_empty o.contradicts)) all_observations in
      sort_by before (
        map
          (λ (o : Observation F). record {
            observation = o;
            pin_group = pin_group_of f conflicts o;
            score = score latest o;
          })
          eligible)

  -- the first least item, as `min` with a key
  least : Option (RankedObservation F) → List (RankedObservation F) → Option (RankedObservation F)
  unfolding before
  least best [] = best
  least none (r ∷ rs) = least (some r) rs
  least (some best) (r ∷ rs) = least (some (if before r best then r else best)) rs

  -- `_mandatory_root_metadata_id`, as the item itself
  unfoldable pub mandatory_root_metadata :
      String → List (RankedObservation F) → Option (RankedObservation F)
  unfolding least is_metadata filter
  mandatory_root_metadata root ranked = least none (
      filter
        (λ (r : RankedObservation F).
          str_eq r.observation.asset_id root && is_metadata r.observation.payload)
        ranked)

  -- The line of one item in what is left of the space, shortened where it must be.
  unfoldable pub fit_line : Writer F → Observation F → ℕ → Option Text
  unfolding serialize truncate_line
  fit_line w o room =
      if ltb room (length (serialize w o)) then truncate_line w o room else some (serialize w o)

  -- whether an item is the mandatory one, which stands in the selection already
  unfoldable pub is_mandatory : Option (RankedObservation F) → RankedObservation F → Bool
  is_mandatory none r = false
  is_mandatory (some m) r = str_eq r.observation.id m.observation.id

  abbrev pub separator : List (SelectedLine F) → ℕ
  separator [] = 0
  separator (x ∷ xs) = 1

  -- The loop of `_select_lines`, over the items, the selection and the characters used. A remaining
  -- space that is not positive is a truncated difference of zero.
  unfoldable pub select_loop :
      Writer F
      → Option (RankedObservation F)
      → ℕ
      → List (RankedObservation F)
      → List (SelectedLine F)
      → ℕ
      → List (SelectedLine F)
  unfolding fit_line is_mandatory
  select_loop w mandatory available [] selected used = selected
  select_loop w mandatory available (r ∷ rs) selected used =
      let room = available - used - separator selected in
      let skip = select_loop w mandatory available rs selected used in
      let take = λ (line : Text).
        select_loop w mandatory available rs (selected ++ record { ranked = r; line = line } ∷ [])
          (used + (separator selected + length line)) in
      if is_mandatory mandatory r || room == 0
      then skip
      else elim (fit_line w r.observation room) [ none ↦ skip | some line ↦ take line ]

  -- the mandatory line at the start of the selection
  unfoldable pub first_lines :
      Writer F → Option (RankedObservation F) → ℕ → Result (List (SelectedLine F))
  unfolding serialize
  first_lines w none available = ok []
  first_lines w (some m) available =
      if ltb available (length (serialize w m.observation))
      then raised context_limit_exceeded
      else ok (record { ranked = m; line = serialize w m.observation } ∷ [])

  abbrev pub lines_used : List (SelectedLine F) → ℕ
  lines_used [] = 0
  lines_used (x ∷ xs) = length x.line

  -- `_select_lines`
  unfoldable pub select_lines :
      Writer F
      → ℕ
      → Text
      → List (RankedObservation F)
      → Option (RankedObservation F)
      → Result (List (SelectedLine F))
  unfolding first_lines select_loop sort_by before
  select_lines w max_context_chars question ranked mandatory =
      let needed = skeleton_length question + omission_reserve in
      let available = max_context_chars - needed in
      do
        reject (ltb max_context_chars needed) context_limit_exceeded
        selected ← first_lines w mandatory available
        ok (
            sort_by (λ (x y : SelectedLine F). before x.ranked y.ranked)
              (select_loop w mandatory available ranked selected (lines_used selected)))
