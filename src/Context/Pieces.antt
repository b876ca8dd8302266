-- ===== src/Context/Pieces.antt =====
-- The parts of src/penampakan/reasoning/context.py that write observations: one observation's line, its
-- shortened line, and the record of what is omitted.
use penampakan.Base.{
  ℕ, suc, ◌+◌, ◌-◌, String, Option, none, some, List, [], ◌∷◌, map, length, str_eq, if◌then◌else◌,
}
use penampakan.Base.Int.{pos}
use penampakan.Base.Floats.{Floats}
use penampakan.Base.Dict.{Dict, lookup, insert}
use penampakan.Base.Texts.{codes}
use penampakan.Models.{
  Json, json_bool, json_int, json_float, json_str, json_list, json_dict, JsonList, items_end, item,
  JsonDict, dict_end, entry, Observation, ObservationPayload, metadata_payload, colors_payload,
  caption_payload, mark_description_payload, text_payload, detection_payload, segmentation_payload,
  transform_payload, mark_payload, warning_payload, WarningInfo,
}
use penampakan.Models.Boxes.{Box}
use penampakan.Context.Lines.{
  Text, sort_by, less_text, line_safe_prefix, truncate_loop, joined, count_of,
}

-- `json.dumps` with sorted keys, pydantic's dumps in JSON mode, and a text's code points as a string
pub record Writer (F : Floats) : Type 0 where
  pub dumps : Json F → Text
  pub dump_payload : ObservationPayload F → JsonDict F
  pub dump_region : Box F → Json F
  pub dump_warning : WarningInfo F → Json F
  pub text_value : Text → Json F

module _ {F : Floats} where
  -- `data[key] = value`
  json_set : String → Json F → JsonDict F → JsonDict F
  json_set key value dict_end = entry key value dict_end
  json_set key value (entry k v d) =
      let rest = json_set key value d in if str_eq k key then entry k value d else entry k v rest

  -- `{**data, **more}`
  json_update : JsonDict F → JsonDict F → JsonDict F
  unfolding json_set
  json_update d dict_end = d
  json_update d (entry k v more) = json_update (json_set k v d) more

  json_items : List (Json F) → JsonList F
  json_items [] = items_end
  json_items (x ∷ xs) = item x (json_items xs)

  -- an optional entry, that is left out when it has no value
  set_optional : String → Option (Json F) → JsonDict F → JsonDict F
  unfolding json_set
  set_optional key none d = d
  set_optional key (some v) d = json_set key v d

  optional_text : Option String → Option (Json F)
  optional_text none = none
  optional_text (some s) = some (json_str s)

  optional_number : Option F.Float → Option (Json F)
  optional_number none = none
  optional_number (some x) = some (json_float x)

  optional_region : Writer F → Option (Box F) → Option (Json F)
  optional_region w none = none
  optional_region w (some r) = some (w.dump_region r)

  -- `tuple or None`
  optional_list : List (Json F) → Option (Json F)
  unfolding json_items
  optional_list [] = none
  optional_list (x ∷ xs) = some (json_list (json_items (x ∷ xs)))

  optional_texts : List String → Option (Json F)
  unfolding optional_list
  optional_texts xs = optional_list (map (λ (s : String). json_str s) xs)

  -- `_observation_data`
  unfoldable pub observation_data : Writer F → Observation F → JsonDict F
  unfolding json_update set_optional optional_text optional_number optional_region optional_texts
  observation_data w o = set_optional "warnings" (optional_list (map w.dump_warning o.warnings)) (
      set_optional "supersedes" (optional_texts o.supersedes) (
        set_optional "region" (optional_region w o.region) (
          set_optional "parent_observation_ids" (optional_texts o.provenance.parent_observation_ids)
            (set_optional "model_revision" (optional_text o.provenance.model_revision) (
              set_optional "model_id" (optional_text o.provenance.model_id) (
                set_optional "contradicts" (optional_texts o.contradicts) (
                  set_optional "confidence" (optional_number o.confidence) (
                    json_update
                      (entry "asset_id" (json_str o.asset_id) (
                        entry "backend_name" (json_str o.provenance.backend_name) (
                          entry "backend_version" (json_str o.provenance.backend_version) (
                            entry "cache_hit" (json_bool o.provenance.cache_hit)
                              (entry "id" (json_str o.id) dict_end)))))
                      (w.dump_payload o.payload)))))))))

  -- `_serialize_observation`
  unfoldable pub serialize : Writer F → Observation F → Text
  unfolding observation_data
  serialize w o = w.dumps (json_dict (observation_data w o))

  -- the text of a payload that can be shortened
  unfoldable pub payload_text : ObservationPayload F → Option Text
  payload_text (caption_payload text focus) = some (codes text)
  payload_text (text_payload text language granularity) = some (codes text)
  payload_text payload = none

  -- `candidate`, for one length
  unfoldable pub candidate : Writer F → Observation F → Text → ℕ → Text
  unfolding observation_data json_set line_safe_prefix
  candidate w o original n =
      let prefix = line_safe_prefix original n in
      w.dumps (
        json_dict (
          json_set "truncated_chars" (json_int (pos (length original - length prefix)))
            (json_set "text" (w.text_value prefix) (observation_data w o))))

  -- `_truncate_observation_line`
  unfoldable pub truncate_line : Writer F → Observation F → ℕ → Option Text
  unfolding truncate_loop payload_text candidate
  truncate_line w o available = elim (payload_text o.payload) [
    | none ↦ none
    | some original ↦
        let bound = length original + 1 in
        joined (truncate_loop (suc bound) (candidate w o original) available 0 bound none)
  ]

  -- `payload.type`
  unfoldable pub kind : ObservationPayload F → String
  kind (metadata_payload w h r a) = "metadata"
  kind (colors_payload s) = "colors"
  kind (caption_payload t f) = "caption"
  kind (mark_description_payload r) = "mark_description"
  kind (text_payload t l g) = "text"
  kind (detection_payload l a) = "detection"
  kind (segmentation_payload l p) = "segmentation"
  kind (transform_payload t) = "transform"
  kind (mark_payload m) = "mark"
  kind (warning_payload c m) = "warning"

  -- `counts[kind] = counts.get(kind, 0) + 1` for each observation
  unfoldable pub count_kinds : Dict ℕ → List (Observation F) → Dict ℕ
  unfolding kind
  count_kinds counts [] = counts
  count_kinds counts (o ∷ os) =
      let k = kind o.payload in count_kinds (insert k (count_of (lookup k counts) + 1) counts) os

  json_counts : Dict ℕ → JsonDict F
  json_counts [] = dict_end
  json_counts ((k, n) ∷ counts) = entry k (json_int (pos n)) (json_counts counts)

  -- `_omission_record`
  unfoldable pub omission_record : Writer F → List (Observation F) → Text × Dict ℕ
  unfolding count_kinds sort_by less_text json_counts json_items
  omission_record w os =
      let ordered_counts =
        sort_by (λ (x y : String × ℕ). less_text (codes x.0) (codes y.0)) (count_kinds [] os) in
      (
        w.dumps (
            json_dict (
              entry "by_type" (json_dict (json_counts ordered_counts)) (
                entry "count" (json_int (pos (length os))) (
                  entry "ids"
                    (json_list (json_items (map (λ (o : Observation F). json_str o.id) os)))
                    dict_end)))),
        ordered_counts,
      )
