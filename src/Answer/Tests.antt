-- ===== src/Answer/Tests.antt =====
-- An answer about one image with three observations, and the theorems on answers at it.
use penampakan.Base.{String, ◌≡◌, ◌↔◌, refl, false, Option, none, some, List, [], ◌∷◌}
use penampakan.Base.Ticks.{ticks}
use penampakan.Base.Errors.{evidence_validation, type_error}
use penampakan.Base.Result.{ok, raised}
use penampakan.Base.Dict.{lookup}
use penampakan.Base.Texts.{contains, IsDistinct}
use penampakan.Models.{
  Json, json_list, json_dict, items_end, dict_end, entry, JsonDict, Observation, ObservationPayload,
  Provenance, caption_payload, warning_payload,
}
use penampakan.Answer.{
  AnswerAction, answered, EvidenceRef, Evidence, Scope, contains_action_json, observation_index,
  collect, check_reference, is_supported, validate_evidence, only_reports_not_visible, json_get,
}
use penampakan.Answer.Citations.{first_citations, ids, first_citations-IsDistinct}
use penampakan.Answer.Sound.{IsAccepted}
use penampakan.Answer.Complete.{validate_evidence_iff, validate_evidence-type_error}

program : Unit {0}
unfolding contains_action_json observation_index collect check_reference is_supported
    validate_evidence only_reports_not_visible lookup contains
program = tt

abbrev provenance : Provenance
provenance = record {
  tool = "inspect";
  capability = none;
  backend_name = "pillow";
  backend_version = "1";
  model_id = none;
  model_revision = none;
  request_hash = "0";
  parent_observation_ids = [];
  cache_hit = false;
  duration_ms = 2;
}

abbrev observed : String → ObservationPayload ticks → Observation ticks
observed id payload = record {
  id = id;
  asset_id = "root";
  payload = payload;
  region = none;
  confidence = none;
  provenance = provenance;
  supersedes = [];
  contradicts = [];
  warnings = [];
}

abbrev caption : Observation ticks
caption = observed "obs_000001" (caption_payload "a cat" none)

abbrev warning : Observation ticks
warning = observed "obs_000002" (warning_payload "slow" "late")

-- the object `{"type": []}`
abbrev listed : JsonDict ticks
listed = entry "type" (json_list items_end) dict_end

-- a decoder that reads one object
abbrev decode : String → Option (Json ticks)
decode text = some (json_dict listed)

abbrev scope : Scope ticks
scope = record {
  raw_decode = decode;
  casefold = λ text. text;
  indexed = ("obs_000001", caption) ∷ ("obs_000002", warning) ∷ [];
  visible = "obs_000001" ∷ "obs_000002" ∷ [];
  root_asset_id = "root";
  asset_root_ids = [];
}

abbrev citation : String → String → EvidenceRef
citation id supports = record { observation_id = id; supports = supports }

abbrev says : List EvidenceRef → AnswerAction
says refs = record { status = answered; answer = "A cat."; evidence = refs; uncertainties = [] }

abbrev twice : List EvidenceRef
twice = citation "obs_000001" "it is a cat" ∷ citation "obs_000001" "really" ∷ []

abbrev piece : Evidence ticks
piece = record { observation = caption; supports = "it is a cat" }

accepted : validate_evidence (says twice) scope ≡ ok (piece ∷ [])
unfolding program
accepted = refl

warning_refused :
    validate_evidence (says (citation "obs_000002" "late" ∷ [])) scope ≡ raised evidence_validation
unfolding program
warning_refused = refl

nothing_cited : validate_evidence (says []) scope ≡ raised evidence_validation
unfolding program
nothing_cited = refl

nothing_visible :
    validate_evidence (record (says []) { answer = "The label is not visible." }) scope ≡ ok []
unfolding program
nothing_visible = refl

first_citations-IsDistinct_example : IsDistinct (ids (first_citations [] twice))
first_citations-IsDistinct_example = first_citations-IsDistinct twice

validate_evidence_iff_example :
    (validate_evidence (says twice) scope ≡ ok (piece ∷ []))
    ↔ IsAccepted (says twice) scope (piece ∷ [])
validate_evidence_iff_example = validate_evidence_iff (says twice) scope (piece ∷ [])

validate_evidence-type_error_example :
    validate_evidence (says (citation "obs_000001" "{" ∷ [])) scope ≡ raised type_error
unfolding program json_get
validate_evidence-type_error_example =
    validate_evidence-type_error (says (citation "obs_000001" "{" ∷ [])) scope
      (citation "obs_000001" "{") [] caption "{" String.[] listed items_end refl refl refl refl refl
      refl refl refl
