-- ===== src/Answer.antt =====
-- src/penampakan/reasoning/answer.py: the check that an answer cites observations which exist, were
-- shown to the policy, belong to the asked image and can serve as evidence. The JSON decoder and
-- Unicode case folding are Python's: they are parameters.
pub mod Citations
pub mod Sound
mod Complete
mod Tests
use Prim.Native.Char.{code}
use mathlib.Core.List.{foldl}
use penampakan.Base.{
  ℕ, String, Bool, true, false, not, ◌&&◌, ◌||◌, Option, none, some, List, [], ◌∷◌, ◌++◌, map, any,
  all, str_eq, ◌==◌, if◌then◌else◌,
}
use penampakan.Base.Floats.{Floats}
use penampakan.Base.Errors.{type_error, evidence_validation}
use penampakan.Base.Result.{Result, ok, raised, ◌>>=◌, ◌>>◌, require, reject}
use penampakan.Base.Dict.{Dict, lookup, insert}
use penampakan.Base.Texts.{contains, codes}
use penampakan.Models.{
  Json, json_str, json_list, json_dict, JsonDict, dict_end, entry, Observation, ObservationPayload,
  MarkRef, mark_payload, warning_payload, mark_description_payload, WarningInfo,
}

-- `AnswerAction.status`
pub data ActionStatus : Type 0 where
  answered insufficient_evidence : ActionStatus

pub record EvidenceRef : Type 0 where
  pub observation_id : String
  pub supports : String

pub record AnswerAction : Type 0 where
  pub status : ActionStatus
  pub answer : String
  pub evidence : List EvidenceRef
  pub uncertainties : List String

pub record Evidence (F : Floats) : Type 0 where
  pub observation : Observation F
  pub supports : String

-- `VisionAnswer`, over the type of the trace that it carries
pub record VisionAnswer (F : Floats) (T : Type 0) : Type 0 where
  pub status : ActionStatus
  pub answer : String
  pub evidence : List (Evidence F)
  pub uncertainties : List String
  pub warnings : List (WarningInfo F)
  pub trace : T

-- What the session passes: the observations by identifier, those that the policy saw, the asked
-- image, and each asset's root. `raw_decode` reads one JSON value at the start of a text, or is `none`
-- for its decoding error; a text nested so deeply that the decoder raises RecursionError is left out.
pub record Scope (F : Floats) : Type 0 where
  pub raw_decode : String → Option (Json F)
  pub casefold : String → String
  pub indexed : Dict (Observation F)
  pub visible : List String
  pub root_asset_id : String
  pub asset_root_ids : Dict String

-- a key of a decoded object
unfoldable pub json_get : {F : Floats} → String → JsonDict F → Option (Json F)
json_get key dict_end = none
json_get key (entry k v d) = if str_eq k key then some v else json_get key d

-- `value in {"tool", "answer"}`: a list or a dictionary cannot be hashed
unfoldable pub is_action_type : {F : Floats} → Option (Json F) → Result Bool
is_action_type (some (json_str s)) = ok (str_eq s "tool" || str_eq s "answer")
is_action_type (some (json_list xs)) = raised type_error
is_action_type (some (json_dict d)) = raised type_error
is_action_type value = ok false

-- what one decoded value says
unfoldable pub is_action : {F : Floats} → Option (Json F) → Result Bool
unfolding json_get is_action_type
is_action (some (json_dict d)) = is_action_type (json_get "type" d)
is_action decoded = ok false

-- `_contains_action_json`, at every `{` of the text
unfoldable pub contains_action_json :
    {F : Floats} → (String → Option (Json F)) → String → Result Bool
unfolding is_action
contains_action_json raw_decode String.[] = ok false
contains_action_json raw_decode (String.◌∷◌ c s) =
    let rest = contains_action_json raw_decode s in
    if code c == b'{'
    then (do found ← is_action (raw_decode (String.◌∷◌ c s)); if found then ok true else rest)
    else rest

starts : List ℕ → List ℕ → Bool
starts [] s = true
starts (c ∷ p) [] = false
starts (c ∷ p) (d ∷ s) = c == d && starts p s

-- `phrase in text`
occurs : List ℕ → List ℕ → Bool
unfolding starts
occurs p [] = starts p []
occurs p (d ∷ s) = starts p (d ∷ s) || occurs p s

-- `_NOT_VISIBLE_PHRASES`
abbrev not_visible_phrases : List String
not_visible_phrases =
    "not visible" ∷ "not shown" ∷ "cannot see" ∷ "can't see" ∷ "isn't visible" ∷ "unable to see"
    ∷ []

-- `_only_reports_not_visible`
unfoldable pub only_reports_not_visible : (String → String) → String → Bool
unfolding occurs
only_reports_not_visible casefold answer =
    any (λ phrase. occurs (codes phrase) (codes (casefold answer))) not_visible_phrases

-- a mark mapping or a warning is no evidence
unfoldable pub is_citable : {F : Floats} → ObservationPayload F → Bool
is_citable (mark_payload m) = false
is_citable (warning_payload c m) = false
is_citable payload = true

is_description : {F : Floats} → ObservationPayload F → Bool
is_description (mark_description_payload r) = true
is_description payload = false

-- `asset_root_ids.get(asset_id, asset_id)`
abbrev pub root_of : Dict String → String → String
root_of roots asset_id = elim (lookup asset_id roots) [ none ↦ asset_id | some r ↦ r ]

is_answered : ActionStatus → Bool
is_answered answered = true
is_answered insufficient_evidence = false

-- the marked observations of a mark payload
payload_marks : {F : Floats} → ObservationPayload F → List String
payload_marks {F} (mark_payload m) = map (λ (x : MarkRef F). x.observation_id) m.marks
payload_marks payload = []

module _ {F : Floats} where
  -- `_observation_index` of a sequence: a later observation takes the place of an earlier one
  unfoldable pub observation_index : List (Observation F) → Dict (Observation F)
  observation_index os = foldl (λ d o. insert o.id o d) [] os

  -- the checks of one reference, on the observation that was found
  check_found : Scope F → EvidenceRef → Option (Observation F) → Result (Evidence F)
  unfolding contains contains_action_json is_citable
  check_found s r none = raised evidence_validation
  check_found s r (some o) = do
    require (contains r.observation_id s.visible) evidence_validation
    require (is_citable o.payload) evidence_validation
    action ← contains_action_json s.raw_decode r.supports
    reject action evidence_validation
    require (str_eq (root_of s.asset_root_ids o.asset_id) s.root_asset_id) evidence_validation
    ok (record { observation = o; supports = r.supports })

  unfoldable pub check_reference : Scope F → EvidenceRef → Result (Evidence F)
  unfolding check_found
  check_reference s r = check_found s r (lookup r.observation_id s.indexed)

  -- the loop over `action.evidence`, with the set `seen`
  unfoldable pub collect : Scope F → List String → List EvidenceRef → Result (List (Evidence F))
  unfolding check_reference contains
  collect s seen [] = ok []
  collect s seen (r ∷ rs) =
      let skip = collect s seen rs in
      let rest = collect s (r.observation_id ∷ seen) rs in
      if contains r.observation_id seen
      then skip
      else (do e ← check_reference s r; es ← rest; ok (e ∷ es))

  -- the marked observations of a mapping
  marks_of : Option (Observation F) → List String
  marks_of none = []
  marks_of (some o) = payload_marks o.payload

  -- `source_ids`, from the parents of a mark description
  unfoldable pub mark_sources : Dict (Observation F) → List String → List String
  unfolding marks_of payload_marks
  mark_sources indexed [] = []
  mark_sources indexed (p ∷ ps) = marks_of (lookup p indexed) ++ mark_sources indexed ps

  abbrev pub cited_ids : List (Evidence F) → List String
  cited_ids es = map (λ (e : Evidence F). e.observation.id) es

  -- the test of the second loop: a mark description needs a cited source
  unfoldable pub is_supported : Scope F → List String → Evidence F → Bool
  unfolding is_description mark_sources contains
  is_supported s cited e =
      not (is_description e.observation.payload)
      || any (λ id. contains id cited)
          (mark_sources s.indexed e.observation.provenance.parent_observation_ids)

  is_nil : List (Evidence F) → Bool
  is_nil [] = true
  is_nil (e ∷ es) = false

  unfoldable pub validate_evidence : AnswerAction → Scope F → Result (List (Evidence F))
  unfolding collect is_supported is_answered is_nil only_reports_not_visible
  validate_evidence action s = do
    es ← collect s [] action.evidence
    require (all (is_supported s (cited_ids es)) es) evidence_validation
    reject
        (is_answered action.status
          && is_nil es
          && not (only_reports_not_visible s.casefold action.answer))
        evidence_validation
    ok es

  unfoldable pub materialize_answer :
      {T : Type 0} → AnswerAction → Scope F → List (WarningInfo F) → T → Result (VisionAnswer F T)
  unfolding validate_evidence
  materialize_answer action s warnings trace = do
    es ← validate_evidence action s
    ok (record {
      status = action.status;
      answer = action.answer;
      evidence = es;
      uncertainties = action.uncertainties;
      warnings = warnings;
      trace = trace;
    })
