-- ===== src/Store/Tests.antt =====
-- A session with two committed observations, and the theorems on stores at it.
use penampakan.Base.{String, ◌≡◌, refl, true, false, none, some, List, [], ◌∷◌, ◌++◌, All, length}
use penampakan.Base.Ticks.{ticks}
use penampakan.Base.Errors.{runtime_error}
use penampakan.Base.Exec.{Exec}
use penampakan.Base.Result.{Result, ok}
use penampakan.Models.{
  is_asset_id, Observation, ObservationDraft, Provenance, metadata_payload, caption_payload,
}
use penampakan.Base.Dict.{lookup, insert}
use penampakan.Models.Ids.{observation_id}
use penampakan.Store.{
  ObservationStore, ObservationRelations, AssetOwner, no_relations, empty, prepare, append, commit,
  get, snapshots, size, has, close,
}
use penampakan.Store.Append.{IsNumbered}
use penampakan.Store.Valid.{IsValid}
use penampakan.Store.Interrupt.{attempt_append, attempt_commit}
use penampakan.Store.Atomic.{IsAllOrNothing, attempt_commit-IsAllOrNothing}
use penampakan.Store.Commit.{Op, op_commit, apply_all, store_run-IsValid, get-commit, commit-get}

program : Unit {0}
unfolding is_asset_id prepare attempt_append attempt_commit append commit get snapshots size has
    close apply_all observation_id lookup insert
program = tt

-- one asset
abbrev owns : AssetOwner
owns asset_id = some true

abbrev provenance : List String → Provenance
provenance parents = record {
  tool = "inspect";
  capability = none;
  backend_name = "pillow";
  backend_version = "1";
  model_id = none;
  model_revision = none;
  request_hash = "0";
  parent_observation_ids = parents;
  cache_hit = false;
  duration_ms = 2;
}

abbrev size_draft : ObservationDraft ticks
size_draft = record {
  payload = metadata_payload 4 3 1 false;
  region = none;
  confidence = none;
  warnings = [];
}

abbrev caption_draft : ObservationDraft ticks
caption_draft = record size_draft { payload = caption_payload "a cat" none }

abbrev start : ObservationStore ticks
start = empty

abbrev observed : ObservationDraft ticks → String → Provenance → List String → Observation ticks
observed d id p supersedes = record {
  id = id;
  asset_id = "img_0123456789abcdef";
  payload = d.payload;
  region = d.region;
  confidence = d.confidence;
  provenance = p;
  supersedes = supersedes;
  contradicts = [];
  warnings = d.warnings;
}

abbrev first : Observation ticks
first = observed size_draft "obs_000001" (provenance []) []

abbrev corrects : ObservationRelations
corrects = record no_relations { supersedes = "obs_000001" ∷ [] }

abbrev second : Observation ticks
second = observed caption_draft "obs_000002" (provenance ("obs_000001" ∷ [])) ("obs_000001" ∷ [])

abbrev one : ObservationStore ticks
one = record {
  observations = first ∷ [];
  by_id = ("obs_000001", first) ∷ [];
  next_number = 2;
  closed = false;
}

committed :
    commit owns "img_0123456789abcdef" (size_draft ∷ []) (provenance []) [] start
    ≡ (ok (first ∷ []), one)
unfolding program
committed = refl

committed_second :
    (commit owns "img_0123456789abcdef"
      (caption_draft ∷ [])
      (provenance ("obs_000001" ∷ []))
      (corrects ∷ [])
      one).0
    ≡ ok (second ∷ [])
unfolding program
committed_second = refl

abbrev ops : List (Op ticks)
ops =
    op_commit owns "img_0123456789abcdef" (size_draft ∷ []) (provenance []) []
    ∷ op_commit owns "img_0123456789abcdef" (caption_draft ∷ []) (provenance ("obs_000001" ∷ []))
        (corrects ∷ [])
    ∷ []

one-IsValid : IsValid one
unfolding program
one-IsValid =
    store_run-IsValid
      (op_commit owns "img_0123456789abcdef" (size_draft ∷ []) (provenance []) [] ∷ [])

store_run-IsValid_example : IsValid (apply_all ops start)
store_run-IsValid_example = store_run-IsValid ops

abbrev second_commit : Exec (ObservationStore ticks) (List (Observation ticks))
second_commit =
    commit owns "img_0123456789abcdef" (caption_draft ∷ []) (provenance ("obs_000001" ∷ []))
      (corrects ∷ [])

-- the append stops after the index has the observation and before its identifier is noted
abbrev interrupted : Result (List (Observation ticks)) × ObservationStore ticks
interrupted =
    attempt_commit 2 runtime_error owns "img_0123456789abcdef" (caption_draft ∷ [])
      (provenance ("obs_000001" ∷ [])) (corrects ∷ []) one

-- the handler leaves the entry: `get` finds an observation that the store does not list
left_over :
    (interrupted.1.observations ≡ first ∷ []) × ((get "obs_000002" interrupted.1).0 ≡ ok second)
unfolding program
left_over = (refl, refl)

undone :
    attempt_commit 5 runtime_error owns "img_0123456789abcdef"
      (size_draft ∷ [])
      (provenance [])
      []
      one
    ≡ commit owns "img_0123456789abcdef" (size_draft ∷ []) (provenance []) [] one
unfolding program
undone = refl

attempt_commit-IsAllOrNothing_example :
    IsAllOrNothing 2 runtime_error owns "img_0123456789abcdef"
      (caption_draft ∷ [])
      (provenance ("obs_000001" ∷ []))
      (corrects ∷ [])
      one
attempt_commit-IsAllOrNothing_example =
    attempt_commit-IsAllOrNothing 2 runtime_error owns "img_0123456789abcdef" (caption_draft ∷ [])
      (provenance ("obs_000001" ∷ [])) (corrects ∷ []) one one-IsValid

found : (get "obs_000001" one).0 ≡ ok first
unfolding program
found = refl

get-commit_example : (get "obs_000001" (second_commit one).1).0 ≡ ok first
get-commit_example =
    get-commit owns "img_0123456789abcdef" (caption_draft ∷ []) (provenance ("obs_000001" ∷ []))
      (corrects ∷ []) one "obs_000001" first one-IsValid found

commit-get_example :
    IsNumbered 2 (second ∷ [])
    × (length (second ∷ []) ≡ length (caption_draft ∷ []))
    × ((second_commit one).1.observations ≡ one.observations ++ second ∷ [])
    × All (λ (o : Observation ticks). (get o.id (second_commit one).1).0 ≡ ok o) (second ∷ [])
commit-get_example =
    commit-get owns "img_0123456789abcdef" (caption_draft ∷ []) (provenance ("obs_000001" ∷ []))
      (corrects ∷ []) one (second ∷ []) one-IsValid committed_second
