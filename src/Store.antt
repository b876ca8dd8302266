-- ===== src/Store.antt =====
-- src/penampakan/perception/store.py: the session's observations, appended in batches. Every method
-- runs under the store's lock, so it is one step on the state. Snapshots are deep copies of frozen
-- models, hence equal to what they copy. Pydantic's second validation of a result, a draft or a
-- provenance that is already a valid model returns it unchanged and is left out.
pub mod Checks
pub mod Append
pub mod Valid
pub mod Commit
pub mod Interrupt
pub mod Undo
mod Attempt
pub mod Atomic
mod Tests
use penampakan.Base.{
  ℕ, zero, suc, ◌+◌, String, Bool, true, false, not, ◌&&◌, ◌||◌, Option, none, some, List, [], ◌∷◌,
  ◌++◌, map, any, length, ◌==◌, str_eq, if◌then◌else◌,
}
use penampakan.Base.Floats.{Floats}
use penampakan.Base.Errors.{
  Error, value_error, type_error, key_error, index_error, session_closed, asset_not_found,
  observation_not_found,
}
use penampakan.Base.Result
use penampakan.Base.Result.{Result, ok, raised, require, reject}
use penampakan.Base.Exec.{Exec, pure, lift, gets, modify, reject_when, ◌>>=◌, ◌>>◌}
use penampakan.Base.Dict.{Dict, lookup, insert}
use penampakan.Base.Texts.{contains, all_distinct}
use penampakan.Models.{
  is_asset_id, Capability, ObservationPayload, Observation, ObservationDraft, Provenance, MarkRef,
  MarkPayload, TransformPayload, transform_payload, mark_payload, region_allowed,
}
use penampakan.Models.Boxes.{Box, same_box}
use penampakan.Models.Ids.{observation_id}

-- `ObservationRelations`
pub record ObservationRelations : Type 0 where
  pub supersedes : List String
  pub contradicts : List String

abbrev pub no_relations : ObservationRelations
no_relations = record { supersedes = []; contradicts = [] }

-- `ObservationStore`
pub record ObservationStore (F : Floats) : Type 0 where
  pub observations : List (Observation F)
  pub by_id : Dict (Observation F)
  pub next_number : ℕ
  pub closed : Bool

-- `AssetOwner`: what the ownership callback answers, `none` for an answer that is no boolean.
abbrev pub AssetOwner : Type 0
AssetOwner = String → Option Bool

-- `_require_asset`
unfoldable pub require_asset : AssetOwner → String → Result (Unit {0})
require_asset owns asset_id = elim (owns asset_id) [
  | none ↦ raised type_error
  | some owned ↦ require owned asset_not_found
]

unfoldable pub validate_each : {A : Type 0} → (A → Result (Unit {0})) → List A → Result (Unit {0})
validate_each check [] = ok tt
validate_each check (x ∷ xs) = let rest = validate_each check xs in Result.◌>>◌ (check x) rest

-- the assets that a transform or mark payload names
unfoldable pub validate_lineage : AssetOwner → String → String → String → Result (Unit {0})
unfolding require_asset
validate_lineage owns asset_id parent derived =
    Result.◌>>◌ (require_asset owns parent)
      (Result.◌>>◌ (require_asset owns derived) (require (str_eq derived asset_id) value_error))

replicate : ℕ → ObservationRelations → List ObservationRelations
replicate zero r = []
replicate (suc n) r = r ∷ replicate n r

-- `_validated_relations`
unfoldable pub validated_relations :
    List ObservationRelations → ℕ → Result (List ObservationRelations)
unfolding replicate
validated_relations [] count = ok (replicate count no_relations)
validated_relations (r ∷ rs) count =
    Result.◌>>◌ (require (length (r ∷ rs) == count) value_error) (ok (r ∷ rs))

module _ {F : Floats} where
  abbrev pub empty : ObservationStore F
  empty = record { observations = []; by_id = []; next_number = 1; closed = false }

  -- the loop of `_validate_references`
  require_known : Dict (Observation F) → List String → Result (Unit {0})
  require_known by_id [] = ok tt
  require_known by_id (id ∷ ids) =
      let rest = require_known by_id ids in
      elim (lookup id by_id) [ none ↦ raised observation_not_found | some o ↦ rest ]

  -- `_validate_references`
  unfoldable pub validate_references : Dict (Observation F) → List String → Result (Unit {0})
  unfolding require_known all_distinct
  validate_references by_id ids =
      Result.◌>>◌ (require (all_distinct ids) value_error) (require_known by_id ids)

  -- `_validate_relation`
  unfoldable pub validate_relation : Dict (Observation F) → ObservationRelations → Result (Unit {0})
  unfolding validate_references contains
  validate_relation by_id r = Result.◌>>◌ (require (all_distinct r.supersedes) value_error) (
      Result.◌>>◌ (require (all_distinct r.contradicts) value_error) (
        Result.◌>>◌ (reject (any (λ id. contains id r.supersedes) r.contradicts) value_error) (
          Result.◌>>◌ (validate_references by_id r.supersedes)
            (validate_references by_id r.contradicts))))

  -- `source.region == mark.region`
  region_is : Option (Box F) → Box F → Bool
  region_is none region = false
  region_is (some r) region = same_box F r region

  -- the loop over `payload.marks`
  unfoldable pub validate_mark :
      Dict (Observation F) → MarkPayload F → MarkRef F → Result (Unit {0})
  unfolding region_is same_box
  validate_mark by_id payload mark = elim (lookup mark.observation_id by_id) [
    | none ↦ raised key_error
    | some source ↦
        require
          (str_eq source.asset_id payload.parent_asset_id && region_is source.region mark.region)
          value_error
  ]

  -- `_validate_payload_assets`
  unfoldable pub validate_payload_assets :
      AssetOwner → Dict (Observation F) → String → ObservationPayload F → Result (Unit {0})
  unfolding validate_lineage validate_mark validate_references validate_each
  validate_payload_assets owns by_id asset_id (transform_payload p) =
      validate_lineage owns asset_id p.parent_asset_id p.derived_asset_id
  validate_payload_assets owns by_id asset_id (mark_payload p) =
      Result.◌>>◌ (validate_lineage owns asset_id p.parent_asset_id p.derived_asset_id) (
        Result.◌>>◌ (validate_references by_id (map (λ (m : MarkRef F). m.observation_id) p.marks))
          (validate_each (validate_mark by_id p) p.marks))
  validate_payload_assets owns by_id asset_id payload = ok tt

  -- `_build_observation`, with the validation of an `Observation`: its identifier always has the form of
  -- one, as do the references, which were found in the store
  unfoldable pub build_observation :
      ℕ → String → ObservationDraft F → Provenance → ObservationRelations → Result (Observation F)
  unfolding region_allowed
  build_observation number asset_id draft provenance relation =
      Result.◌>>◌
        (require (is_asset_id asset_id && region_allowed draft.payload draft.region) value_error)
        (ok (record {
          id = observation_id number;
          asset_id = asset_id;
          payload = draft.payload;
          region = draft.region;
          confidence = draft.confidence;
          provenance = provenance;
          supersedes = relation.supersedes;
          contradicts = relation.contradicts;
          warnings = draft.warnings;
        }))

  -- the tuple `prospective`: a number for each draft from `number` on
  unfoldable pub build_all :
      ℕ
      → String
      → Provenance
      → List (ObservationDraft F)
      → List ObservationRelations
      → Result (List (Observation F))
  unfolding build_observation
  build_all number asset_id provenance [] rs = ok []
  build_all number asset_id provenance (d ∷ ds) [] = raised index_error
  build_all number asset_id provenance (d ∷ ds) (r ∷ rs) =
      let rest = build_all (number + 1) asset_id provenance ds rs in
      Result.◌>>=◌ (build_observation number asset_id d provenance r)
        λ o. Result.◌>>=◌ rest λ os. ok (o ∷ os)

  pub index_all : Dict (Observation F) → List (Observation F) → Dict (Observation F)
  index_all by_id [] = by_id
  index_all by_id (o ∷ os) = index_all (insert o.id o by_id) os

  -- `_append` where nothing stops it; Interrupt has its handler
  unfoldable pub append : List (Observation F) → ObservationStore F → ObservationStore F
  unfolding index_all
  append os s = record s {
    observations = s.observations ++ os;
    by_id = index_all s.by_id os;
    next_number = s.next_number + length os;
  }

  abbrev pub require_open : Exec (ObservationStore F) (Unit {0})
  require_open = reject_when (λ s. s.closed) session_closed

  -- the checks of `_commit` and the observations that it would append
  unfoldable pub prepare :
      AssetOwner
      → String
      → List (ObservationDraft F)
      → Provenance
      → List ObservationRelations
      → ObservationStore F
      → Result (List (Observation F))
  unfolding require_asset validated_relations validate_references validate_relation validate_each
      validate_payload_assets build_all
  prepare owns asset_id drafts provenance relations s = Result.◌>>◌ (require_asset owns asset_id) (
      Result.◌>>=◌ (validated_relations relations (length drafts)) λ resolved.
        Result.◌>>◌ (validate_references s.by_id provenance.parent_observation_ids) (
          Result.◌>>◌ (validate_each (validate_relation s.by_id) resolved) (
            Result.◌>>◌
              (validate_each
                (λ (d : ObservationDraft F).
                  validate_payload_assets owns s.by_id asset_id d.payload)
                drafts)
              (build_all s.next_number asset_id provenance drafts resolved))))

  -- `_commit`, which `commit_result` and `commit_drafts` call
  unfoldable pub commit :
      AssetOwner
      → String
      → List (ObservationDraft F)
      → Provenance
      → List ObservationRelations
      → Exec (ObservationStore F) (List (Observation F))
  unfolding append
  commit owns asset_id drafts provenance relations = do
    require_open
    prospective ← (λ s. (prepare owns asset_id drafts provenance relations s, s))
    modify (append prospective)
    pure prospective

  -- `get`
  unfoldable pub get : String → Exec (ObservationStore F) (Observation F)
  get id = do
    require_open
    λ s. elim (lookup id s.by_id) [ none ↦ (raised observation_not_found, s) | some o ↦ (ok o, s) ]

  -- `snapshots`, and the property `observations`
  unfoldable pub snapshots : Exec (ObservationStore F) (List (Observation F))
  snapshots = do require_open; gets (λ s. s.observations)

  -- `__len__`
  unfoldable pub size : Exec (ObservationStore F) ℕ
  size = do require_open; gets (λ s. length s.observations)

  -- `__contains__`, of a text
  unfoldable pub has : String → Exec (ObservationStore F) Bool
  has id = do require_open; gets (λ s. elim (lookup id s.by_id) [ none ↦ false | some o ↦ true ])

  -- `close`; the next number is kept
  unfoldable pub close : Exec (ObservationStore F) (Unit {0})
  close s =
      if s.closed
      then (ok tt, s)
      else (ok tt, record s { observations = []; by_id = []; closed = true })
