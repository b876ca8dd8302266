-- ===== src/Store/Checks.antt =====
-- What the checks of `_commit` establish when they pass.
use penampakan.Base.{ℕ, ◌+◌, String, ◌≡◌, ◌≢◌, sym, none, List, [], ◌∷◌, arith, All}
use mathlib.Core.Path.{subst}
use penampakan.Base.Floats.{Floats}
use penampakan.Base.Result.{ok, >>=-eq-ok}
use penampakan.Base.Dict.{Dict, lookup}
use penampakan.Base.Texts.{IsDistinct, all_distinct-IsDistinct}
use penampakan.Models.{Observation, ObservationDraft, Provenance}
use penampakan.Store.{
  ObservationRelations, validate_references, require_known, validate_relation, validate_each,
  build_observation, build_all,
}

module _ {F : Floats} where
  -- the identifier has an entry
  abbrev pub IsKnown : Dict (Observation F) → String → Type 0
  IsKnown by_id id = lookup id by_id ≢ none

  require_known-All :
      (by_id : Dict (Observation F)) (ids : List String)
      → require_known by_id ids ≡ ok tt
      → All (IsKnown by_id) ids
  unfolding require_known
  require_known-All by_id [] h = tt
  require_known-All by_id (id ∷ ids) h =
      (λ e. ground (arith, e), require_known-All by_id ids (ground arith))

  pub validate_references-All :
      (by_id : Dict (Observation F)) (ids : List String)
      → validate_references by_id ids ≡ ok tt
      → All (IsKnown by_id) ids × IsDistinct ids
  unfolding validate_references
  validate_references-All by_id ids h =
      (require_known-All by_id ids (ground arith), all_distinct-IsDistinct ids (ground arith))

  -- a relation that was accepted names known observations
  abbrev pub IsRelated : Dict (Observation F) → ObservationRelations → Type 0
  IsRelated by_id r = All (IsKnown by_id) r.supersedes × All (IsKnown by_id) r.contradicts

  validate_relation-IsRelated :
      (by_id : Dict (Observation F)) (r : ObservationRelations)
      → validate_relation by_id r ≡ ok tt
      → IsRelated by_id r
  unfolding validate_relation
  validate_relation-IsRelated by_id r h = (
    (validate_references-All by_id r.supersedes (ground arith)).0,
    (validate_references-All by_id r.contradicts (ground arith)).0,
  )

  pub validate_relations-All :
      (by_id : Dict (Observation F)) (rs : List ObservationRelations)
      → validate_each (validate_relation by_id) rs ≡ ok tt
      → All (IsRelated by_id) rs
  unfolding validate_each
  validate_relations-All by_id [] h = tt
  validate_relations-All by_id (r ∷ rs) h = (
    validate_relation-IsRelated by_id r (ground arith),
    validate_relations-All by_id rs (ground arith),
  )

  -- Every identifier that an observation refers to as a parent, or as superseded or contradicted.
  abbrev pub RefersInto : Dict (Observation F) → Observation F → Type 0
  RefersInto by_id o =
      All (IsKnown by_id) o.provenance.parent_observation_ids
      × All (IsKnown by_id) o.supersedes
      × All (IsKnown by_id) o.contradicts

  build_observation-RefersInto :
      (by_id : Dict (Observation F)) (n : ℕ) (asset_id : String) (d : ObservationDraft F)
      (p : Provenance) (r : ObservationRelations) (o : Observation F)
      → build_observation n asset_id d p r ≡ ok o
      → All (IsKnown by_id) p.parent_observation_ids
      → IsRelated by_id r
      → RefersInto by_id o
  unfolding build_observation
  build_observation-RefersInto by_id n asset_id d p r o h parents related =
      let from_p : o.provenance.parent_observation_ids ≡ p.parent_observation_ids = ground arith in
      let from_s : o.supersedes ≡ r.supersedes = ground arith in
      let from_c : o.contradicts ≡ r.contradicts = ground arith in
      (
        subst (All (IsKnown by_id)) (sym from_p) parents,
        subst (All (IsKnown by_id)) (sym from_s) related.0,
        subst (All (IsKnown by_id)) (sym from_c) related.1,
      )

  pub build_all-RefersInto :
      (by_id : Dict (Observation F)) (n : ℕ) (asset_id : String) (p : Provenance)
      (ds : List (ObservationDraft F)) (rs : List ObservationRelations) (os : List (Observation F))
      → build_all n asset_id p ds rs ≡ ok os
      → All (IsKnown by_id) p.parent_observation_ids
      → All (IsRelated by_id) rs
      → All (RefersInto by_id) os
  unfolding build_all
  build_all-RefersInto by_id n asset_id p [] rs [] h parents related = tt
  build_all-RefersInto by_id n asset_id p [] rs (o ∷ os) h parents related = absurd (ground arith)
  build_all-RefersInto by_id n asset_id p (d ∷ ds) [] os h parents related = absurd (ground arith)
  build_all-RefersInto by_id n asset_id p (d ∷ ds) (r ∷ rs) os h parents related =
      let (o, built, rest) = >>=-eq-ok (build_observation n asset_id d p r) _ h in
      let (os', more, done) = >>=-eq-ok (build_all (n + 1) asset_id p ds rs) _ rest in
      let e : o ∷ os' ≡ os = ground arith in
      rw (← e) (
        build_observation-RefersInto by_id n asset_id d p r o built parents related.0,
        build_all-RefersInto by_id (n + 1) asset_id p ds rs os' more parents related.1,
      )
