-- ===== src/Store/Valid.antt =====
-- The store's invariant, and what `_commit` and `close` do to it.
use penampakan.Base.{
  ℕ, ◌+◌, ◌≡◌, ◌∙◌, String, true, false, none, List, [], length, arith, All, All-map, ◌⊎◌,
  Bool-cases, inl, inr, length-append,
}
use penampakan.Base.Floats.{Floats}
use penampakan.Base.Errors.{Error, session_closed}
use penampakan.Base.Result.{ok, raised, Result-cases, >>=-eq-ok}
use penampakan.Models.{Observation, ObservationDraft, Provenance}
use penampakan.Store.{
  ObservationStore, ObservationRelations, AssetOwner, prepare, append, commit, validated_relations,
  validate_references, validate_each, validate_relation, validate_payload_assets, require_asset,
}
use penampakan.Store.Append.{
  IsIn, RefersTo, RefersBack, RefersBack-append, RefersBack-batch, IsNumbered, IsNumbered-append,
  IsIndexed, IsIndexed-index_all, build_all-IsNumbered, find_id,
}
use penampakan.Store.Checks.{
  IsKnown, RefersInto, validate_references-All, validate_relations-All, build_all-RefersInto,
}

module _ {F : Floats} where
  -- Numbers from 1 with no gap, an index that finds exactly the list's observations, references to
  -- earlier observations alone, and nothing left in a closed store.
  pub record IsValid (s : ObservationStore F) : Type 0 where
    pub numbered : IsNumbered 1 s.observations
    pub indexed : IsIndexed s.by_id s.observations
    pub next : s.closed ≡ false → s.next_number ≡ 1 + length s.observations
    pub grounded : RefersBack [] s.observations
    pub released : s.closed ≡ true → s.observations ≡ []

  -- the facts that the checks of a commit establish
  pub record IsPrepared (s : ObservationStore F) (count : ℕ) (os : List (Observation F))
      : Type 0 where
    pub numbered : IsNumbered s.next_number os
    pub counted : length os ≡ count
    pub grounded : All (RefersInto s.by_id) os

  pub prepare-IsPrepared :
      (owns : AssetOwner) (asset_id : String) (drafts : List (ObservationDraft F)) (p : Provenance)
      (rs : List ObservationRelations) (s : ObservationStore F) (os : List (Observation F))
      → prepare owns asset_id drafts p rs s ≡ ok os
      → IsPrepared s (length drafts) os
  unfolding prepare
  prepare-IsPrepared owns asset_id drafts p rs s os h =
      let (_, _, h1) = >>=-eq-ok (require_asset owns asset_id) _ h in
      let (resolved, _, h2) = >>=-eq-ok (validated_relations rs (length drafts)) _ h1 in
      let (_, parents, h3) =
        >>=-eq-ok (validate_references s.by_id p.parent_observation_ids) _ h2 in
      let (_, related, h4) = >>=-eq-ok (validate_each (validate_relation s.by_id) resolved) _ h3 in
      let (_, _, built) =
        >>=-eq-ok
          (validate_each
            (λ (d : ObservationDraft F). validate_payload_assets owns s.by_id asset_id d.payload)
            drafts)
          _ h4 in
      let (numbered, counted) =
        build_all-IsNumbered s.next_number asset_id p drafts resolved os built in
      record {
        numbered = numbered;
        counted = counted;
        grounded =
            build_all-RefersInto s.by_id s.next_number asset_id p drafts resolved os built
              (validate_references-All s.by_id p.parent_observation_ids parents).0
              (validate_relations-All s.by_id resolved related);
      }

  -- a commit that is not prepared, or on a closed store, raises and changes nothing
  commit_refused :
      (owns : AssetOwner) (asset_id : String) (drafts : List (ObservationDraft F)) (p : Provenance)
      (rs : List ObservationRelations) (s : ObservationStore F) (e : Error)
      → (s.closed ≡ true) ⊎ (prepare owns asset_id drafts p rs s ≡ raised e)
      → ((commit owns asset_id drafts p rs s).1 ≡ s)
        × ((e' : Error) × ((commit owns asset_id drafts p rs s).0 ≡ raised e'))
  unfolding commit
  commit_refused owns asset_id drafts p rs s e (inl closed) =
      (ground arith, (session_closed, ground arith))
  commit_refused owns asset_id drafts p rs s e (inr bad) = (
    ground (arith, bad),
    elim (Bool-cases s.closed) [
      | inl closed ↦ (session_closed, ground arith)
      | inr open_now ↦ (e, ground (arith, bad))
    ],
  )

  pub commit_prepared :
      (owns : AssetOwner) (asset_id : String) (drafts : List (ObservationDraft F)) (p : Provenance)
      (rs : List ObservationRelations) (s : ObservationStore F) (os : List (Observation F))
      → s.closed ≡ false
      → prepare owns asset_id drafts p rs s ≡ ok os
      → commit owns asset_id drafts p rs s ≡ (ok os, append os s)
  unfolding commit
  commit_prepared owns asset_id drafts p rs s os open_now h = ground (arith, h)

  -- The two outcomes of a commit: it appended the batch, or it raised and changed nothing.
  pub commit_cases :
      (owns : AssetOwner) (asset_id : String) (drafts : List (ObservationDraft F)) (p : Provenance)
      (rs : List ObservationRelations) (s : ObservationStore F)
      → ((os : List (Observation F)) × (s.closed ≡ false)
          × (prepare owns asset_id drafts p rs s ≡ ok os)
          × (commit owns asset_id drafts p rs s ≡ (ok os, append os s)))
        ⊎ (((commit owns asset_id drafts p rs s).1 ≡ s)
            × ((e : Error) × ((commit owns asset_id drafts p rs s).0 ≡ raised e)))
  commit_cases owns asset_id drafts p rs s = elim (Bool-cases s.closed) [
    | inl closed ↦ inr (commit_refused owns asset_id drafts p rs s session_closed (inl closed))
    | inr open_now ↦ elim (Result-cases (prepare owns asset_id drafts p rs s)) [
      | inl (os, h) ↦
          inl (os, open_now, h, commit_prepared owns asset_id drafts p rs s os open_now h)
      | inr (e, h) ↦ inr (commit_refused owns asset_id drafts p rs s e (inr h))
    ]
  ]

  -- what is known to the index is in the list
  RefersInto-RefersTo :
      (s : ObservationStore F)
      → IsValid s
      → (o : Observation F) → RefersInto s.by_id o
      → RefersTo s.observations o
  RefersInto-RefersTo s v o h =
      let narrow = λ (id : String) (k : IsKnown s.by_id id).
        λ (e : find_id id s.observations ≡ none). k (v.indexed id ∙ e) in
      let keep =
        λ (ids : List String). All-map (IsKnown s.by_id) (IsIn s.observations) ids narrow in
      (keep o.provenance.parent_observation_ids h.0, keep o.supersedes h.1, keep o.contradicts h.2)

  pub append-IsValid :
      (s : ObservationStore F) (count : ℕ) (os : List (Observation F))
      → IsValid s
      → s.closed ≡ false
      → IsPrepared s count os
      → IsValid (append os s)
  unfolding append
  append-IsValid s count os v open_now w =
      let next = v.next open_now in
      record {
        numbered = IsNumbered-append 1 s.next_number s.observations os next v.numbered w.numbered;
        indexed =
            IsIndexed-index_all s.next_number s.by_id s.observations os v.numbered next w.numbered
              v.indexed;
        next = λ h. omega (arith, length-append s.observations os, next);
        grounded = RefersBack-append [] s.observations os v.grounded (
            RefersBack-batch s.observations os (
              All-map (RefersInto s.by_id) (RefersTo s.observations) os (RefersInto-RefersTo s v)
                w.grounded));
        released = λ h. absurd (ground arith);
      }
