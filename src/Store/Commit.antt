-- ===== src/Store/Commit.antt =====
-- What a session sees of its store: batches that are committed, and the observations read back.
use penampakan.Base.{
  ℕ, ◌+◌, ◌≡◌, refl, ◌∙◌, String, true, false, some, List, [], ◌∷◌, ◌++◌, length, arith, All,
  All-map, Bool-cases, Option-cases, inl, inr, eq_iff,
}
use penampakan.Base.Floats.{Floats}
use penampakan.Base.Errors.{session_closed}
use penampakan.Base.Result.{ok, raised}
use penampakan.Base.Dict.{lookup}
use penampakan.Models.{Observation, ObservationDraft, Provenance}
use penampakan.Store.{
  ObservationStore, ObservationRelations, AssetOwner, empty, append, commit, get, snapshots, size,
  has, close,
}
use penampakan.Store.Append.{IsNumbered, find_id, find_id-append, find_id-below, find_id-number}
use penampakan.Store.Valid.{IsValid, prepare-IsPrepared, commit_cases, append-IsValid}

-- A state-changing call, with what its ownership callback answers.
pub data Op (F : Floats) : Type 0 where
  op_commit :
      AssetOwner
      → String
      → List (ObservationDraft F)
      → Provenance
      → List ObservationRelations
      → Op F
  op_close : Op F

module _ {F : Floats} where
  unfoldable pub apply : Op F → ObservationStore F → ObservationStore F
  apply (op_commit owns asset_id drafts p rs) s = (commit owns asset_id drafts p rs s).1
  apply op_close s = (close s).1

  unfoldable pub apply_all : List (Op F) → ObservationStore F → ObservationStore F
  unfolding apply
  apply_all [] s = s
  apply_all (o ∷ ops) s = apply_all ops (apply o s)

  close_again : (s : ObservationStore F) → s.closed ≡ true → (close s).1 ≡ s
  unfolding close
  close_again s h = ground arith

  close_open :
      (s : ObservationStore F)
      → s.closed ≡ false
      → (close s).1 ≡ record s { observations = []; by_id = []; closed = true }
  unfolding close
  close_open s h = ground arith

  close-IsValid : (s : ObservationStore F) → IsValid s → IsValid (close s).1
  close-IsValid s v = elim (Bool-cases s.closed) [
    | inl closed ↦ rw (close_again s closed) v
    | inr open_now ↦ rw (close_open s open_now) (record {
      numbered = tt;
      indexed = λ id. unfold lookup find_id in refl;
      next = λ h. absurd (ground arith);
      grounded = tt;
      released = λ h. refl;
    })
  ]

  pub apply-IsValid : (o : Op F) (s : ObservationStore F) → IsValid s → IsValid (apply o s)
  unfolding apply
  apply-IsValid (op_commit owns asset_id drafts p rs) s v =
      elim (commit_cases owns asset_id drafts p rs s) [
        | inl (os, open_now, prepared, done) ↦
            rw (done, apply)
              (append-IsValid s (length drafts) os v open_now
                (prepare-IsPrepared owns asset_id drafts p rs s os prepared))
        | inr (same, _) ↦ rw (same, apply) v
      ]
  apply-IsValid op_close s v = close-IsValid s v

  apply_all-keeps :
      (ops : List (Op F)) (s : ObservationStore F) → IsValid s → IsValid (apply_all ops s)
  unfolding apply_all
  apply_all-keeps [] s v = v
  apply_all-keeps (o ∷ ops) s v = apply_all-keeps ops (apply o s) (apply-IsValid o s v)

  empty-IsValid : IsValid {F = F} empty
  unfolding lookup find_id
  empty-IsValid = record {
    numbered = tt;
    indexed = λ id. refl;
    next = λ h. refl;
    grounded = tt;
    released = λ h. refl;
  }

  -- After any commits, accepted or refused, and closings of a new store: the observations are
  -- numbered from 1 with no gap, the index finds exactly them, each one's parents and the
  -- observations that it supersedes or contradicts stand before it, and a closed store is empty.
  pub store_run-IsValid : (ops : List (Op F)) → IsValid (apply_all ops empty)
  store_run-IsValid ops = apply_all-keeps ops empty empty-IsValid

  get_found :
      (id : String) (s : ObservationStore F) (o : Observation F)
      → IsValid s
      → s.closed ≡ false
      → find_id id s.observations ≡ some o
      → (get id s).0 ≡ ok o
  unfolding get
  get_found id s o v open_now h = ground (arith, v.indexed id, h)

  get-find_id :
      (id : String) (s : ObservationStore F) (o : Observation F)
      → IsValid s
      → (get id s).0 ≡ ok o
      → (s.closed ≡ false) × (find_id id s.observations ≡ some o)
  unfolding get
  get-find_id id s o v h = (ground arith, ground (arith, v.indexed id))

  append_closed :
      (os : List (Observation F)) (s : ObservationStore F) → (append os s).closed ≡ s.closed
  unfolding append
  append_closed os s = refl

  append_observations :
      (os : List (Observation F)) (s : ObservationStore F)
      → (append os s).observations ≡ s.observations ++ os
  unfolding append
  append_observations os s = refl

  find_id-appended :
      (id : String) (s : ObservationStore F) (os : List (Observation F)) (o : Observation F)
      → find_id id s.observations ≡ some o
      → find_id id (append os s).observations ≡ some o
  find_id-appended id s os o h =
      rw (append_observations os s) (ground (arith, find_id-append id s.observations os, h))

  -- What a store returned for an identifier, it returns for ever: no later commit, accepted or
  -- refused, hides or replaces it.
  pub get-commit :
      (owns : AssetOwner) (asset_id : String) (drafts : List (ObservationDraft F)) (p : Provenance)
      (rs : List ObservationRelations) (s : ObservationStore F) (id : String) (o : Observation F)
      → IsValid s
      → (get id s).0 ≡ ok o
      → (get id (commit owns asset_id drafts p rs s).1).0 ≡ ok o
  get-commit owns asset_id drafts p rs s id o v h =
      elim (commit_cases owns asset_id drafts p rs s) [
        | inr (same, _) ↦ rw same h
        | inl (os, open_now, prepared, done) ↦ rw done (
            get_found id (append os s) o
              (append-IsValid s (length drafts) os v open_now
                (prepare-IsPrepared owns asset_id drafts p rs s os prepared))
              (append_closed os s ∙ open_now)
              (find_id-appended id s os o (get-find_id id s o v h).1))
      ]

  find_id-batch :
      (n : ℕ) (os : List (Observation F))
      → IsNumbered n os
      → All (λ (o : Observation F). find_id o.id os ≡ some o) os
  unfolding find_id
  find_id-batch n [] h = tt
  find_id-batch n (o ∷ os) h = (
    ground (arith, eq_iff o.id o.id),
    All-map (λ (x : Observation F). find_id x.id os ≡ some x)
        (λ (x : Observation F). find_id x.id (o ∷ os) ≡ some x) os
        (λ x found.
          ground
            (arith, eq_iff o.id x.id, h.0, found, find_id-below n (n + 1) os h.1 (omega arith)))
        (find_id-batch (n + 1) os h.1),
  )

  find_id-fresh :
      (n : ℕ) (xs os : List (Observation F)) (o : Observation F)
      → IsNumbered 1 xs
      → n ≡ 1 + length xs
      → IsNumbered n os
      → find_id o.id os ≡ some o
      → find_id o.id (xs ++ os) ≡ some o
  find_id-fresh n xs os o numbered e more found = elim (Option-cases (find_id o.id xs)) [
    | inl absent ↦ ground (arith, find_id-append o.id xs os, absent, found)
    | inr (x, there) ↦
        let (m, same, lt) = find_id-number o.id 1 xs x numbered there in
        absurd (ground (arith, same, found, find_id-below m n os more (omega arith)))
  ]

  -- A commit on a valid store that returns gives one observation for each draft, numbered from the
  -- store's next number on, appends exactly them, and each can be read back by its identifier.
  pub commit-get :
      (owns : AssetOwner) (asset_id : String) (drafts : List (ObservationDraft F)) (p : Provenance)
      (rs : List ObservationRelations) (s : ObservationStore F) (os : List (Observation F))
      → IsValid s
      → (commit owns asset_id drafts p rs s).0 ≡ ok os
      → IsNumbered s.next_number os
        × (length os ≡ length drafts)
        × ((commit owns asset_id drafts p rs s).1.observations ≡ s.observations ++ os)
        × All (λ (o : Observation F). (get o.id (commit owns asset_id drafts p rs s).1).0 ≡ ok o) os
  commit-get owns asset_id drafts p rs s os v h = elim (commit_cases owns asset_id drafts p rs s) [
    | inr (_, (e, bad)) ↦ absurd (ground (arith, bad))
    | inl (os', open_now, prepared, done) ↦
        let w = prepare-IsPrepared owns asset_id drafts p rs s os' prepared in
        let same : os' ≡ os = ground (arith, done) in
        rw (done, ← same)
          (
            w.numbered,
            w.counted,
            append_observations os' s,
            All-map (λ (o : Observation F). find_id o.id os' ≡ some o)
                (λ (o : Observation F). (get o.id (append os' s)).0 ≡ ok o) os'
                (λ o found.
                  get_found o.id (append os' s) o
                    (append-IsValid s (length drafts) os' v open_now w)
                    (append_closed os' s ∙ open_now)
                    (rw (append_observations os' s) (
                      find_id-fresh s.next_number s.observations os' o v.numbered (v.next open_now)
                        w.numbered found)))
                (find_id-batch s.next_number os' w.numbered),
          )
  ]

  -- Once the store is closed, every later call raises `SessionClosedError` and changes nothing.
  pub close_final :
      (s : ObservationStore F) (id : String) (owns : AssetOwner) (asset_id : String)
      (drafts : List (ObservationDraft F)) (p : Provenance) (rs : List ObservationRelations)
      → ((get id (close s).1).0 ≡ raised session_closed)
        × ((snapshots (close s).1).0 ≡ raised session_closed)
        × ((size (close s).1).0 ≡ raised session_closed)
        × ((has id (close s).1).0 ≡ raised session_closed)
        × (commit owns asset_id drafts p rs (close s).1 ≡ (raised session_closed, (close s).1))
  unfolding get snapshots size has commit close
  close_final s id owns asset_id drafts p rs =
      (ground arith, ground arith, ground arith, ground arith, ground arith)
