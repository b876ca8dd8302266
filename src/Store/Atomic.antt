-- ===== src/Store/Atomic.antt =====
-- `_commit` of src/penampakan/perception/store.py under an exception of the interpreter's own.
use penampakan.Base.{
  ℕ, ◌*◌, ◌<◌, ◌≡◌, ◌∙◌, ap, refl, String, false, List, ◌++◌, length, arith, Bool-cases, inl, inr,
  ◌⊎◌,
}
use penampakan.Base.Floats.{Floats}
use penampakan.Base.Errors.{Error, session_closed}
use penampakan.Base.Result.{ok, raised, Result-cases}
use penampakan.Models.{Observation, ObservationDraft, Provenance}
use penampakan.Store.{ObservationStore, ObservationRelations, AssetOwner, prepare, append, commit}
use penampakan.Store.Valid.{append-IsValid, IsValid, prepare-IsPrepared}
use penampakan.Store.Interrupt.{attempt_append, attempt_commit}
use penampakan.Store.Undo.{IsRestored}
use penampakan.Store.Attempt.{attempt_append_outcome, attempt_append_enough}

module _ {F : Floats} where
  append-observations :
      (os : List (Observation F)) (s : ObservationStore F)
      → (append os s).observations ≡ s.observations ++ os
  unfolding append
  append-observations os s = refl

  attempt_commit_raises :
      (steps : ℕ) (failure e : Error) (owns : AssetOwner) (asset_id : String)
      (drafts : List (ObservationDraft F)) (p : Provenance) (rs : List ObservationRelations)
      (s : ObservationStore F) (os : List (Observation F))
      → s.closed ≡ false
      → prepare owns asset_id drafts p rs s ≡ ok os
      → (attempt_append steps failure os s).0 ≡ raised e
      → attempt_commit steps failure owns asset_id drafts p rs s
        ≡ (raised e, (attempt_append steps failure os s).1)
  unfolding attempt_commit
  attempt_commit_raises steps failure e owns asset_id drafts p rs s os open_now prepared raises =
      ground (arith, open_now, prepared, raises)

  -- What a commit comes to when an exception may stop its append after `steps` statements.
  abbrev pub IsAllOrNothing :
      ℕ
      → Error
      → AssetOwner
      → String
      → List (ObservationDraft F)
      → Provenance
      → List ObservationRelations
      → ObservationStore F
      → Type 0
  IsAllOrNothing steps failure owns asset_id drafts p rs s =
      let (result, after) = attempt_commit steps failure owns asset_id drafts p rs s in
      (((os : List (Observation F)) × (prepare owns asset_id drafts p rs s ≡ ok os)
          × (result ≡ ok os)
          × (after ≡ append os s)
          × (after.observations ≡ s.observations ++ os)
          × IsValid after)
        ⊎ (((e : Error) × (result ≡ raised e) × (after ≡ s))
            ⊎ ((result ≡ raised failure) × IsRestored steps s after)))
      × (3 * length drafts < steps → (result, after) ≡ commit owns asset_id drafts p rs s)

  -- On a valid store, an exception that may stop `_append` after any number of its statements leaves
  -- three outcomes of a commit: it returns the prepared observations, has appended them all and
  -- leaves a valid store; it raises before the append and changes nothing; or it raises that exception
  -- with the observations and the next number as they were, and the index too, unless the exception came
  -- after two of the three statements of a round, when the index may have kept one observation that it
  -- did not have. When every statement can complete, the commit is the one without the exception.
  pub attempt_commit-IsAllOrNothing :
      (steps : ℕ) (failure : Error) (owns : AssetOwner) (asset_id : String)
      (drafts : List (ObservationDraft F)) (p : Provenance) (rs : List ObservationRelations)
      (s : ObservationStore F)
      → IsValid s
      → IsAllOrNothing steps failure owns asset_id drafts p rs s
  unfolding attempt_commit commit
  attempt_commit-IsAllOrNothing steps failure owns asset_id drafts p rs s v =
      elim (Bool-cases s.closed) [
        | inl closed ↦ (
          inr (inl (session_closed, ground (arith, closed), ground (arith, closed))),
          λ h. ground (arith, closed),
        )
        | inr open_now ↦ elim (Result-cases (prepare owns asset_id drafts p rs s)) [
          | inr (e, bad) ↦ (
            inr (inl (e, ground (arith, open_now, bad), ground (arith, open_now, bad))),
            λ h. ground (arith, open_now, bad),
          )
          | inl (os, prepared) ↦
              let w = prepare-IsPrepared owns asset_id drafts p rs s os prepared in
              let enough = λ (h : 3 * length drafts < steps).
                attempt_append_enough steps failure os s (omega (arith, h, w.counted)) in
              let appended : attempt_append steps failure os s ≡ (ok tt, append os s)
                  → (attempt_commit steps failure owns asset_id drafts p rs s).1 ≡ append os s =
                (λ done. ground (arith, open_now, prepared, done)) in
              elim (attempt_append_outcome steps failure os s v open_now w.numbered) [
                | inl done ↦ (
                  inl (
                    os,
                    prepared,
                    ground (arith, open_now, prepared, done),
                    appended done,
                    ap (λ (t : ObservationStore F). t.observations) (appended done)
                        ∙ append-observations os s,
                    rw (appended done) (append-IsValid s (length drafts) os v open_now w),
                  ),
                  λ h. ground (arith, open_now, prepared, enough h),
                )
                | inr (e, restored) ↦ (
                  inr (
                      inr (
                        rw
                          (attempt_commit_raises steps failure failure owns asset_id drafts p rs s
                            os open_now prepared e)
                          (refl, restored))),
                  λ h. ground (arith, open_now, prepared, enough h),
                )
              ]
        ]
      ]
