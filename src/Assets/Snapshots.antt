-- ===== src/Assets/Snapshots.antt =====
-- What the snapshots of an `AssetStore` show after a commit: src/penampakan/image/assets.py.
use penampakan.Base.{
  ◌+◌, ◌≡◌, ◌∙◌, refl, map, ap, String, false, some, List, [], ◌∷◌, ◌++◌, length, length-append,
  All, All-map, arith, Option-cases, inl, inr,
}
use penampakan.Base.Floats.{Floats}
use penampakan.Base.Result.{ok, ok-injective, >>=-eq-ok}
use penampakan.Base.Dict.{lookup, lookup-append}
use penampakan.Assets.{
  Imaging, ImageLimits, ImageAsset, AssetRecord, PendingAsset, PreparedAsset, AssetCommit,
  AssetStore, owned_image, canonical_png_bytes,
}
use penampakan.Assets.Plan.{prepare_one, prepare_all, new_digests}
use penampakan.Assets.Commit.{install, commit, snapshot}
use penampakan.Assets.Planned.{IsFiled}
use penampakan.Assets.Valid.{IsValid, commit_accepted, commit_outcome}
use penampakan.Assets.Rounds.{AnswersInOrder}
use penampakan.Assets.Install.{IsAccepted-IsPlanned, install-records}

module _ {P : Imaging} {F : Floats} where
  -- what a snapshot of an open store reads
  snapshot_found :
      (s : AssetStore P F) (id : String) (r : AssetRecord P F)
      → s.closed ≡ false
      → lookup id s.records ≡ some r
      → (snapshot id s).0 ≡ ok r.asset
  unfolding snapshot
  snapshot_found s id r open_now found = ground (arith, open_now, found)

  snapshot-lookup :
      (s : AssetStore P F) (id : String) (asset : ImageAsset F)
      → (snapshot id s).0 ≡ ok asset
      → (r : AssetRecord P F) × (lookup id s.records ≡ some r) × (r.asset ≡ asset)
  unfolding snapshot
  snapshot-lookup s id asset h = elim (Option-cases (lookup id s.records)) [
    | inl e ↦ absurd (ground (arith, e))
    | inr (r, e) ↦ (r, e, ground (arith, e))
  ]

  -- An asset that a store showed stays what it was after every commit, accepted or refused.
  pub snapshot-commit :
      (parent_id : String) (pending : List (PendingAsset P F)) (s : AssetStore P F) (id : String)
      (asset : ImageAsset F)
      → IsValid s
      → (snapshot id s).0 ≡ ok asset
      → (snapshot id (commit parent_id pending s).1).0 ≡ ok asset
  snapshot-commit parent_id pending s id asset v h = elim (commit_outcome parent_id pending s) [
    | inr (same, _) ↦ rw same h
    | inl (q, a) ↦
        let pl = IsAccepted-IsPlanned parent_id pending s q a v in
        let (r, found, same) = snapshot-lookup s id asset h in
        rw (commit_accepted parent_id pending s q a, ← same)
          (snapshot_found (install q s) id r (unfold install in a.open_now) (
            rw (install-records q s pl.valid.unique)
              (ground (arith, lookup-append id s.records q.new_records, found))))
  ]

  prepare_one-pending :
      (limits : ImageLimits) (x : PendingAsset P F) (y : PreparedAsset P F)
      → prepare_one limits x ≡ ok y
      → y.pending ≡ x
  unfolding prepare_one
  prepare_one-pending limits x y h =
      let (image, _, h1) = >>=-eq-ok (owned_image P x.image limits) _ h in
      let (content, _, h2) = >>=-eq-ok (canonical_png_bytes P image limits) _ h1 in
      rw⁻¹ (ok-injective h2) refl

  -- the images are prepared in their order
  prepare_all-pending :
      (limits : ImageLimits) (pending : List (PendingAsset P F))
      (prepared : List (PreparedAsset P F))
      → prepare_all limits pending ≡ ok prepared
      → map (λ (y : PreparedAsset P F). y.pending) prepared ≡ pending
  unfolding prepare_all
  prepare_all-pending limits [] prepared h = rw⁻¹ (ok-injective h) refl
  prepare_all-pending limits (x ∷ xs) prepared h =
      let (y, one, h1) = >>=-eq-ok (prepare_one limits x) _ h in
      let (ys, rest, h2) = >>=-eq-ok (prepare_all limits xs) _ h1 in
      rw⁻¹ (ok-injective h2)
        (rw (prepare_one-pending limits x y one, prepare_all-pending limits xs ys rest) refl)

  -- A commit of a valid store that returns prepares the rendered images in their order and answers them
  -- in that order: each answer has the digest of its image's content, the image's transform and the
  -- parent, and the store then shows its snapshot. Exactly one record is added for each digest that was
  -- new.
  pub commit-snapshot :
      (parent_id : String) (pending : List (PendingAsset P F)) (s : AssetStore P F)
      (commits : List (AssetCommit F))
      → IsValid s
      → (commit parent_id pending s).0 ≡ ok commits
      → (prepared : List (PreparedAsset P F)) × (prepare_all s.image_limits pending ≡ ok prepared)
        × (map (λ (x : PreparedAsset P F). x.pending) prepared ≡ pending)
        × AnswersInOrder parent_id commits prepared
        × All
            (λ (c : AssetCommit F).
              (snapshot c.asset.id (commit parent_id pending s).1).0 ≡ ok c.asset)
            commits
        × (length (commit parent_id pending s).1.records
            ≡ length s.records + length (new_digests s.digest_ids prepared))
  commit-snapshot parent_id pending s commits v h = elim (commit_outcome parent_id pending s) [
    | inr (_, (e, bad)) ↦ absurd (ground (arith, bad))
    | inl (q, a) ↦
        let pl = IsAccepted-IsPlanned parent_id pending s q a v in
        let done = commit_accepted parent_id pending s q a in
        let same : q.results ≡ commits = ground (arith, done) in
        let records = install-records q s pl.valid.unique in
        (
          a.prepared,
          a.rendered,
          prepare_all-pending s.image_limits pending a.prepared a.rendered,
          rw (← same) pl.answers,
          rw (done, ← same)
              (All-map (IsFiled (s.records ++ q.new_records))
                (λ (c : AssetCommit F). (snapshot c.asset.id (install q s)).0 ≡ ok c.asset)
                q.results
                (λ c filed.
                  snapshot_found (install q s) c.asset.id filed.0 (unfold install in a.open_now)
                    (rw records filed.1)
                  ∙ ap ok filed.2)
                pl.valid.answered),
          rw (done, records) (omega (arith, length-append s.records q.new_records, pl.growth)),
        )
  ]
