-- ===== src/Assets/Valid.antt =====
-- The invariant of `AssetStore` in src/penampakan/image/assets.py, and what `commit` does to it.
use penampakan.Base.{
  ℕ, ◌+◌, ◌-◌, ◌≤◌, ◌≡◌, ◌⊎◌, refl, String, true, false, none, some, List, [], length, All, arith,
  ltb, ltb→lt, ◌<◌, Bool-cases, Option-cases, inl, inr,
}
use penampakan.Base.Floats.{Floats}
use penampakan.Base.Errors.{
  Error, session_closed, asset_not_found, asset_limit_exceeded, derivation_depth_limit_exceeded,
}
use penampakan.Base.Result.{ok, raised, Result-cases}
use penampakan.Base.Dict.{Dict, IsUnique, lookup}
use penampakan.Assets.{Imaging, AssetRecord, PendingAsset, PreparedAsset, AssetStore}
use penampakan.Assets.Plan.{Plan, prepare_all, new_digests, plan_all, first_plan}
use penampakan.Assets.Commit.{install, commit}
use penampakan.Assets.Planned.{digest_at, IsNamed}

not_below : (a b : ℕ) → ltb a b ≡ false → b ≤ a
not_below a b h = ground arith

module _ {P : Imaging} {F : Floats} where
  -- a root, or a record one step deeper than the record that it derives from
  abbrev pub HasLineage : ℕ → Dict (AssetRecord P F) → String × AssetRecord P F → Type 0
  HasLineage deepest records (id, r) =
      ((r.asset.parent_id ≡ none) × (r.asset.derivation_depth ≡ 0))
      ⊎ ((parent : String) × (q : AssetRecord P F) × (r.asset.parent_id ≡ some parent)
          × (lookup parent records ≡ some q)
          × (r.asset.derivation_depth ≡ 1 + q.asset.derivation_depth)
          × (r.asset.derivation_depth ≤ deepest))

  -- Every record stands once, under its own identifier; the digests and the identifiers are inverse
  -- to each other; the records derive from one another and are at most as many and as deep as the
  -- limits allow; a closed store has none.
  pub record IsValid (s : AssetStore P F) : Type 0 where
    pub unique : IsUnique s.records
    pub unique_digests : IsUnique s.digest_ids
    pub named : All IsNamed s.records
    pub forth :
        (d id : String) → lookup d s.digest_ids ≡ some id → digest_at (lookup id s.records) ≡ some d
    pub back :
        (d id : String) → digest_at (lookup id s.records) ≡ some d → lookup d s.digest_ids ≡ some id
    pub lineage : All (HasLineage s.run_limits.max_derivation_depth s.records) s.records
    pub bounded : length s.records ≤ 1 + s.run_limits.max_derived_assets
    pub released : s.closed ≡ true → s.records ≡ []

  -- what the checks of a commit that returns have established
  pub record IsAccepted (parent_id : String) (pending : List (PendingAsset P F))
      (s : AssetStore P F) (q : Plan P F) : Type 0 where
    pub parent : AssetRecord P F
    pub prepared : List (PreparedAsset P F)
    pub open_now : s.closed ≡ false
    pub present : lookup parent_id s.records ≡ some parent
    pub depth : 1 + parent.asset.derivation_depth ≤ s.run_limits.max_derivation_depth
    pub rendered : prepare_all s.image_limits pending ≡ ok prepared
    pub count :
        length s.records - 1 + length (new_digests s.digest_ids prepared)
        ≤ s.run_limits.max_derived_assets
    pub planned :
        plan_all s.records parent_id
          (parent.asset.derivation_depth + 1)
          prepared
          (first_plan s.records s.digest_ids)
        ≡ ok q

  pub commit_accepted :
      (parent_id : String) (pending : List (PendingAsset P F)) (s : AssetStore P F) (q : Plan P F)
      → IsAccepted parent_id pending s q
      → commit parent_id pending s ≡ (ok q.results, install q s)
  unfolding commit
  commit_accepted parent_id pending s q a =
      ground (arith, a.open_now, a.present, a.depth, a.rendered, a.count, a.planned)

  commit_over :
      (parent_id : String) (pending : List (PendingAsset P F)) (s : AssetStore P F)
      (parent : AssetRecord P F) (prepared : List (PreparedAsset P F))
      → s.closed ≡ false
      → lookup parent_id s.records ≡ some parent
      → 1 + parent.asset.derivation_depth ≤ s.run_limits.max_derivation_depth
      → prepare_all s.image_limits pending ≡ ok prepared
      → s.run_limits.max_derived_assets
        < length s.records - 1 + length (new_digests s.digest_ids prepared)
      → commit parent_id pending s ≡ (raised asset_limit_exceeded, s)
  unfolding commit
  commit_over parent_id pending s parent prepared open_now present depth rendered over =
      ground (arith, open_now, present, depth, rendered, over)

  commit_unplanned :
      (parent_id : String) (pending : List (PendingAsset P F)) (s : AssetStore P F)
      (parent : AssetRecord P F) (prepared : List (PreparedAsset P F)) (e : Error)
      → s.closed ≡ false
      → lookup parent_id s.records ≡ some parent
      → 1 + parent.asset.derivation_depth ≤ s.run_limits.max_derivation_depth
      → prepare_all s.image_limits pending ≡ ok prepared
      → length s.records - 1 + length (new_digests s.digest_ids prepared)
        ≤ s.run_limits.max_derived_assets
      → plan_all s.records parent_id
          (parent.asset.derivation_depth + 1)
          prepared
          (first_plan s.records s.digest_ids)
        ≡ raised e
      → commit parent_id pending s ≡ (raised e, s)
  unfolding commit
  commit_unplanned parent_id pending s parent prepared e open_now present depth rendered count
        failed =
      ground (arith, open_now, present, depth, rendered, count, failed)

  -- a commit that raises changes nothing
  abbrev pub IsRefused : String → List (PendingAsset P F) → AssetStore P F → Type 0
  IsRefused parent_id pending s =
      ((commit parent_id pending s).1 ≡ s)
      × ((e : Error) × ((commit parent_id pending s).0 ≡ raised e))

  commit_checked :
      (parent_id : String) (pending : List (PendingAsset P F)) (s : AssetStore P F)
      (parent : AssetRecord P F) (prepared : List (PreparedAsset P F))
      → s.closed ≡ false
      → lookup parent_id s.records ≡ some parent
      → 1 + parent.asset.derivation_depth ≤ s.run_limits.max_derivation_depth
      → prepare_all s.image_limits pending ≡ ok prepared
      → ((q : Plan P F) × IsAccepted parent_id pending s q) ⊎ IsRefused parent_id pending s
  commit_checked parent_id pending s parent prepared open_now present depth rendered =
      let new = new_digests s.digest_ids prepared in
      elim (Bool-cases (ltb s.run_limits.max_derived_assets (length s.records - 1 + length new))) [
        | inl over ↦
            let raises =
              commit_over parent_id pending s parent prepared open_now present depth rendered
                (ltb→lt _ _ over) in
            inr (rw raises refl, (asset_limit_exceeded, rw raises refl))
        | inr within ↦
            elim (Result-cases (
              plan_all s.records parent_id (parent.asset.derivation_depth + 1) prepared
                (first_plan s.records s.digest_ids))) [
                  | inl (q, planned) ↦ inl (
                    q,
                    record {
                      parent = parent;
                      prepared = prepared;
                      open_now = open_now;
                      present = present;
                      depth = depth;
                      rendered = rendered;
                      count = not_below _ _ within;
                      planned = planned;
                    },
                  )
                  | inr (e, failed) ↦
                      let raises =
                        commit_unplanned parent_id pending s parent prepared e open_now present
                          depth rendered (not_below _ _ within) failed in
                      inr (rw raises refl, (e, rw raises refl))
                ]
      ]

  -- A commit returned after all of its checks, or it raised and left the store as it was.
  pub commit_outcome :
      (parent_id : String) (pending : List (PendingAsset P F)) (s : AssetStore P F)
      → ((q : Plan P F) × IsAccepted parent_id pending s q) ⊎ IsRefused parent_id pending s
  unfolding commit
  commit_outcome parent_id pending s = elim (Bool-cases s.closed) [
    | inl closed ↦ inr (ground (arith, closed), (session_closed, ground (arith, closed)))
    | inr open_now ↦ elim (Option-cases (lookup parent_id s.records)) [
      | inl e ↦ inr (ground (arith, open_now, e), (asset_not_found, ground (arith, open_now, e)))
      | inr (parent, present) ↦
          elim (Bool-cases
            (ltb s.run_limits.max_derivation_depth (parent.asset.derivation_depth + 1))) [
              | inl deep ↦ inr (
                ground (arith, open_now, present, deep),
                (derivation_depth_limit_exceeded, ground (arith, open_now, present, deep)),
              )
              | inr shallow ↦ elim (Result-cases (prepare_all s.image_limits pending)) [
                | inl (prepared, rendered) ↦
                    commit_checked parent_id pending s parent prepared open_now present
                      (ground (arith, shallow)) rendered
                | inr (e, failed) ↦ inr (
                  ground (arith, open_now, present, shallow, failed),
                  (e, ground (arith, open_now, present, shallow, failed)),
                )
              ]
            ]
    ]
  ]
