-- ===== src/Session/Lineage.antt =====
-- `_lineage_for_asset` of src/penampakan/session.py ends: a parent is one step nearer to the root.
use penampakan.Base.{
  ℕ, zero, suc, ◌+◌, ◌≤◌, ◌≡◌, refl, ◌∙◌, ap, String, Option, none, some, List, [], ◌∷◌, ◌++◌, map,
  arith, All, Bool-cases, Option-cases, inl, inr, str_eq,
}
use penampakan.Base.Floats.{Floats}
use penampakan.Base.Result.{Result, ok, raised, Result-cases}
use penampakan.Base.Run.{Keeps, Ends, Ends->>=}
use penampakan.Base.Dict.{Dict, IsUnique, lookup, update-append}
use penampakan.Config.{RunLimits}
use penampakan.Assets.{Imaging, ImageAsset, AssetRecord, AssetStore}
use penampakan.Assets.Commit as AssetMethods
use penampakan.Assets.Planned.{IsNamed}
use penampakan.Assets.Valid.{HasLineage, IsValid}
use penampakan.Session.{Host, Session, on_assets}
use penampakan.Session.Tools.{by_id, follow_lineage, lineage_for_asset}
use penampakan.Session.Keeps.{IsSafe, asset_snapshots_same}

module _ {F : Floats} where
  follow_none :
      (fuel : ℕ) (snapshots : Dict (ImageAsset F))
      → 1 ≤ fuel
      → follow_lineage fuel snapshots none ≡ some []
  unfolding follow_lineage
  follow_none zero snapshots h = absurd (omega (arith, h))
  follow_none (suc fuel) snapshots h = refl

module _ {P : Imaging} {F : Floats} where
  abbrev asset_at : Option (AssetRecord P F) → Option (ImageAsset F)
  asset_at none = none
  asset_at (some r) = some r.asset

  abbrev entries : Dict (AssetRecord P F) → Dict (ImageAsset F)
  entries d =
      map (λ (a : ImageAsset F). (a.id, a)) (map (λ (e : String × AssetRecord P F). e.1.asset) d)

  lookup-entries :
      (j : String) (d : Dict (AssetRecord P F))
      → All IsNamed d
      → lookup j (entries d) ≡ asset_at (lookup j d)
  unfolding lookup
  lookup-entries j [] named = refl
  lookup-entries j ((k, r) ∷ d) named = ground (arith, lookup-entries j d named.1, named.0)

  IsUnique-entries :
      (d : Dict (AssetRecord P F)) → All IsNamed d → IsUnique d → IsUnique (entries d)
  IsUnique-entries [] named u = tt
  IsUnique-entries ((k, r) ∷ d) named u =
      (rw named.0 (lookup-entries k d named.1 ∙ ap asset_at u.0), IsUnique-entries d named.1 u.1)

  -- the dictionary of the snapshots finds the records' assets
  lookup-by_id :
      (j : String) (d : Dict (AssetRecord P F))
      → All IsNamed d
      → IsUnique d
      → lookup j (by_id (map (λ (e : String × AssetRecord P F). e.1.asset) d))
        ≡ asset_at (lookup j d)
  unfolding by_id
  lookup-by_id j d named u =
      ap (lookup j) (update-append [] (entries d) (IsUnique-entries d named u))
      ∙ lookup-entries j d named

  lineage_at :
      (deepest : ℕ) (records d : Dict (AssetRecord P F)) (j : String) (r : AssetRecord P F)
      → All (HasLineage deepest records) d
      → lookup j d ≡ some r
      → HasLineage deepest records (j, r)
  unfolding lookup
  lineage_at deepest records [] j r h found = absurd (ground arith)
  lineage_at deepest records ((k, q) ∷ d) j r h found = elim (Bool-cases (str_eq k j)) [
    | inl here ↦ let e : q ≡ r = ground arith in rw (← e) h.0
    | inr there ↦ lineage_at deepest records d j r h.1 (ground arith)
  ]

  -- enough fuel for an asset of the store
  follow_lineage_total :
      (fuel deepest : ℕ) (d : Dict (AssetRecord P F)) (snapshots : Dict (ImageAsset F)) (j : String)
      (r : AssetRecord P F)
      → All (HasLineage deepest d) d
      → ((i : String) → lookup i snapshots ≡ asset_at (lookup i d))
      → lookup j d ≡ some r
      → r.asset.derivation_depth + 2 ≤ fuel
      → (ids : List String) × (follow_lineage fuel snapshots (some r.asset) ≡ some ids)
  unfolding follow_lineage
  follow_lineage_total zero deepest d snapshots j r h same found enough =
      absurd (omega (arith, enough))
  follow_lineage_total (suc fuel) deepest d snapshots j r h same found enough =
      elim (lineage_at deepest d d j r h found) [
        | inl (root, flat) ↦ (
          r.asset.id ∷ [],
          ground (arith, root, follow_none fuel snapshots (omega (arith, enough))),
        )
        | inr (parent, q, named, there, depth, within) ↦
            let (ids, more) =
              follow_lineage_total fuel deepest d snapshots parent q h same there
                (omega (arith, depth, enough)) in
            (ids ++ r.asset.id ∷ [], ground (arith, named, same parent, there, more))
      ]

  snapshots_found :
      (a : AssetStore P F) (assets : List (ImageAsset F))
      → (AssetMethods.snapshots a).0 ≡ ok assets
      → assets ≡ map (λ (e : String × AssetRecord P F). e.1.asset) a.records
  unfolding AssetMethods.snapshots
  snapshots_found a assets h = ground arith

  depth_within :
      (deepest : ℕ) (d : Dict (AssetRecord P F)) (j : String) (r : AssetRecord P F)
      → HasLineage deepest d (j, r)
      → r.asset.derivation_depth ≤ deepest
  depth_within deepest d j r (inl (root, flat)) = omega (arith, flat)
  depth_within deepest d j r (inr (parent, q, named, there, depth, within)) = within

  lineage_found :
      (a : AssetStore P F) (assets : List (ImageAsset F)) (id : String)
      → IsValid a
      → assets ≡ map (λ (e : String × AssetRecord P F). e.1.asset) a.records
      → (ids : List String) × (follow_lineage
            (suc (suc a.run_limits.max_derivation_depth))
            (by_id assets)
            (lookup id (by_id assets))
          ≡ some ids)
  lineage_found a assets id v e =
      let deepest = a.run_limits.max_derivation_depth in
      let found : (i : String) → lookup i (by_id assets) ≡ asset_at (lookup i a.records) =
        λ i. rw e (lookup-by_id i a.records v.named v.unique) in
      elim (Option-cases (lookup id a.records)) [
        | inl missing ↦ (
          [],
          rw (found id, missing) (follow_none (suc (suc deepest)) (by_id assets) (omega arith)),
        )
        | inr (r, there) ↦
            let (ids, more) =
              follow_lineage_total (suc (suc deepest)) deepest a.records (by_id assets) id r
                v.lineage found there
                (omega (
                  arith,
                  depth_within deepest a.records id r
                      (lineage_at deepest a.records a.records id r v.lineage there),
                )) in
            (ids, rw (found id, there) more)
      ]

module _ {P : Imaging} {F : Floats} {H : Host P F} where
  -- snapshots that were shown are those of the store
  abbrev IsShown : RunLimits F → ℕ → Result (List (ImageAsset F)) → Session H → Type 0
  IsShown l k (raised e) s = IsSafe l k s
  IsShown l k (ok assets) s =
      IsSafe l k s × (assets ≡ map (λ (e : String × AssetRecord P F). e.1.asset) s.assets.records)

  module _ {l : RunLimits F} {k : ℕ} where
    asset_snapshots-IsShown :
        Ends (IsSafe l k) (on_assets {H = H} AssetMethods.snapshots) (IsShown l k)
    asset_snapshots-IsShown s h =
        let after : Session H = record s { assets = (AssetMethods.snapshots s.assets).1 } in
        let kept : IsSafe l k after = record {
          within = h.within;
          taken = h.taken;
          observed = h.observed;
          owned = rw (asset_snapshots_same s.assets) h.owned;
        } in
        elim (Result-cases (AssetMethods.snapshots s.assets).0) [
          | inl (assets, shown) ↦ (
            ok assets,
            after,
            ap (λ x. some (x, after)) shown,
            (kept, rw (asset_snapshots_same s.assets) (snapshots_found s.assets assets shown)),
          )
          | inr (x, failed) ↦ (raised x, after, ap (λ y. some (y, after)) failed, kept)
        ]

    pub Keeps-lineage_for_asset : (id : String) → Keeps (IsSafe l k) (lineage_for_asset {H = H} id)
    unfolding lineage_for_asset
    Keeps-lineage_for_asset id =
        Ends->>= asset_snapshots-IsShown
          (λ assets s h.
            let (ids, e) = lineage_found s.assets assets id h.0.owned h.1 in
            (ok ids, s, rw e refl, h.0))
          (λ x t p. p)
