-- ===== src/Context/Closure.antt =====
-- Termination of `_eligible_assets`: the pending assets and the parents that are not there yet.
use penampakan.Base.{
  ℕ, zero, suc, ◌+◌, ◌≤◌, ◌<◌, ◌≡◌, refl, String, false, Option, none, some, List, [], ◌∷◌, ◌++◌,
  length, arith, inl, inr, Bool-cases, Option-cases, str_eq, eq_iff,
}
use penampakan.Base.Floats.{Floats}
use penampakan.Base.Dict.{Dict, lookup}
use penampakan.Base.Texts.{contains}
use penampakan.Models.{Observation}
use penampakan.Context.Lines.{dedupe}
use penampakan.Context.Assets.{
  follow_parents, unseen_parents, parents_of, pinned_assets, eligible_assets,
}

-- an asset more leaves no more parents unseen
unseen_parents_more :
    (parents : Dict String) (p : String) (assets : List String)
    → unseen_parents parents (p ∷ assets) ≤ unseen_parents parents assets
unfolding unseen_parents contains
unseen_parents_more [] p assets = omega arith
unseen_parents_more ((child, parent) ∷ parents) p assets =
    ground (arith, unseen_parents_more parents p assets)

-- and a parent that was not there, fewer
unseen_parents_fewer :
    (parents : Dict String) (id p : String) (assets : List String)
    → lookup id parents ≡ some p
    → contains p assets ≡ false
    → unseen_parents parents (p ∷ assets) < unseen_parents parents assets
unfolding unseen_parents contains lookup
unseen_parents_fewer [] id p assets h k = absurd (ground arith)
unseen_parents_fewer ((child, parent) ∷ parents) id p assets h k =
    elim (Bool-cases (str_eq child id)) [
      | inl e ↦
          let same : parent ≡ p = ground (arith, e) in
          rw same (ground (arith, k, eq_iff p p, unseen_parents_more parents p assets))
      | inr e ↦ ground (arith, e, unseen_parents_fewer parents id p assets (ground (arith, e)) k)
    ]

pub follow_parents_total :
    (fuel : ℕ) (parents : Dict String) (assets pending : List String)
    → unseen_parents parents assets + length pending < fuel
    → (found : List String) × (follow_parents fuel parents assets pending ≡ some found)
unfolding follow_parents
follow_parents_total zero parents assets pending h = absurd (omega arith)
follow_parents_total (suc fuel) parents assets [] h = (assets, refl)
follow_parents_total (suc fuel) parents assets (id ∷ pending) h =
    elim (Option-cases (lookup id parents)) [
      | inl root ↦
          let (found, e) = follow_parents_total fuel parents assets pending (omega arith) in
          (found, rw (root, follow_parents) e)
      | inr (p, derived) ↦ elim (Bool-cases (contains p assets)) [
        | inl there ↦
            let (found, e) = follow_parents_total fuel parents assets pending (omega arith) in
            (found, rw (derived, there, follow_parents) e)
        | inr new ↦
            let (found, e) =
              follow_parents_total fuel parents (p ∷ assets) (p ∷ pending)
                (omega (arith, unseen_parents_fewer parents id p assets derived new)) in
            (found, rw (derived, new, follow_parents) e)
      ]
    ]

pub eligible_assets_total :
    {F : Floats} (os : List (Observation F)) (root : String) (relevant : Option (List String))
    (recent pinned : List String) (by_id : Dict (Observation F))
    → (r : Option (List String)) × (eligible_assets os root relevant recent pinned by_id ≡ some r)
unfolding eligible_assets
eligible_assets_total os root none recent pinned by_id = (none, refl)
eligible_assets_total os root (some relevant) recent pinned by_id =
    let parents : Dict String = parents_of [] os in
    let assets : List String =
      dedupe [] (root ∷ relevant ++ recent ++ pinned_assets by_id pinned) in
    let (found, e) =
      follow_parents_total (suc (unseen_parents parents assets + length assets)) parents assets
        assets (omega arith) in
    (some found, rw (e, eligible_assets) refl)
