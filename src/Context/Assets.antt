-- ===== src/Context/Assets.antt =====
-- `_eligible_assets` of src/penampakan/reasoning/context.py: the assets in question and all that they
-- derive from.
use penampakan.Base.{
  ℕ, zero, suc, ◌+◌, String, Option, none, some, List, [], ◌∷◌, ◌++◌, length, if◌then◌else◌,
}
use penampakan.Base.Floats.{Floats}
use penampakan.Base.Dict.{Dict, lookup, insert}
use penampakan.Base.Texts.{contains}
use penampakan.Models.{Observation, ObservationPayload, transform_payload}
use penampakan.Context.Lines.{dedupe}

-- The `while` loop over the assets found and the ones still to follow. Which asset is followed next
-- is not fixed, since the source lists a set; here it is the first. `none` is out of fuel.
unfoldable pub follow_parents : ℕ → Dict String → List String → List String → Option (List String)
unfolding contains
follow_parents zero parents assets pending = none
follow_parents (suc fuel) parents assets [] = some assets
follow_parents (suc fuel) parents assets (asset_id ∷ pending) =
    let skip = follow_parents fuel parents assets pending in
    elim (lookup asset_id parents) [
      | none ↦ skip
      | some parent ↦
          let add = follow_parents fuel parents (parent ∷ assets) (parent ∷ pending) in
          if contains parent assets then skip else add
    ]

-- the entries whose parent is not among the assets
unfoldable pub unseen_parents : Dict String → List String → ℕ
unfolding contains
unseen_parents [] assets = 0
unseen_parents ((child, parent) ∷ parents) assets =
    let rest = unseen_parents parents assets in if contains parent assets then rest else suc rest

module _ {F : Floats} where
  add_parent : ObservationPayload F → Dict String → Dict String
  add_parent (transform_payload t) parents = insert t.derived_asset_id t.parent_asset_id parents
  add_parent payload parents = parents

  -- the dictionary `parents`
  unfoldable pub parents_of : Dict String → List (Observation F) → Dict String
  unfolding add_parent
  parents_of parents [] = parents
  parents_of parents (o ∷ os) = parents_of (add_parent o.payload parents) os

  -- the assets of the observations that are pinned by identifier
  unfoldable pub pinned_assets : Dict (Observation F) → List String → List String
  pinned_assets by_id [] = []
  pinned_assets by_id (id ∷ ids) =
      let rest = pinned_assets by_id ids in
      elim (lookup id by_id) [ none ↦ rest | some o ↦ o.asset_id ∷ rest ]

  -- `_eligible_assets`; an outer `none` is out of fuel, an inner one that every asset is eligible
  unfoldable pub eligible_assets :
      List (Observation F)
      → String
      → Option (List String)
      → List String
      → List String
      → Dict (Observation F)
      → Option (Option (List String))
  unfolding follow_parents unseen_parents parents_of pinned_assets dedupe
  eligible_assets os root none recent pinned by_id = some none
  eligible_assets os root (some relevant) recent pinned by_id =
      let parents = parents_of [] os in
      let assets = dedupe [] (root ∷ relevant ++ recent ++ pinned_assets by_id pinned) in
      elim (follow_parents (suc (unseen_parents parents assets + length assets)) parents assets
        assets) [ none ↦ none | some found ↦ some (some found) ]
