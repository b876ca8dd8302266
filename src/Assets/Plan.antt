-- ===== src/Assets/Plan.antt =====
-- `_commit_prepared` of src/penampakan/image/assets.py: which of the rendered images are new, their
-- identifiers, and what the call answers for each.
use penampakan.Base.{
  ℕ, String, Bool, true, false, Option, none, some, List, [], ◌∷◌, ◌++◌, if◌then◌else◌,
}
use penampakan.Base.Floats.{Floats}
use penampakan.Base.Errors.{runtime_error}
use penampakan.Base.Result.{Result, ok, raised, ◌>>=◌}
use penampakan.Base.Dict.{Dict, lookup, insert}
use penampakan.Base.Texts.{contains}
use penampakan.Assets.{
  Imaging, ImageAsset, ImageLimits, AssetRecord, PendingAsset, PreparedAsset, AssetCommit,
  owned_image, canonical_png_bytes, allocate_id,
}

-- the variables of the loop
pub record Plan (P : Imaging) (F : Floats) : Type 0 where
  pub planned_ids : Dict String
  pub planned_by_digest : Dict String
  pub new_records : Dict (AssetRecord P F)
  pub results : List (AssetCommit F)

module _ {P : Imaging} {F : Floats} where
  unfoldable pub prepare_one : ImageLimits → PendingAsset P F → Result (PreparedAsset P F)
  unfolding owned_image canonical_png_bytes
  prepare_one limits pending = owned_image P pending.image limits >>= λ image.
      canonical_png_bytes P image limits >>= λ content. ok (record {
        image = image;
        canonical_png = content;
        digest_sha256 = P.digest content;
        pending = pending;
      })

  -- the first loop of `commit`
  unfoldable pub prepare_all :
      ImageLimits → List (PendingAsset P F) → Result (List (PreparedAsset P F))
  unfolding prepare_one
  prepare_all limits [] = ok []
  prepare_all limits (x ∷ xs) =
      let rest = prepare_all limits xs in prepare_one limits x >>= λ y. rest >>= λ ys. ok (y ∷ ys)

  -- the set `new_digests`
  unfoldable pub new_digests : Dict String → List (PreparedAsset P F) → List String
  unfolding contains lookup
  new_digests digest_ids [] = []
  new_digests digest_ids (x ∷ xs) =
      let rest = new_digests digest_ids xs in
      elim (lookup x.digest_sha256 digest_ids) [
        | some id ↦ rest
        | none ↦ if contains x.digest_sha256 rest then rest else x.digest_sha256 ∷ rest
      ]

  -- the snapshot of a new derivative
  unfoldable pub derived_asset : String → String → ℕ → PreparedAsset P F → ImageAsset F
  derived_asset asset_id parent_id depth x = record {
    id = asset_id;
    width = P.width x.image;
    height = P.height x.image;
    mode = P.mode x.image;
    original_format = none;
    digest_sha256 = x.digest_sha256;
    parent_id = some parent_id;
    derivation_depth = depth;
    transform = some x.pending.transform;
  }

  unfoldable pub asset_commit : ImageAsset F → String → PreparedAsset P F → Bool → AssetCommit F
  asset_commit asset parent_id x reused = record {
    asset = asset;
    parent_id = parent_id;
    transform = x.pending.transform;
    reused = reused;
  }

  -- `asset_id is None`: the plan with a new record
  unfoldable pub plan_new : String → ℕ → PreparedAsset P F → String → Plan P F → Plan P F
  unfolding derived_asset asset_commit
  plan_new parent_id depth x asset_id p =
      let asset = derived_asset asset_id parent_id depth x in
      record {
        planned_ids = insert asset_id x.digest_sha256 p.planned_ids;
        planned_by_digest = insert x.digest_sha256 asset_id p.planned_by_digest;
        new_records =
            insert asset_id
              (record { asset = asset; image = x.image; canonical_png = x.canonical_png })
              p.new_records;
        results = p.results ++ asset_commit asset parent_id x false ∷ [];
      }

  -- `new_records.get(asset_id, self._records.get(asset_id))`
  unfoldable pub find_planned :
      String → Dict (AssetRecord P F) → Dict (AssetRecord P F) → Option (AssetRecord P F)
  unfolding lookup
  find_planned asset_id new_records records = elim (lookup asset_id new_records) [
    | some r ↦ some r
    | none ↦ lookup asset_id records
  ]

  -- `asset_id is not None`: the plan that reuses a record
  unfoldable pub plan_reuse : String → PreparedAsset P F → ImageAsset F → Plan P F → Plan P F
  unfolding asset_commit
  plan_reuse parent_id x asset p = record p {
    results = p.results ++ asset_commit asset parent_id x true ∷ [];
  }

  -- one round of the loop
  unfoldable pub plan_one :
      Dict (AssetRecord P F) → String → ℕ → PreparedAsset P F → Plan P F → Result (Plan P F)
  unfolding plan_new plan_reuse find_planned allocate_id lookup
  plan_one records parent_id depth x p = elim (lookup x.digest_sha256 p.planned_by_digest) [
    | none ↦ allocate_id x.digest_sha256 p.planned_ids >>= λ asset_id.
        ok (plan_new parent_id depth x asset_id p)
    | some asset_id ↦ elim (find_planned asset_id p.new_records records) [
      | none ↦ raised runtime_error
      | some r ↦ ok (plan_reuse parent_id x r.asset p)
    ]
  ]

  -- the loop
  unfoldable pub plan_all :
      Dict (AssetRecord P F) → String → ℕ → List (PreparedAsset P F) → Plan P F → Result (Plan P F)
  unfolding plan_one
  plan_all records parent_id depth [] p = ok p
  plan_all records parent_id depth (x ∷ xs) p =
      plan_one records parent_id depth x p >>= plan_all records parent_id depth xs

  -- `{asset_id: record.asset.digest_sha256 ...}`
  unfoldable pub digests_of : Dict (AssetRecord P F) → Dict String
  digests_of [] = []
  digests_of ((id, r) ∷ d) = (id, r.asset.digest_sha256) ∷ digests_of d

  -- the variables before the loop
  unfoldable pub first_plan : Dict (AssetRecord P F) → Dict String → Plan P F
  unfolding digests_of
  first_plan records digest_ids = record {
    planned_ids = digests_of records;
    planned_by_digest = digest_ids;
    new_records = [];
    results = [];
  }
