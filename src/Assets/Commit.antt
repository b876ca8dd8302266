-- ===== src/Assets/Commit.antt =====
-- The methods of `AssetStore` in src/penampakan/image/assets.py.
use penampakan.Base.{
  ℕ, ◌+◌, ◌-◌, String, true, none, some, List, [], map, length, ltb, if◌then◌else◌,
}
use penampakan.Base.Floats.{Floats}
use penampakan.Base.Errors.{
  session_closed, asset_not_found, asset_limit_exceeded, derivation_depth_limit_exceeded,
}
use penampakan.Base.Result.{ok, raised}
use penampakan.Base.Exec.{Exec, pure, gets, modify, reject_when, ◌>>=◌, ◌>>◌}
use penampakan.Base.Dict.{lookup, update}
use penampakan.Assets.{
  Imaging, ImageAsset, AssetRecord, PendingAsset, PreparedAsset, AssetCommit, AssetStore,
}
use penampakan.Assets.Plan.{Plan, prepare_all, new_digests, plan_all, first_plan}

module _ {P : Imaging} {F : Floats} where
  -- `_require_open`
  abbrev pub require_open : Exec (AssetStore P F) (Unit {0})
  require_open = reject_when (λ s. s.closed) session_closed

  -- `_record`
  unfoldable pub find_record : String → Exec (AssetStore P F) (AssetRecord P F)
  unfolding lookup
  find_record id = do
    require_open
    λ s. elim (lookup id s.records) [ none ↦ (raised asset_not_found, s) | some r ↦ (ok r, s) ]

  -- `snapshot`
  unfoldable pub snapshot : String → Exec (AssetStore P F) (ImageAsset F)
  unfolding find_record
  snapshot id = do r ← find_record id; pure r.asset

  -- `content`
  unfoldable pub content : String → Exec (AssetStore P F) P.Bytes
  unfolding find_record
  content id = do r ← find_record id; pure r.canonical_png

  -- `snapshots`
  unfoldable pub snapshots : Exec (AssetStore P F) (List (ImageAsset F))
  snapshots = do require_open; gets λ s. map (λ (e : String × AssetRecord P F). e.1.asset) s.records

  -- `derived_count`
  unfoldable pub derived_count : Exec (AssetStore P F) ℕ
  derived_count = do require_open; gets λ s. length s.records - 1

  -- `_validate_depth`
  unfoldable pub validate_depth : ℕ → Exec (AssetStore P F) (Unit {0})
  validate_depth depth =
      reject_when (λ s. ltb s.run_limits.max_derivation_depth depth) derivation_depth_limit_exceeded

  -- `self.derived_count + count > self._run_limits.max_derived_assets`
  unfoldable pub validate_count : ℕ → Exec (AssetStore P F) (Unit {0})
  unfolding derived_count
  validate_count count = do
    derived ← derived_count
    reject_when (λ s. ltb s.run_limits.max_derived_assets (derived + count)) asset_limit_exceeded

  -- `ensure_capacity`, of a count that is not negative
  unfoldable pub ensure_capacity : String → ℕ → Exec (AssetStore P F) (Unit {0})
  unfolding find_record validate_depth validate_count
  ensure_capacity parent_id pending_count = do
    parent ← find_record parent_id
    validate_depth (parent.asset.derivation_depth + 1)
    validate_count pending_count

  unfoldable pub install : Plan P F → AssetStore P F → AssetStore P F
  unfolding update
  install p s = record s {
    records = update s.records p.new_records;
    digest_ids = update s.digest_ids p.planned_by_digest;
  }

  -- `_commit_prepared`
  unfoldable pub commit_prepared :
      String → ℕ → List (PreparedAsset P F) → Exec (AssetStore P F) (List (AssetCommit F))
  unfolding plan_all first_plan install
  commit_prepared parent_id depth prepared = do
    p ← λ s. (plan_all s.records parent_id depth prepared (first_plan s.records s.digest_ids), s)
    modify (install p)
    pure p.results

  -- `commit`
  unfoldable pub commit :
      String → List (PendingAsset P F) → Exec (AssetStore P F) (List (AssetCommit F))
  unfolding find_record validate_depth prepare_all validate_count new_digests commit_prepared
  commit parent_id pending = do
    parent ← find_record parent_id
    validate_depth (parent.asset.derivation_depth + 1)
    prepared ← λ s. (prepare_all s.image_limits pending, s)
    λ s. validate_count (length (new_digests s.digest_ids prepared)) s
    commit_prepared parent_id (parent.asset.derivation_depth + 1) prepared

  -- `close`
  unfoldable pub close : Exec (AssetStore P F) (Unit {0})
  close s =
      if s.closed
      then (ok tt, s)
      else (ok tt, record s { records = []; digest_ids = []; closed = true })
