-- ===== src/Assets.antt =====
-- src/penampakan/image/assets.py: the session's root image and the images derived from it, each under
-- an identifier and at most once for the same canonical bytes. Pillow and the hash are parameters.
-- Copies of immutable pixels are equal to what they copy; releasing an image's memory, and checks of
-- arguments that the types here exclude, are left out.
pub mod Plan
pub mod Commit
mod Count
pub mod Planned
mod Rounds
mod Install
mod Snapshots
pub mod Valid
pub mod Runs
mod Tests
use penampakan.Base.{
  ℕ, zero, suc, ◌+◌, ◌-◌, ◌*◌, String, Bool, true, false, ◌&&◌, ◌||◌, not, Option, none, some, List,
  [], ◌∷◌, ◌++◌, map, length, ◌==◌, ltb, str_eq, if◌then◌else◌,
}
use penampakan.Base.Floats.{Floats}
use penampakan.Base.Errors.{
  Error, value_error, runtime_error, session_closed, asset_not_found, asset_limit_exceeded,
  derivation_depth_limit_exceeded, invalid_image, image_limit_exceeded,
}
use penampakan.Base.Result
use penampakan.Base.Result.{Result, ok, raised, require, reject}
use penampakan.Base.Exec.{Exec, pure, lift, gets, modify, reject_when, ◌>>=◌, ◌>>◌}
use penampakan.Base.Dict.{Dict, lookup, insert}
use penampakan.Base.Texts.{contains}
use penampakan.Config.{RunLimits}
use penampakan.Models.{TransformDescriptor}

-- What the store uses of Pillow, `encode_canonical_png` and `canonical_digest`.
pub record Imaging : Type 1 where
  pub Image : Type 0
  pub Bytes : Type 0
  pub width : Image → ℕ
  pub height : Image → ℕ
  pub mode : Image → String
  pub encode : Image → Bytes
  pub same_bytes : Bytes → Bytes → Bool
  pub digest : Bytes → String

-- `ImageLimits`
pub record ImageLimits : Type 0 where
  pub max_input_bytes : ℕ
  pub max_pixels : ℕ
  pub max_width : ℕ
  pub max_height : ℕ

-- `ImageAsset`; the MIME type is always `image/png`
pub record ImageAsset (F : Floats) : Type 0 where
  pub id : String
  pub width : ℕ
  pub height : ℕ
  pub mode : String
  pub original_format : Option String
  pub digest_sha256 : String
  pub parent_id : Option String
  pub derivation_depth : ℕ
  pub transform : Option (TransformDescriptor F)

-- `_AssetRecord`
pub record AssetRecord (P : Imaging) (F : Floats) : Type 0 where
  pub asset : ImageAsset F
  pub image : P.Image
  pub canonical_png : P.Bytes

-- `PendingAsset`
pub record PendingAsset (P : Imaging) (F : Floats) : Type 0 where
  pub image : P.Image
  pub transform : TransformDescriptor F

-- `_PreparedAsset`
pub record PreparedAsset (P : Imaging) (F : Floats) : Type 0 where
  pub image : P.Image
  pub canonical_png : P.Bytes
  pub digest_sha256 : String
  pub pending : PendingAsset P F

-- `AssetCommit`
pub record AssetCommit (F : Floats) : Type 0 where
  pub asset : ImageAsset F
  pub parent_id : String
  pub transform : TransformDescriptor F
  pub reused : Bool

-- `LoadedImageLike`
pub record LoadedImage (P : Imaging) : Type 0 where
  pub image : P.Image
  pub canonical_png : P.Bytes
  pub digest_sha256 : String
  pub original_format : Option String

-- `AssetStore`
pub record AssetStore (P : Imaging) (F : Floats) : Type 0 where
  pub image_limits : ImageLimits
  pub run_limits : RunLimits F
  pub records : Dict (AssetRecord P F)
  pub digest_ids : Dict String
  pub root_id : String
  pub closed : Bool

-- `text[:n]`
abbrev pub prefix : ℕ → String → String
prefix zero s = ""
prefix (suc n) String.[] = ""
prefix (suc n) (String.◌∷◌ c s) = String.◌∷◌ c (prefix n s)

-- `f"img_{digest[:length]}"`
unfoldable pub asset_id_of : ℕ → String → String
asset_id_of n digest =
    String.◌∷◌ "i" (String.◌∷◌ "m" (String.◌∷◌ "g" (String.◌∷◌ "_" (prefix n digest))))

-- the loop of `_allocate_id` over `count` lengths from `n` on
allocate_from : String → Dict String → ℕ → ℕ → Result String
unfolding asset_id_of
allocate_from digest assigned zero n = raised invalid_image
allocate_from digest assigned (suc count) n =
    let longer = allocate_from digest assigned count (suc n) in
    let candidate = asset_id_of n digest in
    elim (lookup candidate assigned) [
      | none ↦ ok candidate
      | some d ↦ if str_eq d digest then ok candidate else longer
    ]

-- `_allocate_id`
unfoldable pub allocate_id : String → Dict String → Result String
unfolding allocate_from
allocate_id digest assigned = allocate_from digest assigned 49 16

-- `expected is not None and expected != found`
differs : {A : Type 0} → (A → A → Bool) → Option A → A → Bool
differs same none found = false
differs same (some expected) found = not (same expected found)

or_else : {A : Type 0} → Option A → A → A
or_else none a = a
or_else (some b) a = b

module _ (P : Imaging) where
  -- `_validate_dimensions`
  unfoldable pub validate_dimensions : P.Image → ImageLimits → Result (Unit {0})
  validate_dimensions image limits =
      Result.◌>>◌ (reject (P.width image == 0 || P.height image == 0) invalid_image) (
        Result.◌>>◌
          (reject (ltb limits.max_width (P.width image) || ltb limits.max_height (P.height image))
            image_limit_exceeded)
          (reject (ltb limits.max_pixels (P.width image * P.height image)) image_limit_exceeded))

  -- `_owned_image`
  unfoldable pub owned_image : P.Image → ImageLimits → Result P.Image
  unfolding validate_dimensions
  owned_image image limits =
      Result.◌>>◌
        (require (str_eq (P.mode image) "RGB" || str_eq (P.mode image) "RGBA") invalid_image)
        (Result.◌>>◌ (validate_dimensions image limits) (ok image))

  -- `canonical_png_bytes`
  unfoldable pub canonical_png_bytes : P.Image → ImageLimits → Result P.Bytes
  unfolding owned_image
  canonical_png_bytes image limits =
      Result.◌>>=◌ (owned_image image limits) λ owned. ok (P.encode owned)

  module _ {F : Floats} where
    -- `_install_root`, on a store without records
    unfoldable pub install_root :
        P.Image → P.Bytes → String → Option String → ImageLimits → RunLimits F → AssetStore P F
    unfolding asset_id_of
    install_root owned content digest original_format image_limits run_limits =
        let id = asset_id_of 16 digest in
        let root : ImageAsset F = record {
          id = id;
          width = P.width owned;
          height = P.height owned;
          mode = P.mode owned;
          original_format = original_format;
          digest_sha256 = digest;
          parent_id = none;
          derivation_depth = 0;
          transform = none;
        } in
        record {
          image_limits = image_limits;
          run_limits = run_limits;
          records = (id, record { asset = root; image = owned; canonical_png = content }) ∷ [];
          digest_ids = (digest, id) ∷ [];
          root_id = id;
          closed = false;
        }

    -- `__init__`
    unfoldable pub init :
        P.Image
        → Option String
        → ImageLimits
        → RunLimits F
        → Option P.Bytes
        → Option String
        → Result (AssetStore P F)
    unfolding owned_image canonical_png_bytes differs or_else install_root
    init root_image original_format image_limits run_limits canonical_png digest_sha256 =
        Result.◌>>=◌ (owned_image root_image image_limits) λ owned.
          Result.◌>>=◌ (canonical_png_bytes owned image_limits) λ encoded.
            let content = or_else canonical_png encoded in
            Result.◌>>◌ (reject (differs P.same_bytes canonical_png encoded) invalid_image) (
              Result.◌>>◌ (reject (differs str_eq digest_sha256 (P.digest content)) invalid_image) (
                ok (
                  install_root owned content (P.digest content) original_format image_limits
                    run_limits)))

    -- `from_loaded`
    unfoldable pub from_loaded : LoadedImage P → ImageLimits → RunLimits F → Result (AssetStore P F)
    unfolding owned_image install_root
    from_loaded loaded image_limits run_limits =
        Result.◌>>=◌ (owned_image loaded.image image_limits) λ owned.
          let digest = P.digest loaded.canonical_png in
          Result.◌>>◌ (require (str_eq digest loaded.digest_sha256) invalid_image) (
            ok (
              install_root owned loaded.canonical_png digest loaded.original_format image_limits
                run_limits))
