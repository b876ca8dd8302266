-- ===== src/Assets/Runs.antt =====
-- Sessions of calls on an `AssetStore` of src/penampakan/image/assets.py.
use penampakan.Base.{
  str_eq, ◌≡◌, refl, String, true, false, Option, List, [], ◌∷◌, arith, eq_iff, Bool-cases, inl,
  inr,
}
use penampakan.Base.Floats.{Floats}
use penampakan.Base.Errors.{invalid_image}
use penampakan.Base.Result.{ok, reject, >>=-eq-ok, ok-injective}
use penampakan.Base.Dict.{lookup}
use penampakan.Config.{RunLimits}
use penampakan.Assets.{
  Imaging, ImageLimits, PendingAsset, AssetStore, asset_id_of, differs, or_else, owned_image,
  canonical_png_bytes, install_root, init,
}
use penampakan.Assets.Commit.{commit, close}
use penampakan.Assets.Valid.{IsValid, commit_accepted, commit_outcome}
use penampakan.Assets.Install.{IsAccepted-IsPlanned, install-IsValid}

-- A call that may change the store.
pub data Op (P : Imaging) (F : Floats) : Type 0 where
  op_commit : String → List (PendingAsset P F) → Op P F
  op_close : Op P F

module _ {P : Imaging} {F : Floats} where
  unfoldable pub apply : Op P F → AssetStore P F → AssetStore P F
  apply (op_commit parent_id pending) s = (commit parent_id pending s).1
  apply op_close s = (close s).1

  unfoldable pub apply_all : List (Op P F) → AssetStore P F → AssetStore P F
  unfolding apply
  apply_all [] s = s
  apply_all (o ∷ ops) s = apply_all ops (apply o s)

  close_again : (s : AssetStore P F) → s.closed ≡ true → (close s).1 ≡ s
  unfolding close
  close_again s h = ground arith

  close_open :
      (s : AssetStore P F)
      → s.closed ≡ false
      → (close s).1 ≡ record s { records = []; digest_ids = []; closed = true }
  unfolding close
  close_open s h = ground arith

  close-IsValid : (s : AssetStore P F) → IsValid s → IsValid (close s).1
  close-IsValid s v = elim (Bool-cases s.closed) [
    | inl closed ↦ rw (close_again s closed) v
    | inr open_now ↦ rw (close_open s open_now) (record {
      unique = tt;
      unique_digests = tt;
      named = tt;
      forth = λ d id h. unfold lookup in absurd (ground arith);
      back = λ d id h. unfold lookup in absurd (ground arith);
      lineage = tt;
      bounded = omega arith;
      released = λ h. refl;
    })
  ]

  pub commit-IsValid :
      (parent_id : String) (pending : List (PendingAsset P F)) (s : AssetStore P F)
      → IsValid s
      → IsValid (commit parent_id pending s).1
  commit-IsValid parent_id pending s v = elim (commit_outcome parent_id pending s) [
    | inr (same, _) ↦ rw same v
    | inl (q, a) ↦
        rw (commit_accepted parent_id pending s q a) (
          install-IsValid parent_id pending s q a v
            (IsAccepted-IsPlanned parent_id pending s q a v))
  ]

  apply-IsValid : (o : Op P F) (s : AssetStore P F) → IsValid s → IsValid (apply o s)
  unfolding apply
  apply-IsValid (op_commit parent_id pending) s v = commit-IsValid parent_id pending s v
  apply-IsValid op_close s v = close-IsValid s v

  apply_all-keeps :
      (ops : List (Op P F)) (s : AssetStore P F) → IsValid s → IsValid (apply_all ops s)
  unfolding apply_all
  apply_all-keeps [] s v = v
  apply_all-keeps (o ∷ ops) s v = apply_all-keeps ops (apply o s) (apply-IsValid o s v)

  install_root-IsValid :
      (image : P.Image) (content : P.Bytes) (digest : String) (format : Option String)
      (limits : ImageLimits) (run_limits : RunLimits F)
      → IsValid (install_root P image content digest format limits run_limits)
  unfolding install_root
  install_root-IsValid image content digest format limits run_limits = record {
    unique = (unfold lookup in refl, tt);
    unique_digests = (unfold lookup in refl, tt);
    named = (refl, tt);
    forth = λ d id h.
        unfold lookup in (ground (arith, eq_iff digest d, eq_iff (asset_id_of 16 digest) id));
    back = λ d id h.
        unfold lookup in (ground (arith, eq_iff digest d, eq_iff (asset_id_of 16 digest) id));
    lineage = (inl (refl, refl), tt);
    bounded = omega arith;
    released = λ h. absurd (ground arith);
  }

  init-IsValid :
      (image : P.Image) (format : Option String) (limits : ImageLimits) (run_limits : RunLimits F)
      (png : Option P.Bytes) (digest : Option String) (s : AssetStore P F)
      → init P image format limits run_limits png digest ≡ ok s
      → IsValid s
  unfolding init
  init-IsValid image format limits run_limits png digest s h =
      let (owned, _, h1) = >>=-eq-ok (owned_image P image limits) _ h in
      let (encoded, _, h2) = >>=-eq-ok (canonical_png_bytes P owned limits) _ h1 in
      let content = or_else png encoded in
      let (_, _, h3) = >>=-eq-ok (reject (differs P.same_bytes png encoded) invalid_image) _ h2 in
      let (_, _, h4) =
        >>=-eq-ok (reject (differs str_eq digest (P.digest content)) invalid_image) _ h3 in
      let same = ok-injective h4 in rw (← same) (install_root-IsValid _ _ _ _ _ _)

  -- After any commits, accepted or refused, and closings of a store that was made from an image:
  -- every record stands once, under its own identifier; identifiers and digests are inverse to each
  -- other; each record is the root or one step deeper than the record that it derives from; there are
  -- at most as many derived records, and as deep, as the limits allow; a closed store has no record.
  pub asset_run-IsValid :
      (image : P.Image) (format : Option String) (limits : ImageLimits) (run_limits : RunLimits F)
      (png : Option P.Bytes) (digest : Option String) (s : AssetStore P F) (ops : List (Op P F))
      → init P image format limits run_limits png digest ≡ ok s
      → IsValid (apply_all ops s)
  asset_run-IsValid image format limits run_limits png digest s ops h =
      apply_all-keeps ops s (init-IsValid image format limits run_limits png digest s h)
