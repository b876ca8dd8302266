-- ===== src/Assets/Count.antt =====
-- How many records a plan of src/penampakan/image/assets.py adds.
use penampakan.Base.{
  ℕ, ◌+◌, ◌≡◌, refl, String, Bool, true, false, ◌&&◌, ◌||◌, not, Option, none, some, List, [], ◌∷◌,
  length, str_eq, arith, eq_iff,
}
use penampakan.Base.Floats.{Floats}
use penampakan.Base.Dict.{Dict, lookup, insert, lookup-insert}
use penampakan.Base.Texts.{contains}
use penampakan.Assets.{Imaging, PreparedAsset}
use penampakan.Assets.Plan.{new_digests}

abbrev one_if : Bool → ℕ
one_if true = 1
one_if false = 0

abbrev is_none : Option String → Bool
is_none none = true
is_none (some s) = false

module _ {P : Imaging} {F : Floats} where
  occurs : String → List (PreparedAsset P F) → Bool
  occurs j [] = false
  occurs j (x ∷ xs) = str_eq x.digest_sha256 j || occurs j xs

  -- the new digests are the prepared ones that have no identifier
  contains-new_digests :
      (j : String) (by_digest : Dict String) (xs : List (PreparedAsset P F))
      → contains j (new_digests by_digest xs) ≡ (is_none (lookup j by_digest) && occurs j xs)
  unfolding new_digests contains occurs
  contains-new_digests j by_digest [] = ground arith
  contains-new_digests j by_digest (x ∷ xs) =
      ground (arith, contains-new_digests j by_digest xs, eq_iff x.digest_sha256 j)

  -- a digest that is entered is no longer new
  contains-new_digests-insert :
      (d j id : String) (by_digest : Dict String) (xs : List (PreparedAsset P F))
      → contains j (new_digests (insert d id by_digest) xs)
        ≡ (not (str_eq d j) && contains j (new_digests by_digest xs))
  contains-new_digests-insert d j id by_digest xs = ground (
    arith,
    contains-new_digests j by_digest xs,
    contains-new_digests j (insert d id by_digest) xs,
    lookup-insert d j id by_digest,
  )

  length-new_digests-insert :
      (d id : String) (by_digest : Dict String) (xs : List (PreparedAsset P F))
      → one_if (contains d (new_digests by_digest xs))
          + length (new_digests (insert d id by_digest) xs)
        ≡ length (new_digests by_digest xs)
  unfolding new_digests contains
  length-new_digests-insert d id by_digest [] = refl
  length-new_digests-insert d id by_digest (x ∷ xs) = ground (
    arith,
    length-new_digests-insert d id by_digest xs,
    contains-new_digests-insert d x.digest_sha256 id by_digest xs,
    lookup-insert d x.digest_sha256 id by_digest,
    eq_iff d x.digest_sha256,
    eq_iff x.digest_sha256 d,
  )

  pub length-new_digests_new :
      (x : PreparedAsset P F) (id : String) (by_digest : Dict String)
      (xs : List (PreparedAsset P F))
      → lookup x.digest_sha256 by_digest ≡ none
      → length (new_digests by_digest (x ∷ xs))
        ≡ 1 + length (new_digests (insert x.digest_sha256 id by_digest) xs)
  unfolding new_digests
  length-new_digests_new x id by_digest xs h =
      ground (arith, h, length-new_digests-insert x.digest_sha256 id by_digest xs)

  pub new_digests_reuse :
      (x : PreparedAsset P F) (id : String) (by_digest : Dict String)
      (xs : List (PreparedAsset P F))
      → lookup x.digest_sha256 by_digest ≡ some id
      → new_digests by_digest (x ∷ xs) ≡ new_digests by_digest xs
  unfolding new_digests
  new_digests_reuse x id by_digest xs h = ground (arith, h)
