-- ===== src/Assets/Rounds.antt =====
-- The rounds of the loop of `_commit_prepared` in src/penampakan/image/assets.py.
use penampakan.Base.{
  ℕ, suc, ◌+◌, ◌≡◌, ◌∙◌, sym, ap, refl, String, true, false, none, some, List, [], ◌∷◌, ◌++◌,
  length, length-append, arith, Option-cases, inl, inr,
}
use mathlib.Core.List.{append-nil, append_assoc}
use penampakan.Base.Floats.{Floats}
use penampakan.Base.Result.{ok, >>=-eq-ok}
use penampakan.Base.Dict.{
  Dict, IsUnique, lookup, insert, lookup-append, lookup-disjoint, insert-Absent,
}
use penampakan.Assets.{Imaging, ImageAsset, AssetRecord, PreparedAsset, AssetCommit, allocate_id}
use penampakan.Assets.Plan.{
  Plan, new_digests, plan_new, plan_reuse, plan_one, plan_all, find_planned, derived_asset,
  asset_commit,
}
use penampakan.Assets.Count.{length-new_digests_new, new_digests_reuse}
use penampakan.Assets.Planned.{
  allocate_id-Absent, lookup-IsNamed, IsPlan, planned_record, plan_new-IsPlan, plan_reuse-IsPlan,
}

module _ {P : Imaging} {F : Floats} where
  find_planned_lem :
      (id : String) (d e : Dict (AssetRecord P F))
      → IsUnique (d ++ e)
      → find_planned id e d ≡ lookup id (d ++ e)
  unfolding find_planned
  find_planned_lem id d e u = elim (Option-cases (lookup id d)) [
    | inl absent ↦ ground (arith, lookup-append id d e, absent)
    | inr (r, there) ↦ ground (arith, lookup-append id d e, there, lookup-disjoint id d e r u there)
  ]

  -- an answer for the prepared image: a snapshot with its digest, and the image's own transform
  abbrev pub Answers : String → AssetCommit F → PreparedAsset P F → Type 0
  Answers parent_id c x =
      (c.asset.digest_sha256 ≡ x.digest_sha256)
      × (c.parent_id ≡ parent_id)
      × (c.transform ≡ x.pending.transform)

  -- an answer for each prepared image, in the images' order
  abbrev pub AnswersInOrder : String → List (AssetCommit F) → List (PreparedAsset P F) → Type 0
  AnswersInOrder parent_id [] [] = Unit
  AnswersInOrder parent_id (c ∷ cs) (x ∷ xs) =
      Answers parent_id c x × AnswersInOrder parent_id cs xs
  AnswersInOrder parent_id [] (x ∷ xs) = ⊥
  AnswersInOrder parent_id (c ∷ cs) [] = ⊥

  -- a round over `x`, with the rest `xs` to come, answers it and adds one record if it is new
  abbrev Grows :
      String → PreparedAsset P F → List (PreparedAsset P F) → Plan P F → Plan P F → Type 0
  Grows parent_id x xs p q =
      ((c : AssetCommit F) × (q.results ≡ p.results ++ c ∷ []) × Answers parent_id c x)
      × (length q.new_records + length (new_digests q.planned_by_digest xs)
          ≡ length p.new_records + length (new_digests p.planned_by_digest (x ∷ xs)))

  length-insert :
      (id : String) (r : AssetRecord P F) (d : Dict (AssetRecord P F))
      → lookup id d ≡ none
      → length (insert id r d) ≡ suc (length d)
  length-insert id r d h =
      rw (insert-Absent id r d h) (omega (arith, length-append d ((id, r) ∷ [])))

  plan_new-Grows :
      (parent_id : String) (depth : ℕ) (x : PreparedAsset P F) (xs : List (PreparedAsset P F))
      (id : String) (p : Plan P F)
      → lookup x.digest_sha256 p.planned_by_digest ≡ none
      → lookup id p.new_records ≡ none
      → Grows parent_id x xs p (plan_new parent_id depth x id p)
  unfolding plan_new asset_commit derived_asset
  plan_new-Grows parent_id depth x xs id p fresh free = (
    (asset_commit (derived_asset id parent_id depth x) parent_id x false, refl, (refl, refl, refl)),
    omega (
      arith,
      length-insert id _ p.new_records free,
      length-new_digests_new x id p.planned_by_digest xs fresh,
    ),
  )

  plan_reuse-Grows :
      (parent_id : String) (x : PreparedAsset P F) (xs : List (PreparedAsset P F)) (id : String)
      (asset : ImageAsset F) (p : Plan P F)
      → lookup x.digest_sha256 p.planned_by_digest ≡ some id
      → asset.digest_sha256 ≡ x.digest_sha256
      → Grows parent_id x xs p (plan_reuse parent_id x asset p)
  unfolding plan_reuse asset_commit
  plan_reuse-Grows parent_id x xs id asset p known digest = (
    (asset_commit asset parent_id x true, refl, (digest, refl, refl)),
    rw (new_digests_reuse x id p.planned_by_digest xs known) refl,
  )

  module _ {records : Dict (AssetRecord P F)} {digest_ids : Dict String} {parent_id : String}
      {depth : ℕ} where
    plan_one-IsPlan :
        (x : PreparedAsset P F) (xs : List (PreparedAsset P F)) (p q : Plan P F)
        → IsPlan records digest_ids parent_id depth p
        → plan_one records parent_id depth x p ≡ ok q
        → IsPlan records digest_ids parent_id depth q × Grows parent_id x xs p q
    unfolding plan_one find_planned
    plan_one-IsPlan x xs p q v h =
        elim (Option-cases (lookup x.digest_sha256 p.planned_by_digest)) [
          | inl fresh ↦
              let (id, allocated, done) =
                >>=-eq-ok (allocate_id x.digest_sha256 p.planned_ids)
                  (λ id. ok (plan_new parent_id depth x id p)) (rw (fresh, plan_one) at (h)) in
              let free : lookup id p.planned_ids ≡ none =
                allocate_id-Absent x.digest_sha256 p.planned_ids id
                  (λ j e. ground (arith, v.back x.digest_sha256 j e, fresh)) allocated in
              let e : plan_new parent_id depth x id p ≡ q = ground arith in
              rw (← e) (
                plan_new-IsPlan x id p v fresh free,
                plan_new-Grows parent_id depth x xs id p fresh
                    (ground (arith, v.ids id, lookup-append id records p.new_records)),
              )
          | inr (id, known) ↦
              let (r, found, digest) = planned_record p x.digest_sha256 id v known in
              let same = lookup-IsNamed id (records ++ p.new_records) r v.named found in
              let e : plan_reuse parent_id x r.asset p ≡ q =
                ground (arith, known, find_planned_lem id records p.new_records v.unique, found) in
              rw (← e) (
                plan_reuse-IsPlan x r p v (rw same found),
                plan_reuse-Grows parent_id x xs id r.asset p known digest,
              )
        ]

    -- the loop keeps the invariant, answers each image in order, and adds one record for each new
    -- digest
    pub plan_all-IsPlan :
        (xs : List (PreparedAsset P F)) (p q : Plan P F)
        → IsPlan records digest_ids parent_id depth p
        → plan_all records parent_id depth xs p ≡ ok q
        → IsPlan records digest_ids parent_id depth q
          × ((cs : List (AssetCommit F)) × (q.results ≡ p.results ++ cs)
              × AnswersInOrder parent_id cs xs)
          × (length q.new_records
              ≡ length p.new_records + length (new_digests p.planned_by_digest xs))
    unfolding plan_all new_digests
    plan_all-IsPlan [] p q v h =
        let e : p ≡ q = ground arith in
        rw (← e) (v, ([], sym (append-nil p.results), tt), omega arith)
    plan_all-IsPlan (x ∷ xs) p q v h =
        let (m, one, rest) = >>=-eq-ok (plan_one records parent_id depth x p) _ h in
        let (w, ((c, answered, answer), growth)) = plan_one-IsPlan x xs p m v one in
        let (u, (cs, more, answers), grown) = plan_all-IsPlan xs m q w rest in
        let all : q.results ≡ p.results ++ c ∷ cs =
          more ∙ ap (λ t. t ++ cs) answered ∙ append_assoc p.results (c ∷ []) cs in
        (u, (c ∷ cs, all, (answer, answers)), omega (arith, growth, grown))
