-- ===== src/Assets/Planned.antt =====
-- What the loop of `_commit_prepared` in src/penampakan/image/assets.py keeps true.
use penampakan.Base.{
  ℕ, zero, suc, ◌≡◌, ◌≢◌, refl, sym, ◌∙◌, ap, String, true, false, Option, none, some, [], ◌∷◌,
  ◌++◌, All, All-append, All-map, str_eq, if◌then◌else◌, arith, eq_iff, Option-cases, inl, inr,
}
use mathlib.Core.List.{append_assoc}
use penampakan.Base.Floats.{Floats}
use penampakan.Base.Result.{ok}
use penampakan.Base.Dict.{
  Dict, IsUnique, IsUnique-append_one, lookup, insert, lookup-insert, lookup-append, insert-Absent,
}
use penampakan.Assets.{
  Imaging, AssetRecord, PreparedAsset, AssetCommit, allocate_from, allocate_id, asset_id_of,
}
use penampakan.Assets.Plan.{Plan, plan_new, plan_reuse, digests_of, derived_asset, asset_commit}

allocate_from-Absent :
    (digest : String) (assigned : Dict String) (count n : ℕ) (id : String)
    → ((j : String) → lookup j assigned ≢ some digest)
    → allocate_from digest assigned count n ≡ ok id
    → lookup id assigned ≡ none
unfolding allocate_from
allocate_from-Absent digest assigned zero n id fresh h = absurd (ground arith)
allocate_from-Absent digest assigned (suc count) n id fresh h =
    elim (Option-cases (lookup (asset_id_of n digest) assigned)) [
      | inl e ↦ ground (arith, e)
      | inr (d, e) ↦
          allocate_from-Absent digest assigned count (suc n) id fresh
            (ground (arith, e, fresh (asset_id_of n digest), eq_iff d digest))
    ]

pub allocate_id-Absent :
    (digest : String) (assigned : Dict String) (id : String)
    → ((j : String) → lookup j assigned ≢ some digest)
    → allocate_id digest assigned ≡ ok id
    → lookup id assigned ≡ none
unfolding allocate_id
allocate_id-Absent digest assigned id fresh h =
    allocate_from-Absent digest assigned 49 16 id fresh h

module _ {P : Imaging} {F : Floats} where
  -- the digest of a record that may be there
  abbrev pub digest_at : Option (AssetRecord P F) → Option String
  digest_at none = none
  digest_at (some r) = some r.asset.digest_sha256

  pub lookup-digests_of :
      (id : String) (d : Dict (AssetRecord P F))
      → lookup id (digests_of d) ≡ digest_at (lookup id d)
  unfolding lookup digests_of
  lookup-digests_of id [] = refl
  lookup-digests_of id ((k, r) ∷ d) = ground (arith, lookup-digests_of id d)

  -- a record stands under its own identifier
  abbrev pub IsNamed : String × AssetRecord P F → Type 0
  IsNamed (id, r) = r.asset.id ≡ id

  pub lookup-IsNamed :
      (id : String) (d : Dict (AssetRecord P F)) (r : AssetRecord P F)
      → All IsNamed d
      → lookup id d ≡ some r
      → r.asset.id ≡ id
  unfolding lookup
  lookup-IsNamed id [] r named h = absurd (ground arith)
  lookup-IsNamed id ((k, q) ∷ d) r named h =
      ground (arith, lookup-IsNamed id d r named.1, eq_iff k id, named.0)

  -- a snapshot that a call answers is the one of a record
  abbrev pub IsFiled : Dict (AssetRecord P F) → AssetCommit F → Type 0
  IsFiled d c = (r : AssetRecord P F) × (lookup c.asset.id d ≡ some r) × (r.asset ≡ c.asset)

  -- a record made from the parent at this depth
  abbrev pub IsDerived : String → ℕ → String × AssetRecord P F → Type 0
  IsDerived parent_id depth (id, r) =
      (r.asset.parent_id ≡ some parent_id) × (r.asset.derivation_depth ≡ depth)

  -- The planned identifiers are those of the records, old and new; the two indices are inverse to
  -- each other; and each answer is the snapshot of a record.
  pub record IsPlan (records : Dict (AssetRecord P F)) (digest_ids : Dict String)
      (parent_id : String) (depth : ℕ) (p : Plan P F) : Type 0 where
    pub ids :
        (id : String) → lookup id p.planned_ids ≡ digest_at (lookup id (records ++ p.new_records))
    pub forth :
        (d id : String) → lookup d p.planned_by_digest ≡ some id → lookup id p.planned_ids ≡ some d
    pub back :
        (d id : String) → lookup id p.planned_ids ≡ some d → lookup d p.planned_by_digest ≡ some id
    pub unique : IsUnique (records ++ p.new_records)
    pub unique_digests : IsUnique p.planned_by_digest
    pub keeps :
        (d id : String) → lookup d digest_ids ≡ some id → lookup d p.planned_by_digest ≡ some id
    pub named : All IsNamed (records ++ p.new_records)
    pub derived : All (IsDerived parent_id depth) p.new_records
    pub answered : All (IsFiled (records ++ p.new_records)) p.results

  lookup_one :
      (j id : String) (r : AssetRecord P F) (d : Dict (AssetRecord P F))
      → lookup j (d ++ (id, r) ∷ [])
        ≡ elim (lookup j d) [ none ↦ if str_eq id j then some r else none | some q ↦ some q ]
  unfolding lookup
  lookup_one j id r d = ground (arith, lookup-append j d ((id, r) ∷ []))

  IsFiled-append :
      (d e : Dict (AssetRecord P F)) (c : AssetCommit F) → IsFiled d c → IsFiled (d ++ e) c
  IsFiled-append d e c (r, found, same) = (r, ground (arith, lookup-append c.asset.id d e), same)

  digest_at-none : (o : Option (AssetRecord P F)) → digest_at o ≡ none → o ≡ none
  digest_at-none none h = refl
  digest_at-none (some r) h = absurd (ground arith)

  module _ {records : Dict (AssetRecord P F)} {digest_ids : Dict String} {parent_id : String}
      {depth : ℕ} where
    -- what a planned digest stands for
    pub planned_record :
        (p : Plan P F) (d id : String)
        → IsPlan records digest_ids parent_id depth p
        → lookup d p.planned_by_digest ≡ some id
        → (r : AssetRecord P F) × (lookup id (records ++ p.new_records) ≡ some r)
          × (r.asset.digest_sha256 ≡ d)
    planned_record p d id v h = elim (Option-cases (lookup id (records ++ p.new_records))) [
      | inl e ↦ absurd (ground (arith, v.ids id, v.forth d id h, e))
      | inr (r, e) ↦ (r, e, ground (arith, v.ids id, v.forth d id h, e))
    ]

    pub plan_new-IsPlan :
        (x : PreparedAsset P F) (id : String) (p : Plan P F)
        → IsPlan records digest_ids parent_id depth p
        → lookup x.digest_sha256 p.planned_by_digest ≡ none
        → lookup id p.planned_ids ≡ none
        → IsPlan records digest_ids parent_id depth (plan_new parent_id depth x id p)
    unfolding plan_new derived_asset asset_commit
    plan_new-IsPlan x id p v fresh free =
        let asset = derived_asset id parent_id depth x in
        let r : AssetRecord P F = record {
          asset = asset;
          image = x.image;
          canonical_png = x.canonical_png;
        } in
        let absent : lookup id (records ++ p.new_records) ≡ none =
          digest_at-none (lookup id (records ++ p.new_records)) (sym (v.ids id) ∙ free) in
        let absent_new : lookup id p.new_records ≡ none =
          ground (arith, lookup-append id records p.new_records, absent) in
        let grown : records ++ insert id r p.new_records
            ≡ (records ++ p.new_records) ++ (id, r) ∷ [] =
          ap (λ t. records ++ t) (insert-Absent id r p.new_records absent_new)
          ∙ sym (append_assoc records p.new_records ((id, r) ∷ [])) in
        record {
          ids = λ j. rw grown (
              ground (
                arith,
                lookup-insert id j x.digest_sha256 p.planned_ids,
                lookup_one j id r (records ++ p.new_records),
                v.ids j,
                absent,
                eq_iff id j,
              ));
          forth = λ d j h. ground (
            arith,
            lookup-insert id j x.digest_sha256 p.planned_ids,
            lookup-insert x.digest_sha256 d id p.planned_by_digest,
            v.forth d j,
            free,
            eq_iff id j,
            eq_iff x.digest_sha256 d,
          );
          back = λ d j h. ground (
            arith,
            lookup-insert id j x.digest_sha256 p.planned_ids,
            lookup-insert x.digest_sha256 d id p.planned_by_digest,
            v.back d j,
            fresh,
            eq_iff id j,
            eq_iff x.digest_sha256 d,
          );
          unique = rw grown (IsUnique-append_one id r (records ++ p.new_records) v.unique absent);
          unique_digests =
              rw (insert-Absent x.digest_sha256 id p.planned_by_digest fresh)
                (IsUnique-append_one x.digest_sha256 id p.planned_by_digest v.unique_digests fresh);
          keeps = λ d j h. ground (
            arith,
            lookup-insert x.digest_sha256 d id p.planned_by_digest,
            v.keeps d j,
            fresh,
            eq_iff x.digest_sha256 d,
          );
          named =
              rw grown
                (All-append IsNamed (records ++ p.new_records) ((id, r) ∷ []) v.named (refl, tt));
          derived = rw (insert-Absent id r p.new_records absent_new) (
              All-append (IsDerived parent_id depth) p.new_records ((id, r) ∷ []) v.derived
                ((refl, refl), tt));
          answered = rw grown (
              All-append (IsFiled ((records ++ p.new_records) ++ (id, r) ∷ [])) p.results
                (asset_commit asset parent_id x false ∷ [])
                (All-map (IsFiled (records ++ p.new_records))
                  (IsFiled ((records ++ p.new_records) ++ (id, r) ∷ [])) p.results
                  (IsFiled-append (records ++ p.new_records) ((id, r) ∷ [])) v.answered)
                (
                  (
                    r,
                    ground (
                      arith,
                      lookup_one id id r (records ++ p.new_records),
                      absent,
                      eq_iff id id,
                    ),
                    refl,
                  ),
                  tt,
                ));
        }

    pub plan_reuse-IsPlan :
        (x : PreparedAsset P F) (r : AssetRecord P F) (p : Plan P F)
        → IsPlan records digest_ids parent_id depth p
        → lookup r.asset.id (records ++ p.new_records) ≡ some r
        → IsPlan records digest_ids parent_id depth (plan_reuse parent_id x r.asset p)
    unfolding plan_reuse asset_commit
    plan_reuse-IsPlan x r p v found = record {
      ids = v.ids;
      forth = v.forth;
      back = v.back;
      unique = v.unique;
      unique_digests = v.unique_digests;
      keeps = v.keeps;
      named = v.named;
      derived = v.derived;
      answered =
          All-append (IsFiled (records ++ p.new_records)) p.results
            (asset_commit r.asset parent_id x true ∷ []) v.answered ((r, found, refl), tt);
    }
