-- ===== src/Assets/Install.antt =====
-- What `_commit_prepared` of src/penampakan/image/assets.py leaves of the store's invariant.
use penampakan.Base.{
  ℕ, ◌+◌, ◌≤◌, ◌≡◌, sym, ◌∙◌, String, some, List, [], ◌∷◌, ◌++◌, length, length-append, All-append,
  All-map, arith, Option-cases, inl, inr,
}
use mathlib.Core.List.{append-nil}
use penampakan.Base.Floats.{Floats}
use penampakan.Base.Dict.{
  Dict, IsUnique, lookup, lookup-append, lookup-update, update-append, IsUnique-update,
}
use penampakan.Assets.{Imaging, AssetRecord, PendingAsset, AssetStore}
use penampakan.Assets.Plan.{Plan, new_digests, first_plan}
use penampakan.Assets.Commit.{install}
use penampakan.Assets.Planned.{lookup-digests_of, IsDerived, IsPlan}
use penampakan.Assets.Rounds.{AnswersInOrder, plan_all-IsPlan}
use penampakan.Assets.Valid.{HasLineage, IsValid, IsAccepted}

module _ {P : Imaging} {F : Floats} where
  first_plan-IsPlan :
      (s : AssetStore P F) (parent_id : String) (depth : ℕ)
      → IsValid s
      → IsPlan s.records s.digest_ids parent_id depth (first_plan s.records s.digest_ids)
  unfolding first_plan
  first_plan-IsPlan s parent_id depth v =
      let same = append-nil s.records in
      record {
        ids = λ id. rw same (lookup-digests_of id s.records);
        forth = λ d id h. lookup-digests_of id s.records ∙ v.forth d id h;
        back = λ d id h. v.back d id (sym (lookup-digests_of id s.records) ∙ h);
        unique = rw same v.unique;
        unique_digests = v.unique_digests;
        keeps = λ d id h. h;
        named = rw same v.named;
        derived = tt;
        answered = tt;
      }

  -- the plan of an accepted commit
  pub record IsPlanned (parent_id : String) (pending : List (PendingAsset P F)) (s : AssetStore P F)
      (q : Plan P F) (a : IsAccepted parent_id pending s q) : Type 0 where
    pub valid : IsPlan s.records s.digest_ids parent_id (a.parent.asset.derivation_depth + 1) q
    pub answers : AnswersInOrder parent_id q.results a.prepared
    pub growth : length q.new_records ≡ length (new_digests s.digest_ids a.prepared)

  pub IsAccepted-IsPlanned :
      (parent_id : String) (pending : List (PendingAsset P F)) (s : AssetStore P F) (q : Plan P F)
      (a : IsAccepted parent_id pending s q)
      → IsValid s
      → IsPlanned parent_id pending s q a
  unfolding first_plan
  IsAccepted-IsPlanned parent_id pending s q a v =
      let depth = a.parent.asset.derivation_depth + 1 in
      let start = first_plan s.records s.digest_ids in
      let (valid, (cs, all, answers), growth) =
        plan_all-IsPlan a.prepared start q (first_plan-IsPlan s parent_id depth v) a.planned in
      record { valid = valid; answers = rw all answers; growth = ground (arith, growth) }

  HasLineage-append :
      (deepest : ℕ) (d e : Dict (AssetRecord P F)) (x : String × AssetRecord P F)
      → HasLineage deepest d x
      → HasLineage deepest (d ++ e) x
  HasLineage-append deepest d e x (inl root) = inl root
  HasLineage-append deepest d e x (inr (parent, q, named, found, depth, within)) =
      inr (parent, q, named, ground (arith, lookup-append parent d e, found), depth, within)

  IsDerived-HasLineage :
      (deepest : ℕ) (records new : Dict (AssetRecord P F)) (parent_id : String)
      (parent : AssetRecord P F) (x : String × AssetRecord P F)
      → lookup parent_id records ≡ some parent
      → 1 + parent.asset.derivation_depth ≤ deepest
      → IsDerived parent_id (parent.asset.derivation_depth + 1) x
      → HasLineage deepest (records ++ new) x
  IsDerived-HasLineage deepest records new parent_id parent (id, r) present within (named, depth) =
      inr (
        parent_id,
        parent,
        named,
        ground (arith, lookup-append parent_id records new, present),
        omega (arith, depth),
        omega (arith, depth, within),
      )

  pub install-records :
      (q : Plan P F) (s : AssetStore P F)
      → IsUnique (s.records ++ q.new_records)
      → (install q s).records ≡ s.records ++ q.new_records
  unfolding install
  install-records q s u = update-append s.records q.new_records u

  lookup-install :
      (q : Plan P F) (s : AssetStore P F) (parent_id : String) (depth : ℕ) (d : String)
      → IsPlan s.records s.digest_ids parent_id depth q
      → lookup d (install q s).digest_ids ≡ lookup d q.planned_by_digest
  unfolding install
  lookup-install q s parent_id depth d w = elim (Option-cases (lookup d q.planned_by_digest)) [
    | inr (id, e) ↦
        ground (arith, lookup-update d s.digest_ids q.planned_by_digest w.unique_digests, e)
    | inl e ↦ elim (Option-cases (lookup d s.digest_ids)) [
      | inl e' ↦
          ground (arith, lookup-update d s.digest_ids q.planned_by_digest w.unique_digests, e, e')
      | inr (id, e') ↦ absurd (ground (arith, w.keeps d id e', e))
    ]
  ]

  lookup-length :
      (id : String) (d : Dict (AssetRecord P F)) (r : AssetRecord P F)
      → lookup id d ≡ some r
      → 1 ≤ length d
  unfolding lookup
  lookup-length id [] r h = absurd (ground arith)
  lookup-length id (x ∷ d) r h = omega arith

  pub install-IsValid :
      (parent_id : String) (pending : List (PendingAsset P F)) (s : AssetStore P F) (q : Plan P F)
      (a : IsAccepted parent_id pending s q)
      → IsValid s
      → IsPlanned parent_id pending s q a
      → IsValid (install q s)
  install-IsValid parent_id pending s q a v pl =
      let w = pl.valid in
      let depth = a.parent.asset.derivation_depth + 1 in
      let deepest = s.run_limits.max_derivation_depth in
      let records = install-records q s w.unique in
      record {
        unique = rw records w.unique;
        unique_digests =
            unfold install in (IsUnique-update s.digest_ids q.planned_by_digest v.unique_digests);
        named = rw records w.named;
        forth = λ d id h.
            rw records
              (sym (w.ids id) ∙ w.forth d id (sym (lookup-install q s parent_id depth d w) ∙ h));
        back = λ d id h.
            lookup-install q s parent_id depth d w ∙ w.back d id (w.ids id ∙ (rw records at (h)));
        lineage = rw records (
            unfold install in
            (All-append (HasLineage deepest (s.records ++ q.new_records)) s.records q.new_records
              (All-map (HasLineage deepest s.records)
                (HasLineage deepest (s.records ++ q.new_records)) s.records
                (HasLineage-append deepest s.records q.new_records) v.lineage)
              (All-map (IsDerived parent_id depth) (HasLineage deepest (s.records ++ q.new_records))
                q.new_records
                (λ x.
                  IsDerived-HasLineage deepest s.records q.new_records parent_id a.parent x
                    a.present a.depth)
                w.derived)));
        bounded = rw records (
            unfold install in
            (omega (
              arith,
              length-append s.records q.new_records,
              pl.growth,
              a.count,
              lookup-length parent_id s.records a.parent a.present,
            )));
        released = λ h. absurd (unfold install in (ground (arith, a.open_now)));
      }
