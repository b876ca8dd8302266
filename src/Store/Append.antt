-- ===== src/Store/Append.antt =====
-- Appending a batch: the entries, the index and the numbers.
use penampakan.Base.{
  ℕ, suc, ◌+◌, ◌<◌, String, ◌≡◌, ◌≢◌, refl, ap, Option, none, some, List, [], ◌∷◌, ◌++◌, length,
  arith, eq_iff, str_eq, if◌then◌else◌, All, All-map, Bool-cases, Option-cases, inl, inr,
}
use mathlib.Core.List.{append-nil, append_assoc}
use penampakan.Base.Floats.{Floats}
use penampakan.Base.Result.{ok, >>=-eq-ok}
use penampakan.Base.Dict.{Dict, lookup, insert, lookup-insert}
use penampakan.Models.{Observation, ObservationDraft, Provenance}
use penampakan.Models.Ids.{observation_id, observation_id-injective}
use penampakan.Store.{ObservationRelations, build_observation, build_all, index_all}

module _ {F : Floats} where
  -- The observations are numbered from `n` on, with no gap.
  abbrev pub IsNumbered : ℕ → List (Observation F) → Type 0
  IsNumbered n [] = Unit
  IsNumbered n (o ∷ os) = (o.id ≡ observation_id n) × IsNumbered (n + 1) os

  pub IsNumbered-append :
      (n m : ℕ) (xs ys : List (Observation F))
      → m ≡ n + length xs
      → IsNumbered n xs
      → IsNumbered m ys
      → IsNumbered n (xs ++ ys)
  IsNumbered-append n m [] ys e hx hy = let p : m ≡ n = omega arith in rw (← p) hy
  IsNumbered-append n m (x ∷ xs) ys e hx hy =
      (hx.0, IsNumbered-append (n + 1) m xs ys (omega arith) hx.1 hy)

  build_observation-id :
      (n : ℕ) (asset_id : String) (d : ObservationDraft F) (p : Provenance)
      (r : ObservationRelations) (o : Observation F)
      → build_observation n asset_id d p r ≡ ok o
      → o.id ≡ observation_id n
  unfolding build_observation
  build_observation-id n asset_id d p r o h = ground arith

  -- what is built is numbered, one observation for each draft
  pub build_all-IsNumbered :
      (n : ℕ) (asset_id : String) (p : Provenance) (ds : List (ObservationDraft F))
      (rs : List ObservationRelations) (os : List (Observation F))
      → build_all n asset_id p ds rs ≡ ok os
      → IsNumbered n os × (length os ≡ length ds)
  unfolding build_all
  build_all-IsNumbered n asset_id p [] rs [] h = (tt, refl)
  build_all-IsNumbered n asset_id p [] rs (o ∷ os) h = absurd (ground arith)
  build_all-IsNumbered n asset_id p (d ∷ ds) [] os h = absurd (ground arith)
  build_all-IsNumbered n asset_id p (d ∷ ds) (r ∷ rs) os h =
      let (o, built, rest) = >>=-eq-ok (build_observation n asset_id d p r) _ h in
      let (os', more, done) = >>=-eq-ok (build_all (n + 1) asset_id p ds rs) _ rest in
      let (numbered, long) = build_all-IsNumbered (n + 1) asset_id p ds rs os' more in
      let e : o ∷ os' ≡ os = ground arith in
      rw (← e) ((build_observation-id n asset_id d p r o built, numbered), ap suc long)

  -- what a dictionary of the observations by identifier finds
  unfoldable pub find_id : String → List (Observation F) → Option (Observation F)
  find_id id [] = none
  find_id id (o ∷ os) = let rest = find_id id os in if str_eq o.id id then some o else rest

  -- an identifier below the numbers of a list is not in it
  pub find_id-below :
      (m n : ℕ) (os : List (Observation F))
      → IsNumbered n os
      → m < n
      → find_id (observation_id m) os ≡ none
  unfolding find_id
  find_id-below m n [] h lt = refl
  find_id-below m n (o ∷ os) h lt =
      let apart : observation_id n ≢ observation_id m =
        (λ e. absurd (omega (arith, observation_id-injective n m e))) in
      ground (
        arith,
        find_id-below m (n + 1) os h.1 (omega arith),
        eq_iff o.id (observation_id m),
        h.0,
        apart,
      )

  -- an identifier that is found is that of one of the numbers of the list
  pub find_id-number :
      (id : String) (n : ℕ) (os : List (Observation F)) (o : Observation F)
      → IsNumbered n os
      → find_id id os ≡ some o
      → (m : ℕ) × (id ≡ observation_id m) × (m < n + length os)
  unfolding find_id
  find_id-number id n [] o h f = absurd (ground arith)
  find_id-number id n (x ∷ os) o h f = elim (Bool-cases (str_eq x.id id)) [
    | inl e ↦ (n, ground (arith, eq_iff x.id id, h.0), omega arith)
    | inr e ↦
        let (m, same, lt) = find_id-number id (n + 1) os o h.1 (ground arith) in
        (m, same, omega arith)
  ]

  pub find_id-append :
      (id : String) (xs ys : List (Observation F))
      → find_id id (xs ++ ys) ≡ elim (find_id id xs) [ none ↦ find_id id ys | some o ↦ some o ]
  unfolding find_id
  find_id-append id [] ys = refl
  find_id-append id (x ∷ xs) ys = ground (arith, find_id-append id xs ys)

  -- the index after a numbered batch: the batch first, then what was there
  pub lookup-index_all :
      (id : String) (n : ℕ) (os : List (Observation F)) (d : Dict (Observation F))
      → IsNumbered n os
      → lookup id (index_all d os) ≡ elim (find_id id os) [ none ↦ lookup id d | some o ↦ some o ]
  unfolding index_all find_id
  lookup-index_all id n [] d h = refl
  lookup-index_all id n (o ∷ os) d h = ground (
    arith,
    lookup-index_all id (n + 1) os (insert o.id o d) h.1,
    lookup-insert o.id id o d,
    find_id-below n (n + 1) os h.1 (omega arith),
    h.0,
    eq_iff o.id id,
  )

  -- The index finds exactly the observations of the list.
  abbrev pub IsIndexed : Dict (Observation F) → List (Observation F) → Type 0
  IsIndexed by_id os = (id : String) → lookup id by_id ≡ find_id id os

  -- no identifier is both in a list and in a batch that is numbered after it
  find_id_order :
      (id : String) (n : ℕ) (xs os : List (Observation F))
      → IsNumbered 1 xs
      → n ≡ 1 + length xs
      → IsNumbered n os
      → elim (find_id id os) [ none ↦ find_id id xs | some x ↦ some x ]
        ≡ elim (find_id id xs) [ none ↦ find_id id os | some x ↦ some x ]
  find_id_order id n xs os numbered e more = elim (Option-cases (find_id id xs)) [
    | inl absent ↦ ground (arith, absent)
    | inr (o, found) ↦
        let (m, same, lt) = find_id-number id 1 xs o numbered found in
        ground (arith, found, same, find_id-below m n os more (omega arith))
  ]

  pub IsIndexed-index_all :
      (n : ℕ) (by_id : Dict (Observation F)) (xs os : List (Observation F))
      → IsNumbered 1 xs
      → n ≡ 1 + length xs
      → IsNumbered n os
      → IsIndexed by_id xs
      → IsIndexed (index_all by_id os) (xs ++ os)
  IsIndexed-index_all n by_id xs os numbered e more indexed id = ground (
    arith,
    lookup-index_all id n os by_id more,
    indexed id,
    find_id-append id xs os,
    find_id_order id n xs os numbered e more,
  )

  -- The identifier is that of an observation of the list.
  abbrev pub IsIn : List (Observation F) → String → Type 0
  IsIn os id = find_id id os ≢ none

  -- Every parent of the observation, and every observation that it supersedes or contradicts, is in
  -- the list.
  abbrev pub RefersTo : List (Observation F) → Observation F → Type 0
  RefersTo os o =
      All (IsIn os) o.provenance.parent_observation_ids
      × All (IsIn os) o.supersedes
      × All (IsIn os) o.contradicts

  -- Each observation refers to earlier ones alone: those `before`, and those before it in the list.
  abbrev pub RefersBack : List (Observation F) → List (Observation F) → Type 0
  RefersBack before [] = Unit
  RefersBack before (o ∷ os) = RefersTo before o × RefersBack (before ++ o ∷ []) os

  IsIn-append : (xs ys : List (Observation F)) (id : String) → IsIn xs id → IsIn (xs ++ ys) id
  IsIn-append xs ys id h e = h (ground (arith, find_id-append id xs ys))

  RefersTo-append :
      (xs ys : List (Observation F)) (o : Observation F) → RefersTo xs o → RefersTo (xs ++ ys) o
  RefersTo-append xs ys o h =
      let widen = All-map (IsIn xs) (IsIn (xs ++ ys)) in
      (
        widen o.provenance.parent_observation_ids (IsIn-append xs ys) h.0,
        widen o.supersedes (IsIn-append xs ys) h.1,
        widen o.contradicts (IsIn-append xs ys) h.2,
      )

  pub RefersBack-append :
      (before xs ys : List (Observation F))
      → RefersBack before xs
      → RefersBack (before ++ xs) ys
      → RefersBack before (xs ++ ys)
  RefersBack-append before [] ys h k = rw append-nil at k
  RefersBack-append before (o ∷ xs) ys h k =
      (h.0, RefersBack-append (before ++ o ∷ []) xs ys h.1 (rw append_assoc k))

  -- a batch that refers to what is before it
  pub RefersBack-batch :
      (before os : List (Observation F)) → All (RefersTo before) os → RefersBack before os
  RefersBack-batch before [] h = tt
  RefersBack-batch before (o ∷ os) h = (
    h.0,
    RefersBack-batch (before ++ o ∷ []) os (
        All-map (RefersTo before) (RefersTo (before ++ o ∷ [])) os (RefersTo-append before (o ∷ []))
          h.1),
  )
