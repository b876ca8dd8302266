-- ===== src/Context/Remove.antt =====
-- `_materialize`: the removal of items, and the context that is returned.
use penampakan.Base.{
  ℕ, zero, suc, ◌≤◌, ◌<◌, ◌≡◌, refl, ◌∙◌, String, true, false, not, ◌&&◌, Option, some, List, [],
  ◌∷◌, map, length, leb, arith, ◌⊎◌, inl, inr, Bool-cases, str_eq, eq_iff,
}
use penampakan.Base.Floats.{Floats}
use penampakan.Base.Errors.{context_limit_exceeded}
use penampakan.Base.Result.{Result, ok, raised}
use penampakan.Base.Texts.{contains}
use penampakan.Models.{Observation}
use penampakan.Context.Lines.{Text, filter}
use penampakan.Context.Pieces.{Writer}
use penampakan.Context.Select.{SelectedLine, CompiledContext, id_of, before}
use penampakan.Context.Compile.{
  ids_of, omitted_from, context_of, is_removable, last_ranked, remove_item, materialize,
}
use penampakan.Context.Sorted.{contains-sort_by, contains-filter, contains-filter_name}

list_cases : {A : Type 0} (xs : List A) → (xs ≡ []) ⊎ ((y : A) × (ys : List A) × (xs ≡ y ∷ ys))
list_cases [] = inl refl
list_cases (y ∷ ys) = inr (y, ys, refl)

module _ {F : Floats} where
  last_ranked-contains :
      (x : SelectedLine F) (xs : List (SelectedLine F))
      → contains (id_of (last_ranked x xs)) (ids_of (x ∷ xs)) ≡ true
  unfolding last_ranked contains
  last_ranked-contains x [] = ground (arith, eq_iff (id_of x) (id_of x))
  last_ranked-contains x (y ∷ ys) = elim (Bool-cases (before x.ranked y.ranked)) [
    | inl e ↦ ground (arith, e, last_ranked-contains y ys)
    | inr e ↦ ground (arith, e, last_ranked-contains x ys)
  ]

  length-remove_item :
      (id : String) (xs : List (SelectedLine F))
      → contains id (ids_of xs) ≡ true
      → suc (length (remove_item id xs)) ≡ length xs
  unfolding remove_item contains
  length-remove_item id [] h = absurd (ground arith)
  length-remove_item id (x ∷ xs) h = elim (Bool-cases (str_eq (id_of x) id)) [
    | inl e ↦ ground (arith, e)
    | inr e ↦ ground (arith, e, length-remove_item id xs (ground (arith, e)))
  ]

  remove_item-subset :
      (id j : String) (xs : List (SelectedLine F))
      → contains j (ids_of (remove_item id xs)) ≡ true
      → contains j (ids_of xs) ≡ true
  unfolding remove_item contains
  remove_item-subset id j [] h = h
  remove_item-subset id j (x ∷ xs) h = elim (Bool-cases (str_eq (id_of x) id)) [
    | inl e ↦ ground (arith, e)
    | inr e ↦ ground (arith, e, remove_item-subset id j xs)
  ]

  remove_item-other :
      (id j : String) (xs : List (SelectedLine F))
      → str_eq id j ≡ false
      → contains j (ids_of xs) ≡ true
      → contains j (ids_of (remove_item id xs)) ≡ true
  unfolding remove_item contains
  remove_item-other id j [] d h = h
  remove_item-other id j (x ∷ xs) d h = elim (Bool-cases (str_eq (id_of x) id)) [
    | inl e ↦ ground (arith, e, eq_iff (id_of x) id, eq_iff id j, eq_iff (id_of x) j)
    | inr e ↦ ground (arith, e, remove_item-other id j xs d)
  ]

  -- the items that may be removed are not the mandatory one
  removable_other :
      (id j : String) (xs : List (SelectedLine F))
      → contains j (ids_of (filter (is_removable (some id)) xs)) ≡ true
      → str_eq j id ≡ false
  unfolding filter is_removable contains
  removable_other id j [] h = absurd (ground arith)
  removable_other id j (x ∷ xs) h = elim (Bool-cases (str_eq (id_of x) id)) [
    | inl e ↦ removable_other id j xs (ground (arith, e))
    | inr e ↦ elim (Bool-cases (str_eq (id_of x) j)) [
      | inl same ↦ ground (arith, e, eq_iff (id_of x) j, eq_iff (id_of x) id, eq_iff j id)
      | inr other ↦ removable_other id j xs (ground (arith, e, other))
    ]
  ]

  -- the item that the loop removes, in place of the tail that may be removed
  removed-contains :
      (m : Option String) (selected : List (SelectedLine F)) (x : SelectedLine F)
      (xs : List (SelectedLine F))
      → filter (is_removable m) selected ≡ x ∷ xs
      → (contains (id_of (last_ranked x xs)) (ids_of (filter (is_removable m) selected)) ≡ true)
        × (contains (id_of (last_ranked x xs)) (ids_of selected) ≡ true)
  removed-contains m selected x xs e =
      let there : contains (id_of (last_ranked x xs)) (ids_of (filter (is_removable m) selected))
          ≡ true =
        rw e (last_ranked-contains x xs) in
      (there, contains-filter (is_removable m) id_of (id_of (last_ranked x xs)) selected there)

  -- The loop of `_materialize` ends: one more round than there are selected items is enough.
  pub materialize_total :
      (fuel : ℕ) (w : Writer F) (maximum : ℕ) (question : Text) (os : List (Observation F))
      (m : Option String) (selected : List (SelectedLine F))
      → length selected < fuel
      → (r : Result CompiledContext) × (materialize fuel w maximum question os m selected ≡ some r)
  unfolding materialize
  materialize_total zero w maximum question os m selected h = absurd (omega arith)
  materialize_total (suc fuel) w maximum question os m selected h =
      elim (Bool-cases (leb (length (context_of w question os selected).text) maximum)) [
        | inl fits ↦ (ok (context_of w question os selected), rw fits)
        | inr long ↦ elim (list_cases (filter (is_removable m) selected)) [
          | inl stuck ↦ (raised context_limit_exceeded, rw (long, stuck))
          | inr (x, xs, e) ↦
              let there = (removed-contains m selected x xs e).1 in
              let (r, found) =
                materialize_total fuel w maximum question os m
                  (remove_item (id_of (last_ranked x xs)) selected)
                  (omega (arith, length-remove_item (id_of (last_ranked x xs)) selected there)) in
              (r, rw (long, e) found)
        ]
      ]

  -- What holds of a context that is returned for a selection.
  pub record IsContextOf (maximum : ℕ) (os : List (Observation F)) (m : Option String)
      (selected : List (SelectedLine F)) (c : CompiledContext) : Type 0 where
    pub bounded : length c.text ≤ maximum
    pub split :
        (id : String)
        → contains id (map (λ (o : Observation F). o.id) os) ≡ true
        → contains id c.omitted_observation_ids ≡ not (contains id c.visible_observation_ids)
    pub chosen :
        (id : String)
        → contains id c.visible_observation_ids ≡ true
        → contains id (ids_of selected) ≡ true
    pub mandatory :
        (id : String)
        → m ≡ some id
        → contains id (ids_of selected) ≡ true
        → contains id c.visible_observation_ids ≡ true

  context_of-split :
      (w : Writer F) (question : Text) (os : List (Observation F))
      (selected : List (SelectedLine F)) (id : String)
      → contains id (context_of w question os selected).omitted_observation_ids ≡ (
          not (contains id (ids_of selected)) && contains id (map (λ (o : Observation F). o.id) os))
  unfolding context_of omitted_from
  context_of-split w question os selected id =
      contains-sort_by _ (λ (o : Observation F). o.id) id
        (filter (λ (o : Observation F). not (contains o.id (ids_of selected))) os)
      ∙ contains-filter_name (λ j. not (contains j (ids_of selected))) (λ (o : Observation F). o.id)
          id os

  context_of-visible :
      (w : Writer F) (question : Text) (os : List (Observation F))
      (selected : List (SelectedLine F))
      → (context_of w question os selected).visible_observation_ids ≡ ids_of selected
  unfolding context_of
  context_of-visible w question os selected = refl

  context_of-IsContextOf :
      (w : Writer F) (maximum : ℕ) (question : Text) (os : List (Observation F)) (m : Option String)
      (selected : List (SelectedLine F))
      → length (context_of w question os selected).text ≤ maximum
      → IsContextOf maximum os m selected (context_of w question os selected)
  context_of-IsContextOf w maximum question os m selected h = record {
    bounded = h;
    split = λ id there.
        rw (context_of-visible w question os selected)
          (ground (arith, context_of-split w question os selected id, there));
    chosen = λ id there. rw (context_of-visible w question os selected) at there;
    mandatory = λ id e there. rw (context_of-visible w question os selected) there;
  }

  -- A context that `_materialize` returns is within the limit. Each observation is visible or
  -- omitted, and not both; what is visible was selected; and the mandatory one stays.
  pub materialize-IsContextOf :
      (fuel : ℕ) (w : Writer F) (maximum : ℕ) (question : Text) (os : List (Observation F))
      (m : Option String) (selected : List (SelectedLine F)) (c : CompiledContext)
      → materialize fuel w maximum question os m selected ≡ some (ok c)
      → IsContextOf maximum os m selected c
  unfolding materialize
  materialize-IsContextOf zero w maximum question os m selected c h = absurd (ground arith)
  materialize-IsContextOf (suc fuel) w maximum question os m selected c h =
      elim (Bool-cases (leb (length (context_of w question os selected).text) maximum)) [
        | inl fits ↦
            let same : context_of w question os selected ≡ c = ground (arith, fits) in
            rw (← same)
              (context_of-IsContextOf w maximum question os m selected (ground (arith, fits)))
        | inr long ↦ elim (list_cases (filter (is_removable m) selected)) [
          | inl stuck ↦ absurd (ground (arith, long, stuck))
          | inr (x, xs, e) ↦
              let id : String = id_of (last_ranked x xs) in
              let (removable, there) = removed-contains m selected x xs e in
              let v =
                materialize-IsContextOf fuel w maximum question os m (remove_item id selected) c
                  (rw (long, e) at h) in
              record {
                bounded = v.bounded;
                split = v.split;
                chosen = λ j visible. remove_item-subset id j selected (v.chosen j visible);
                mandatory = λ j same selected_j. v.mandatory j same (
                    remove_item-other id j selected
                      (removable_other j id selected (rw same at removable)) selected_j);
              }
        ]
      ]
