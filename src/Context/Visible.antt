-- ===== src/Context/Visible.antt =====
-- `ContextCompiler.compile` as a whole: its termination, and the contexts that it returns.
use penampakan.Base.{
  ◌++◌, [], sym, ap, ℕ, suc, ◌≤◌, ◌≡◌, refl, ◌∙◌, String, true, not, ◌||◌, any, Option, some, List,
  map, length, leb, ◌==◌, arith, inl, inr, Bool-cases,
}
use penampakan.Base.Floats.{Floats}
use penampakan.Base.Errors.{value_error}
use penampakan.Base.Result.{Result, ok, raised, Result-cases}
use penampakan.Base.Texts.{contains, all_distinct}
use penampakan.Models.{Observation}
use penampakan.Context.Lines.{Text, filter, render_context}
use penampakan.Context.Pieces.{Writer, omission_record}
use penampakan.Context.Select.{
  RankedObservation, SelectedLine, CompiledContext, Focus, rank_observations,
  mandatory_root_metadata, select_lines,
}
use penampakan.Context.Compile.{
  omitted_from, context_of, materialize, mandatory_id_of, select_and_materialize, compile_question,
  compile, is_blank, is_eligible, observation_by_id, conflict_and_warning_ids,
}
use penampakan.Context.Space.{
  lines_of, length-render_context, select_lines-fits, select_lines-mandatory,
}
use penampakan.Context.Remove.{materialize_total, materialize-IsContextOf}
use penampakan.Context.Closure.{eligible_assets_total}

module _ {F : Floats} where
  select_and_materialize_total :
      (w : Writer F) (maximum : ℕ) (question : Text) (os : List (Observation F))
      (ranked : List (RankedObservation F)) (m : Option (RankedObservation F))
      → (r : Result CompiledContext) × (select_and_materialize w maximum question os ranked m
          ≡ some r)
  unfolding select_and_materialize
  select_and_materialize_total w maximum question os ranked m =
      elim (Result-cases (select_lines w maximum question ranked m)) [
        | inl (selected, e) ↦
            let (r, found) =
              materialize_total (suc (length selected)) w maximum question os (mandatory_id_of m)
                selected (omega arith) in
            (r, rw (e, select_and_materialize) found)
        | inr (err, e) ↦ (raised err, rw (e, select_and_materialize) refl)
      ]

  -- the search for eligible assets ends, and the rest is the selection
  compile_question_ranked :
      (w : Writer F) (score : Text → ℕ → Observation F → F.Float) (maximum : ℕ) (question : Text)
      (os : List (Observation F)) (f : Focus)
      → (ranked : List (RankedObservation F)) × (m : Option (RankedObservation F))
        × (compile_question w score maximum question os f
            ≡ select_and_materialize w maximum question os ranked m)
  unfolding compile_question
  compile_question_ranked w score maximum question os f =
      let (assets, e) =
        eligible_assets_total os f.root_asset_id f.relevant_asset_ids f.most_recent_asset_lineage
          (f.previous_action_observation_ids
            ++ f.previous_answer_observation_ids
            ++ f.pinned_observation_ids
            ++ conflict_and_warning_ids os)
          (observation_by_id [] os) in
      let ranked : List (RankedObservation F) =
        rank_observations (score question) f os (filter (is_eligible assets) os) in
      (ranked, mandatory_root_metadata f.root_asset_id ranked, rw (e, compile_question) refl)

  -- Compiling a context ends: the fuel of the search for eligible assets and of the removal of lines
  -- is enough for every input.
  pub compile_total :
      (w : Writer F) (strip : Text → Text) (score : Text → ℕ → Observation F → F.Float)
      (maximum : ℕ) (question : Text) (os : List (Observation F)) (f : Focus)
      → (r : Result CompiledContext) × (compile w strip score maximum question os f ≡ some r)
  unfolding compile
  compile_total w strip score maximum question os f =
      elim (Bool-cases (is_blank (strip question) || any (λ n. n == 0) (strip question))) [
        | inl bad ↦ (raised value_error, ground (arith, bad))
        | inr good ↦ elim (Bool-cases (all_distinct (map (λ (o : Observation F). o.id) os))) [
          | inr twice ↦ (raised value_error, ground (arith, good, twice))
          | inl distinct ↦
              let (ranked, m, e) = compile_question_ranked w score maximum (strip question) os f in
              let (r, found) =
                select_and_materialize_total w maximum (strip question) os ranked m in
              (r, ground (arith, good, distinct, e, found))
        ]
      ]

  -- what a compiled context satisfies
  abbrev pub IsSound : ℕ → List (Observation F) → CompiledContext → Type 0
  IsSound maximum os c =
      (length c.text ≤ maximum)
      × ((id : String)
          → contains id (map (λ (o : Observation F). o.id) os) ≡ true
          → contains id c.omitted_observation_ids ≡ not (contains id c.visible_observation_ids))

  select_and_materialize-IsSound :
      (w : Writer F) (maximum : ℕ) (question : Text) (os : List (Observation F))
      (ranked : List (RankedObservation F)) (m : Option (RankedObservation F)) (c : CompiledContext)
      → select_and_materialize w maximum question os ranked m ≡ some (ok c)
      → IsSound maximum os c
  unfolding select_and_materialize
  select_and_materialize-IsSound w maximum question os ranked m c h =
      elim (Result-cases (select_lines w maximum question ranked m)) [
        | inr (err, e) ↦ absurd (ground (arith, e))
        | inl (selected, e) ↦
            let v =
              materialize-IsContextOf (suc (length selected)) w maximum question os
                (mandatory_id_of m) selected c (ground (arith, e)) in
            (v.bounded, v.split)
      ]

  compile_question-IsSound :
      (w : Writer F) (score : Text → ℕ → Observation F → F.Float) (maximum : ℕ) (question : Text)
      (os : List (Observation F)) (f : Focus) (c : CompiledContext)
      → compile_question w score maximum question os f ≡ some (ok c)
      → IsSound maximum os c
  compile_question-IsSound w score maximum question os f c h =
      let (ranked, m, e) = compile_question_ranked w score maximum question os f in
      select_and_materialize-IsSound w maximum question os ranked m c (sym e ∙ h)

  -- A context that is compiled has at most the configured number of characters, and each observation
  -- of the session is listed as visible or as omitted, and not as both.
  pub compile-IsSound :
      (w : Writer F) (strip : Text → Text) (score : Text → ℕ → Observation F → F.Float)
      (maximum : ℕ) (question : Text) (os : List (Observation F)) (f : Focus) (c : CompiledContext)
      → compile w strip score maximum question os f ≡ some (ok c)
      → IsSound maximum os c
  unfolding compile
  compile-IsSound w strip score maximum question os f c h =
      elim (Bool-cases (is_blank (strip question) || any (λ n. n == 0) (strip question))) [
        | inl bad ↦ absurd (ground (arith, bad))
        | inr good ↦ elim (Bool-cases (all_distinct (map (λ (o : Observation F). o.id) os))) [
          | inl distinct ↦
              compile_question-IsSound w score maximum (strip question) os f c
                (ground (arith, good, distinct))
          | inr twice ↦ absurd (ground (arith, good, twice))
        ]
      ]

  -- The mandatory observation, the root's metadata, is visible in every context that is returned.
  pub select_and_materialize-mandatory :
      (w : Writer F) (maximum : ℕ) (question : Text) (os : List (Observation F))
      (ranked : List (RankedObservation F)) (m : RankedObservation F) (c : CompiledContext)
      → select_and_materialize w maximum question os ranked (some m) ≡ some (ok c)
      → contains m.observation.id c.visible_observation_ids ≡ true
  unfolding select_and_materialize mandatory_id_of
  select_and_materialize-mandatory w maximum question os ranked m c h =
      elim (Result-cases (select_lines w maximum question ranked (some m))) [
        | inr (err, e) ↦ absurd (ground (arith, e))
        | inl (selected, e) ↦
            let v =
              materialize-IsContextOf (suc (length selected)) w maximum question os
                (some m.observation.id) selected c (ground (arith, e)) in
            v.mandatory m.observation.id refl
              (select_lines-mandatory w maximum question ranked m selected e)
      ]

  context_of-text :
      (w : Writer F) (question : Text) (os : List (Observation F))
      (selected : List (SelectedLine F))
      → (context_of w question os selected).text
        ≡ render_context question
            (lines_of selected)
            (omission_record w (omitted_from os selected)).0
  unfolding context_of
  context_of-text w question os selected = refl

  context_of-fits :
      (w : Writer F) (maximum : ℕ) (question : Text) (os : List (Observation F))
      (ranked : List (RankedObservation F)) (m : Option (RankedObservation F))
      (selected : List (SelectedLine F))
      → select_lines w maximum question ranked m ≡ ok selected
      → length (omission_record w (omitted_from os selected)).0 ≤ 512
      → length (context_of w question os selected).text ≤ maximum
  context_of-fits w maximum question os ranked m selected e short = omega (
    arith,
    ap length (context_of-text w question os selected),
    select_lines-fits w maximum question ranked m selected e,
    short,
    length-render_context question (lines_of selected)
        (omission_record w (omitted_from os selected)).0,
  )

  -- When the record of what is omitted has at most 512 characters, the reserve that the selection
  -- keeps for it, then no selected line is removed: the context is that of the whole selection.
  pub select_and_materialize-whole :
      (w : Writer F) (maximum : ℕ) (question : Text) (os : List (Observation F))
      (ranked : List (RankedObservation F)) (m : Option (RankedObservation F))
      (selected : List (SelectedLine F))
      → select_lines w maximum question ranked m ≡ ok selected
      → length (omission_record w (omitted_from os selected)).0 ≤ 512
      → select_and_materialize w maximum question os ranked m
        ≡ some (ok (context_of w question os selected))
  unfolding select_and_materialize materialize
  select_and_materialize-whole w maximum question os ranked m selected e short =
      let fits = context_of-fits w maximum question os ranked m selected e short in
      let small : leb (length (context_of w question os selected).text) maximum ≡ true =
        ground (arith, fits) in
      rw (e, select_and_materialize, materialize, small) refl
