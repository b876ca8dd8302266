-- ===== src/Session/Grounded.antt =====
-- The answer's part of a run of src/penampakan/session.py: it ends, keeps the session safe, and what it
-- answers was validated on the session's observations.
use penampakan.Base.{ℕ, ◌≡◌, refl, ap, Bool, true, some, List, arith, inl, inr}
use penampakan.Base.Floats.{Floats}
use penampakan.Base.Result.{Result, ok, raised, Result-cases}
use penampakan.Base.Run.{Ends, Keeps, Ends->>=, Keeps->>=, Keeps-lift, Keeps-attempt, Keeps-if}
use penampakan.Config.{RunLimits}
use penampakan.Models.{Observation, WarningInfo}
use penampakan.Answer.{
  Scope, AnswerAction, Evidence, VisionAnswer, observation_index, validate_evidence,
  materialize_answer,
}
use penampakan.Context.Lines.{Text}
use penampakan.Context.Select.{CompiledContext}
use penampakan.Assets.{Imaging}
use penampakan.Assets.Commit as AssetMethods
use penampakan.Store as ObservationMethods
use penampakan.Store.{ObservationStore}
use penampakan.Session.{
  Host, Session, PolicyAction, calls_tool, gives_answer, on_assets, on_observations,
}
use penampakan.Session.Answering.{
  answer_scope, validate, repair_invalid, is_evidence_error, check_repaired, repair_answer,
  accept_answer, finish_answer, complete_answer,
}
use penampakan.Session.Halts.{Keeps-policy_repair}
use penampakan.Session.Keeps.{IsSafe, snapshots_same, asset_snapshots_same}

module _ {F : Floats} where
  snapshots_shown :
      (o : ObservationStore F) (os : List (Observation F))
      → (ObservationMethods.snapshots o).0 ≡ ok os
      → os ≡ o.observations
  unfolding ObservationMethods.snapshots
  snapshots_shown o os h = ground arith

  pub materialize-validate :
      {T : Type 0} (action : AnswerAction) (scope : Scope F) (ws : List (WarningInfo F)) (trace : T)
      (a : VisionAnswer F T)
      → materialize_answer action scope ws trace ≡ ok a
      → validate_evidence action scope ≡ ok a.evidence
  unfolding materialize_answer
  materialize-validate action scope ws trace a h =
      elim (Result-cases (validate_evidence action scope)) [
        | inl (es, e) ↦ ground (arith, e)
        | inr (x, e) ↦ absurd (ground (arith, e))
      ]

module _ {P : Imaging} {F : Floats} {H : Host P F} where
  -- The evidence of an answer is what the validation of some answer action gives in a scope that indexes
  -- the session's observations.
  abbrev pub IsValidated : VisionAnswer F H.Trace → Session H → Type 0
  IsValidated a s =
      (action : AnswerAction) × (scope : Scope F) × (scope.indexed
        ≡ observation_index s.observations.observations)
      × (validate_evidence action scope ≡ ok a.evidence)

  abbrev pub IsAnswered : RunLimits F → ℕ → Result (VisionAnswer F H.Trace) → Session H → Type 0
  IsAnswered l k (raised e) s = IsSafe l k s
  IsAnswered l k (ok a) s = IsSafe l k s × IsValidated a s

  -- the session's observations
  abbrev IsListed : RunLimits F → ℕ → Result (List (Observation F)) → Session H → Type 0
  IsListed l k (raised e) s = IsSafe l k s
  IsListed l k (ok os) s = IsSafe l k s × (os ≡ s.observations.observations)

  abbrev IsScoped : RunLimits F → ℕ → Result (Scope F) → Session H → Type 0
  IsScoped l k (raised e) s = IsSafe l k s
  IsScoped l k (ok scope) s =
      IsSafe l k s × (scope.indexed ≡ observation_index s.observations.observations)

  module _ {l : RunLimits F} {k : ℕ} where
    snapshots-IsListed :
        Ends (IsSafe l k) (on_observations {H = H} ObservationMethods.snapshots) (IsListed l k)
    snapshots-IsListed s h =
        let after : Session H = record s {
          observations = (ObservationMethods.snapshots s.observations).1;
        } in
        let kept : IsSafe l k after = record {
          within = h.within;
          taken = h.taken;
          observed = rw (snapshots_same s.observations) h.observed;
          owned = h.owned;
        } in
        elim (Result-cases (ObservationMethods.snapshots s.observations).0) [
          | inl (os, shown) ↦ (
            ok os,
            after,
            ap (λ x. some (x, after)) shown,
            (kept, rw (snapshots_same s.observations) (snapshots_shown s.observations os shown)),
          )
          | inr (x, failed) ↦ (raised x, after, ap (λ y. some (y, after)) failed, kept)
        ]

    Keeps-IsListed :
        (os : List (Observation F))
        → Ends
            (IsListed l k (ok os))
            (on_assets {H = H} AssetMethods.snapshots)
            (λ r s. IsListed l k (ok os) s)
    Keeps-IsListed os s h = (
      _,
      _,
      refl,
      (
        record {
          within = h.0.within;
          taken = h.0.taken;
          observed = h.0.observed;
          owned = rw (asset_snapshots_same s.assets) h.0.owned;
        },
        h.1,
      ),
    )

    answer_scope-IsScoped :
        (context : CompiledContext)
        → Ends (IsSafe l k) (answer_scope {H = H} context) (IsScoped l k)
    unfolding answer_scope
    answer_scope-IsScoped context =
        Ends->>= snapshots-IsListed
          (λ os.
            Ends->>= (Keeps-IsListed os)
              (λ assets s h. (_, _, refl, (h.0, ap observation_index h.1))) (λ x t p. p.0))
          (λ x t p. p)

    Keeps-answer_scope :
        (context : CompiledContext) → Keeps (IsSafe l k) (answer_scope {H = H} context)
    Keeps-answer_scope context s h =
        let (r, t, e, scoped) = answer_scope-IsScoped context s h in (r, t, e, safe r t scoped)
      where
        safe : (r : Result (Scope F)) (t : Session H) → IsScoped l k r t → IsSafe l k t
        safe (ok scope) t p = p.0
        safe (raised e) t p = p

    Keeps-validate :
        (action : AnswerAction) (context : CompiledContext)
        → Keeps (IsSafe l k) (validate {H = H} action context)
    unfolding validate
    Keeps-validate action context =
        Keeps->>= (Keeps-answer_scope context) λ scope. Keeps-lift (validate_evidence action scope)

    Keeps-check_repaired :
        (context : CompiledContext) (repaired : PolicyAction F)
        → Keeps (IsSafe l k) (check_repaired {H = H} context repaired)
    unfolding check_repaired
    Keeps-check_repaired context (calls_tool call) = λ s h. (_, _, refl, h)
    Keeps-check_repaired context (gives_answer answer) =
        Keeps->>= (Keeps-validate answer context) λ es. Keeps-lift (ok answer)

    Keeps-repair_answer :
        (action : AnswerAction) (question : Text) (context : CompiledContext)
        (prior : List (PolicyAction F)) (final : Bool)
        → Keeps (IsSafe l k) (repair_answer {H = H} action question context prior final)
    unfolding repair_answer
    Keeps-repair_answer action question context prior final =
        Keeps->>=
          (Keeps->>= (Keeps-attempt (Keeps-policy_repair question context prior true _ _ final))
            (λ r. Keeps-lift (repair_invalid r)))
          (Keeps-check_repaired context)

    Keeps-accept_answer :
        (action : AnswerAction) (question : Text) (context : CompiledContext)
        (prior : List (PolicyAction F)) (final : Bool) (checked : Result (List (Evidence F)))
        → Keeps (IsSafe l k) (accept_answer {H = H} action question context prior final checked)
    unfolding accept_answer
    Keeps-accept_answer action question context prior final (ok es) = Keeps-lift (ok action)
    Keeps-accept_answer action question context prior final (raised e) =
        Keeps-if (is_evidence_error e) (Keeps-repair_answer action question context prior final)
          (Keeps-lift (raised e))

    materialize-IsAnswered :
        (action : AnswerAction) (scope : Scope F) (ws : List (WarningInfo F)) (trace : H.Trace)
        (s : Session H)
        → IsScoped l k (ok scope) s
        → IsAnswered l k (materialize_answer action scope ws trace) s
    materialize-IsAnswered action scope ws trace s h =
        elim (Result-cases (materialize_answer action scope ws trace)) [
          | inl (a, e) ↦
              rw e (h.0, (action, scope, h.1, materialize-validate action scope ws trace a e))
          | inr (x, e) ↦ rw e h.0
        ]

    finish_answer-IsAnswered :
        (action : AnswerAction) (context : CompiledContext) (ws : List (WarningInfo F))
        → Ends (IsSafe l k) (finish_answer {H = H} action context ws) (IsAnswered l k)
    unfolding finish_answer
    finish_answer-IsAnswered action context ws =
        Ends->>= {R = λ r t. IsSafe l k t}
          (λ s h. (
            _,
            _,
            refl,
            record { within = h.within; taken = h.taken; observed = h.observed; owned = h.owned },
          ))
          (λ _.
            Ends->>= {R = λ r t. IsSafe l k t}
              (λ s h. (
                _,
                _,
                refl,
                record {
                  within = h.within;
                  taken = h.taken;
                  observed = h.observed;
                  owned = h.owned;
                },
              ))
              (λ trace.
                Ends->>= (answer_scope-IsScoped context)
                  (λ scope s h. (_, _, refl, materialize-IsAnswered action scope _ trace s h))
                  (λ x t p. p))
              (λ x t p. p))
          (λ x t p. p)

    pub complete_answer-IsAnswered :
        (action : AnswerAction) (question : Text) (context : CompiledContext)
        (prior : List (PolicyAction F)) (ws : List (WarningInfo F)) (final : Bool)
        → Ends
            (IsSafe l k)
            (complete_answer {H = H} action question context prior ws final)
            (IsAnswered l k)
    unfolding complete_answer
    complete_answer-IsAnswered action question context prior ws final =
        Ends->>= {R = λ r t. IsSafe l k t} (Keeps-attempt (Keeps-validate action context))
          (λ checked.
            Ends->>= {R = λ r t. IsSafe l k t}
              (Keeps-accept_answer action question context prior final checked)
              (λ accepted. finish_answer-IsAnswered accepted context ws) (λ x t p. p))
          (λ x t p. p)
