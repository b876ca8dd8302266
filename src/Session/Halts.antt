-- ===== src/Session/Halts.antt =====
-- The policy's part of a run of src/penampakan/session.py: it ends, and keeps the session safe.
use penampakan.Base.{ℕ, refl, String, Bool, true, false, Option, none, List, []}
use penampakan.Base.Floats.{Floats}
use penampakan.Base.Result.{ok}
use penampakan.Base.Run.{Keeps, Keeps->>=, Keeps-lift, Keeps-attempt}
use penampakan.Config.{RunLimits}
use penampakan.Models.{WarningInfo}
use penampakan.Context.Lines.{Text}
use penampakan.Context.Select.{CompiledContext}
use penampakan.Context.Visible.{compile_total}
use penampakan.Assets.{Imaging}
use penampakan.Session.{
  Host, PolicyAction, Decision, decides, misparses, times_out, decides_nothing, fails,
}
use penampakan.Session.Policy.{
  focus, Parsed, parsed, unparsed, compile_context, policy_tool_specs, maximum_depth, judge,
  policy_round, accept_repair, policy_repair, call_limit_invalid, or_repair, policy_action,
}
use penampakan.Session.Keeps.{
  IsSafe, Keeps-read, Keeps-snapshots, Keeps-asset_snapshots, Keeps-reserve_llm_call,
}

module _ {P : Imaging} {F : Floats} {H : Host P F} {l : RunLimits F} {k : ℕ} where
  pub Keeps-compile_context :
      (question : Text) (ids lineage : List String)
      → Keeps (IsSafe l k) (compile_context {H = H} question ids lineage)
  unfolding compile_context
  Keeps-compile_context question ids lineage = Keeps->>= Keeps-snapshots (λ os.
      Keeps->>= Keeps-asset_snapshots (λ assets s h.
        let (r, e) =
          compile_total H.writer H.strip H.score s.budget.limits.max_context_chars question os
            (focus ids lineage assets s) in
        (r, s, rw e refl, h)))

  Keeps-policy_tool_specs :
      (context : CompiledContext) → Keeps (IsSafe l k) (policy_tool_specs {H = H} context)
  unfolding policy_tool_specs
  Keeps-policy_tool_specs context = Keeps->>= Keeps-snapshots (λ os s h. (_, _, refl, h))

  Keeps-maximum_depth : Keeps (IsSafe l k) (maximum_depth {H = H})
  unfolding maximum_depth
  Keeps-maximum_depth = Keeps->>= Keeps-asset_snapshots (λ assets s h. (_, _, refl, h))

  Keeps-judge : (d : Decision F) → Keeps (IsSafe l k) (judge {H = H} d)
  unfolding judge
  Keeps-judge (decides action) = λ s h. (_, _, refl, h)
  Keeps-judge (misparses feedback output) = λ s h. (_, _, refl, h)
  Keeps-judge times_out = λ s h. (_, _, refl, h)
  Keeps-judge decides_nothing = λ s h. (_, _, refl, h)
  Keeps-judge (fails e) = λ s h. (_, _, refl, h)

  Keeps-policy_round :
      (question : Text) (context : CompiledContext) (prior : List (PolicyAction F))
      (answer_only : Bool) (feedback : List (WarningInfo F)) (output : Option String)
      (repair final : Bool)
      → Keeps
          (IsSafe l k)
          (policy_round {H = H} question context prior answer_only feedback output repair final)
  unfolding policy_round
  Keeps-policy_round question context prior answer_only feedback output repair final =
      Keeps->>= (λ s h. (_, _, refl, h))
        λ _. Keeps->>= (Keeps-reserve_llm_call final repair) λ _.
          Keeps->>= (Keeps-policy_tool_specs context) λ tools.
            Keeps->>= Keeps-maximum_depth λ depth. Keeps->>= Keeps-read λ now.
              Keeps->>= (λ s h. (_, _, refl, h))
                λ left. Keeps->>= (Keeps-lift _) λ _. Keeps->>= Keeps-read λ clock.
                  Keeps->>= Keeps-read λ clock'.
                    Keeps->>= (λ s h. (_, _, refl, h))
                      λ seconds.
                        Keeps->>=
                          (λ s h. (
                            _,
                            _,
                            refl,
                            record {
                              within = h.within;
                              taken = h.taken;
                              observed = h.observed;
                              owned = h.owned;
                            },
                          ))
                          λ decision. Keeps-judge decision

  Keeps-accept_repair : (p : Parsed F) → Keeps (IsSafe l k) (accept_repair {H = H} p)
  unfolding accept_repair
  Keeps-accept_repair (parsed action) = Keeps-lift (ok action)
  Keeps-accept_repair (unparsed feedback output) = λ s h. (_, _, refl, h)

  pub Keeps-policy_repair :
      (question : Text) (context : CompiledContext) (prior : List (PolicyAction F))
      (answer_only : Bool) (feedback : List (WarningInfo F)) (output : Option String) (final : Bool)
      → Keeps
          (IsSafe l k)
          (policy_repair {H = H} question context prior answer_only feedback output final)
  unfolding policy_repair
  Keeps-policy_repair question context prior answer_only feedback output final =
      Keeps->>= (Keeps-policy_round question context prior answer_only feedback output true final)
        Keeps-accept_repair

  Keeps-or_repair :
      (question : Text) (context : CompiledContext) (prior : List (PolicyAction F))
      (answer_only : Bool) (p : Parsed F)
      → Keeps (IsSafe l k) (or_repair {H = H} question context prior answer_only p)
  unfolding or_repair
  Keeps-or_repair question context prior answer_only (parsed action) = Keeps-lift (ok action)
  Keeps-or_repair question context prior answer_only (unparsed feedback output) =
      Keeps->>=
        (Keeps-attempt
          (Keeps-policy_repair question context prior answer_only feedback output answer_only))
        (λ r. Keeps-lift (call_limit_invalid r))

  pub Keeps-policy_action :
      (question : Text) (context : CompiledContext) (prior : List (PolicyAction F))
      (answer_only : Bool)
      → Keeps (IsSafe l k) (policy_action {H = H} question context prior answer_only)
  unfolding policy_action
  Keeps-policy_action question context prior answer_only =
      Keeps->>= (Keeps-policy_round question context prior answer_only [] none false answer_only)
        (Keeps-or_repair question context prior answer_only)
