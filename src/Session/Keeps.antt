-- ===== src/Session/Keeps.antt =====
-- The calls of src/penampakan/session.py on its budget, its observations and its assets.
use penampakan.Base.{
  ℕ, zero, suc, ◌+◌, ◌≤◌, ◌≡◌, refl, ap, String, Bool, some, List, [], ◌∷◌, arith, inl, inr,
}
use penampakan.Base.Floats.{Floats, Arg, integer}
use penampakan.Base.Int.{pos}
use penampakan.Base.Result.{Result, ok, raised, Result-cases}
use penampakan.Base.Exec.{Exec}
use penampakan.Base.Run.{Ends, Keeps, Ends->>=, Keeps->>=}
use penampakan.Config.{RunLimits}
use penampakan.Models.{ObservationDraft, Provenance}
use penampakan.Budget.{
  RunBudget, reserve_step, reserve_llm_call, reserve_policy_decision, reserve_tool_call,
  reserve_backend_call, refund_unstarted_backend_call, reserve_derived_assets, refund_reused_assets,
}
use penampakan.Budget.Calls.{
  Call, step, llm_call, tool_call, backend_call, refund_backend_call, derived_assets, refund_assets,
  perform,
}
use penampakan.Budget.Limits.{IsWithin, perform-IsWithin}
use penampakan.Assets.{Imaging, AssetStore, PendingAsset}
use penampakan.Assets.Commit as AssetMethods
use penampakan.Assets.Valid as AssetValid
use penampakan.Assets.Runs as AssetRuns
use penampakan.Store as ObservationMethods
use penampakan.Store.{ObservationStore}
use penampakan.Store.Valid as ObservationValid
use penampakan.Store.Commit as ObservationRuns
use penampakan.Session.Tools.{commit_drafts, refund}
use penampakan.Session.Execute.{run_tool}
use penampakan.Session.{
  Host, Session, ToolAction, BackendUse, reserves, refunds, spend, owner, read, on_budget,
  on_observations, on_assets, clocked,
}

module _ {F : Floats} where
  pub perform-steps : (c : Call F) (b : RunBudget F) → b.steps ≤ (perform F c b).1.steps
  unfolding perform reserve_step reserve_llm_call reserve_policy_decision reserve_tool_call
      reserve_backend_call refund_unstarted_backend_call reserve_derived_assets refund_reused_assets
  perform-steps (step a clock) b = ground arith
  perform-steps c b = ground arith

  reserve_step-steps :
      (final : Bool) (clock : Arg F.Float) (b : RunBudget F)
      → (reserve_step F final clock b).0 ≡ ok tt
      → (reserve_step F final clock b).1.steps ≡ 1 + b.steps
  unfolding reserve_step
  reserve_step-steps final clock b h = ground arith

  -- what a tool's backends do is a sequence of calls
  spend-IsWithin :
      (l : RunLimits F) (k : ℕ) (uses : List (BackendUse F)) (b : RunBudget F)
      → IsWithin F l b
      → k ≤ b.steps
      → IsWithin F l (spend uses b) × (k ≤ (spend uses b).steps)
  unfolding spend perform
  spend-IsWithin l k [] b h more = (h, more)
  spend-IsWithin l k (reserves count clock ∷ uses) b h more =
      let c = backend_call count clock in
      spend-IsWithin l k uses (perform F c b).1 (perform-IsWithin F l c b h)
        (omega (arith, perform-steps c b, more))
  spend-IsWithin l k (refunds count ∷ uses) b h more =
      let c = refund_backend_call count in
      spend-IsWithin l k uses (perform F c b).1 (perform-IsWithin F l c b h)
        (omega (arith, perform-steps c b, more))

  pub snapshots_same : (o : ObservationStore F) → (ObservationMethods.snapshots o).1 ≡ o
  unfolding ObservationMethods.snapshots
  snapshots_same o = ground arith

module _ {P : Imaging} {F : Floats} where
  pub asset_snapshots_same : (a : AssetStore P F) → (AssetMethods.snapshots a).1 ≡ a
  unfolding AssetMethods.snapshots
  asset_snapshots_same a = ground arith

  asset_snapshot_same : (id : String) (a : AssetStore P F) → (AssetMethods.snapshot id a).1 ≡ a
  unfolding AssetMethods.snapshot AssetMethods.find_record
  asset_snapshot_same id a = ground arith

module _ {P : Imaging} {F : Floats} {H : Host P F} where
  -- The counters are within the limits, at least `k` steps are taken, and both stores are valid.
  pub record IsSafe (l : RunLimits F) (k : ℕ) (s : Session H) : Type 0 where
    pub within : IsWithin F l s.budget
    pub taken : k ≤ s.budget.steps
    pub observed : ObservationValid.IsValid s.observations
    pub owned : AssetValid.IsValid s.assets

  -- a step that was taken, or an exception
  abbrev pub IsStepped : RunLimits F → ℕ → Result (Unit {0}) → Session H → Type 0
  IsStepped l k (ok u) s = IsSafe l (suc k) s
  IsStepped l k (raised e) s = IsSafe l k s

  module _ {l : RunLimits F} {k : ℕ} where
    pub Keeps-read : Keeps (IsSafe l k) (read {H = H})
    Keeps-read s h = (
      _,
      _,
      refl,
      record { within = h.within; taken = h.taken; observed = h.observed; owned = h.owned },
    )

    pub Keeps-on_budget : (c : Call F) → Keeps (IsSafe l k) (on_budget {H = H} (perform F c))
    Keeps-on_budget c s h = (
      _,
      _,
      refl,
      record {
        within = perform-IsWithin F l c s.budget h.within;
        taken = omega (arith, perform-steps c s.budget, h.taken);
        observed = h.observed;
        owned = h.owned;
      },
    )

    pub Keeps-on_observations :
        {A : Type 0} (m : Exec (ObservationStore F) A)
        → ((o : ObservationStore F) → ObservationValid.IsValid o → ObservationValid.IsValid (m o).1)
        → Keeps (IsSafe l k) (on_observations {H = H} m)
    Keeps-on_observations m keeps s h = (
      _,
      _,
      refl,
      record {
        within = h.within;
        taken = h.taken;
        observed = keeps s.observations h.observed;
        owned = h.owned;
      },
    )

    pub Keeps-on_assets :
        {A : Type 0} (m : Exec (AssetStore P F) A)
        → ((a : AssetStore P F) → AssetValid.IsValid a → AssetValid.IsValid (m a).1)
        → Keeps (IsSafe l k) (on_assets {H = H} m)
    Keeps-on_assets m keeps s h = (
      _,
      _,
      refl,
      record {
        within = h.within;
        taken = h.taken;
        observed = h.observed;
        owned = keeps s.assets h.owned;
      },
    )

    pub Keeps-snapshots : Keeps (IsSafe l k) (on_observations {H = H} ObservationMethods.snapshots)
    Keeps-snapshots =
        Keeps-on_observations ObservationMethods.snapshots (λ o v. rw (snapshots_same o) v)

    pub Keeps-asset_snapshots : Keeps (IsSafe l k) (on_assets {H = H} AssetMethods.snapshots)
    Keeps-asset_snapshots =
        Keeps-on_assets AssetMethods.snapshots (λ a v. rw (asset_snapshots_same a) v)

    pub Keeps-asset_snapshot :
        (id : String) → Keeps (IsSafe l k) (on_assets {H = H} (AssetMethods.snapshot id))
    Keeps-asset_snapshot id =
        Keeps-on_assets (AssetMethods.snapshot id) (λ a v. rw (asset_snapshot_same id a) v)

    pub Keeps-asset_commit :
        (id : String) (pending : List (PendingAsset P F))
        → Keeps (IsSafe l k) (on_assets {H = H} (AssetMethods.commit id pending))
    Keeps-asset_commit id pending =
        Keeps-on_assets (AssetMethods.commit id pending) (AssetRuns.commit-IsValid id pending)

    pub Keeps-commit_drafts :
        (id : String) (drafts : List (ObservationDraft F)) (p : Provenance)
        → Keeps (IsSafe l k) (commit_drafts {H = H} id drafts p)
    unfolding commit_drafts ObservationRuns.apply
    Keeps-commit_drafts id drafts p s h =
        Keeps-on_observations (ObservationMethods.commit (owner s.assets) id drafts p [])
          (λ o v.
            ObservationRuns.apply-IsValid
              (ObservationRuns.op_commit (owner s.assets) id drafts p []) o v)
          s h

    pub Keeps-reserve_llm_call :
        (final repair : Bool)
        → Keeps (IsSafe l k) (clocked {H = H} (reserve_llm_call F final repair))
    unfolding perform
    Keeps-reserve_llm_call final repair =
        Keeps->>= Keeps-read (λ now. Keeps-on_budget (llm_call final repair now))

    pub Keeps-reserve_tool_call :
        (count : Arg F.Float) → Keeps (IsSafe l k) (clocked {H = H} (reserve_tool_call F count))
    unfolding perform
    Keeps-reserve_tool_call count =
        Keeps->>= Keeps-read (λ now. Keeps-on_budget (tool_call count now))

    pub Keeps-reserve_derived_assets :
        (count depth : Arg F.Float)
        → Keeps (IsSafe l k) (clocked {H = H} (reserve_derived_assets F count depth))
    unfolding perform
    Keeps-reserve_derived_assets count depth =
        Keeps->>= Keeps-read (λ now. Keeps-on_budget (derived_assets count depth now))

    pub Keeps-refund : (n : ℕ) → Keeps (IsSafe l k) (refund {H = H} n)
    unfolding refund perform
    Keeps-refund zero = λ s h. (_, _, refl, h)
    Keeps-refund (suc n) = Keeps-on_budget (refund_assets (integer (pos (suc n))))

    pub Keeps-run_tool :
        (action : ToolAction F) (visible : List String)
        → Keeps (IsSafe l k) (run_tool {H = H} action visible)
    unfolding run_tool
    Keeps-run_tool action visible s h =
        let uses = (H.execute action visible s.assets s.observations s.world).0.uses in
        let (within, taken) = spend-IsWithin l k uses s.budget h.within h.taken in
        (
          _,
          _,
          refl,
          record { within = within; taken = taken; observed = h.observed; owned = h.owned },
        )

    reserve_step_now :
        (final : Bool) (now : Arg F.Float)
        → Ends (IsSafe l k) (on_budget {H = H} (perform F (step final now))) (IsStepped l k)
    unfolding perform
    reserve_step_now final now s h = elim (Result-cases (reserve_step F final now s.budget).0) [
      | inl (u, done) ↦ (
        ok u,
        record s { budget = (reserve_step F final now s.budget).1 },
        ap (λ x. some (x, record s { budget = (reserve_step F final now s.budget).1 })) done,
        record {
          within = perform-IsWithin F l (step final now) s.budget h.within;
          taken = omega (arith, reserve_step-steps final now s.budget done, h.taken);
          observed = h.observed;
          owned = h.owned;
        },
      )
      | inr (x, refused) ↦ (
        raised x,
        record s { budget = (reserve_step F final now s.budget).1 },
        ap (λ y. some (y, record s { budget = (reserve_step F final now s.budget).1 })) refused,
        record {
          within = perform-IsWithin F l (step final now) s.budget h.within;
          taken = omega (arith, perform-steps (step final now) s.budget, h.taken);
          observed = h.observed;
          owned = h.owned;
        },
      )
    ]

    pub reserve_step-IsStepped :
        (final : Bool) → Ends (IsSafe l k) (clocked {H = H} (reserve_step F final)) (IsStepped l k)
    unfolding perform
    reserve_step-IsStepped final =
        Ends->>= Keeps-read (λ now. reserve_step_now final now) (λ x t p. p)
