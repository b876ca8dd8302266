-- ===== src/Budget/Deadline.antt =====
-- What the deadline refuses, and the timeout of a component.
use penampakan.Base.{◌≡◌, inl, inr, Option, none, some, arith, if◌then◌else◌}
use penampakan.Base.Floats.{Floats, Arg, real}
use penampakan.Base.Result.{ok, Result-cases}
use penampakan.Budget.{
  RunBudget, check_deadline, read_clock, time_left, component_timeout, reserve_step,
  reserve_llm_call, reserve_policy_decision, reserve_tool_call, reserve_backend_call,
  reserve_derived_assets, refund_unstarted_backend_call, refund_reused_assets,
}
use penampakan.Budget.Calls.{
  Call, step, llm_call, policy_decision, tool_call, backend_call, refund_backend_call,
  derived_assets, refund_assets, perform,
}

module _ (F : Floats) where
  -- the clock reading of a call that reserves
  abbrev pub reading : Call F → Option (Arg F.Float)
  reading (step answer_only clock) = some clock
  reading (llm_call final repair clock) = some clock
  reading (policy_decision answer_only clock) = some clock
  reading (tool_call count clock) = some clock
  reading (backend_call count clock) = some clock
  reading (refund_backend_call count) = none
  reading (derived_assets count depth clock) = some clock
  reading (refund_assets count) = none

  -- No reservation of any kind is granted once the deadline has passed, or at an invalid clock
  -- reading: a call that reserves and returns was made within the deadline.
  pub perform-in_time :
      (c : Call F) (b : RunBudget F) (clock : Arg F.Float)
      → reading c ≡ some clock
      → (perform F c b).0 ≡ ok tt
      → check_deadline F b clock ≡ ok tt
  unfolding perform reserve_step reserve_llm_call reserve_policy_decision reserve_tool_call
      reserve_backend_call refund_unstarted_backend_call reserve_derived_assets refund_reused_assets
  perform-in_time (step a clock') b clock r h = ground arith
  perform-in_time c b clock r h = ground arith

  -- A component timeout that is returned was asked for within the deadline. It is the configured
  -- number, or the time left at the second reading where that is smaller.
  pub component_timeout_lem :
      (b : RunBudget F) (x : F.Float) (clock clock' : Arg F.Float) {t : F.Float}
      → component_timeout F b (real x) clock clock' ≡ ok t
      → (check_deadline F b clock ≡ ok tt)
        × ((now : F.Float) × (read_clock F clock' ≡ ok now)
            × (t ≡ (if F.lt (time_left F b now) x then time_left F b now else x)))
  unfolding component_timeout
  component_timeout_lem b x clock clock' h = elim (Result-cases (read_clock F clock')) [
    | inl (now, e) ↦ (ground (arith, e), (now, e, ground (arith, e)))
    | inr (err, e) ↦ absurd (ground (arith, e))
  ]
