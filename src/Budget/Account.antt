-- ===== src/Budget/Account.antt =====
-- Reservations against refunds, and what remains against what is used.
use penampakan.Base.{ℕ, suc, ◌+◌, ◌≡◌, arith}
use penampakan.Base.Int.{pos}
use penampakan.Base.Floats.{Floats, Arg, integer}
use penampakan.Base.Result.{ok}
use penampakan.Base.Exec.{◌>>◌}
use penampakan.Budget.{
  RunBudget, RemainingBudget, reserve_backend_call, refund_unstarted_backend_call, remaining,
}
use penampakan.Budget.Limits.{IsWithin}

module _ (F : Floats) where
  -- A backend reservation that is refunded in full leaves the budget as it was.
  pub refund-reserve_backend :
      (count clock : Arg F.Float) (b : RunBudget F)
      → (reserve_backend_call F count clock b).0 ≡ ok tt
      → refund_unstarted_backend_call F count (reserve_backend_call F count clock b).1 ≡ (ok tt, b)
  unfolding reserve_backend_call refund_unstarted_backend_call
  refund-reserve_backend count clock b h = ground arith

  -- Two backend reservations that are granted at one reading count as one of their sum.
  pub reserve_backend-add :
      (m n : ℕ) (clock : Arg F.Float) (b : RunBudget F)
      → ((reserve_backend_call F (integer (pos (suc m))) clock
            >> reserve_backend_call F (integer (pos (suc n))) clock)
          b).0
        ≡ ok tt
      → (reserve_backend_call F (integer (pos (suc m))) clock
            >> reserve_backend_call F (integer (pos (suc n))) clock)
          b
        ≡ reserve_backend_call F (integer (pos (suc (m + suc n)))) clock b
  unfolding reserve_backend_call
  reserve_backend-add m n clock b h = ground arith

  -- On a budget within its limits, what `remaining` reports of a counter and what is used of it add
  -- up to its limit.
  pub remaining-add-usage :
      (b : RunBudget F) (depth clock : Arg F.Float) {r : RemainingBudget F}
      → IsWithin F b.limits b
      → remaining F b depth clock ≡ ok r
      → (r.steps + b.steps ≡ b.limits.max_steps)
        × (r.llm_calls + b.llm_calls ≡ b.limits.max_llm_calls)
        × (r.tool_calls + b.tool_calls ≡ b.limits.max_tool_calls)
        × (r.backend_calls + b.backend_calls ≡ b.limits.max_backend_calls)
        × (r.derived_assets + b.derived_assets ≡ b.limits.max_derived_assets)
  unfolding remaining
  remaining-add-usage b depth clock w h = ground arith
