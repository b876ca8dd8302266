-- ===== src/Retry.antt =====
-- src/penampakan/llms/_retry.py: one provider call under a retry policy and a deadline. What the
-- provider, the clock and the random source do in each round is a parameter, as is the adapter's
-- classification of its exceptions.
mod Bounds
mod Tests
use penampakan.Base.{
  ℕ, zero, suc, ◌+◌, ◌-◌, String, Bool, true, false, not, ◌&&◌, ◌||◌, Option, none, some, List, [],
  ◌∷◌, ltb, leb, if◌then◌else◌,
}
use penampakan.Base.Int.{pos}
use penampakan.Base.Floats.{Floats, min_float}

pub record ProviderFailure : Type 0 where
  pub retryable : Bool
  pub status : Option ℕ
  pub code : Option String

-- the arguments that `LLMError` is raised with
pub record LlmError : Type 0 where
  pub code : String
  pub retryable : Bool
  pub attempts : Option ℕ
  pub provider_status : Option ℕ
  pub provider_code : Option String

-- `RetryPolicy` of models.py
pub record RetryPolicy (F : Floats) : Type 0 where
  pub max_attempts : ℕ
  pub base_delay_s : F.Float
  pub max_delay_s : F.Float

-- `Deadline`: when it expires, or `none` where it is unbounded
pub record Deadline (F : Floats) : Type 0 where
  pub expires_at : Option F.Float

-- What one awaited attempt gives: a value, the expiration of `wait_for`, which only a bounded deadline
-- has, an `LLMError` of the adapter's own, or another exception.
pub data Outcome (A E : Type 0) : Type 0 where
  answered : A → Outcome A E
  wait_expired : Outcome A E
  typed_error provider_error : E → Outcome A E

-- One round of the loop: the clock at its test, the attempt, the random source, and the clock after it.
pub record Round (F : Floats) (A E : Type 0) : Type 0 where
  pub clock : F.Float
  pub outcome : Outcome A E
  pub fraction : F.Float
  pub clock_after : F.Float

-- A value with the number of attempts, an `LLMError` of the loop, or the adapter's own.
pub data CallResult (A E : Type 0) : Type 0 where
  returned : A → ℕ → CallResult A E
  failed : LlmError → CallResult A E
  reraised : E → CallResult A E

-- `attempts or None`
unfoldable pub or_none : ℕ → Option ℕ
or_none zero = none
or_none (suc n) = some (suc n)

abbrev pub no_failure : ProviderFailure
no_failure = record { retryable = false; status = none; code = none }

abbrev pub timed_out : Option ℕ → ProviderFailure → LlmError
timed_out attempts failure = record {
  code = "llm_timeout";
  retryable = true;
  attempts = attempts;
  provider_status = failure.status;
  provider_code = failure.code;
}

-- the last attempt's failure
abbrev pub spent : ℕ → ProviderFailure → LlmError
spent attempts failure = record {
  code = if failure.retryable then "llm_retries_exhausted" else "llm_request_failed";
  retryable = failure.retryable;
  attempts = some attempts;
  provider_status = failure.status;
  provider_code = failure.code;
}

-- `if delay > 0.0: await asyncio.sleep(delay)`, the delays that are slept in order
unfoldable pub after_sleep :
    (F : Floats) {R : Type 0} → F.Float → Option (R × List F.Float) → Option (R × List F.Float)
after_sleep F delay none = none
after_sleep F delay (some (r, delays)) =
    some (r, if F.lt F.zero_float delay then delay ∷ delays else delays)

module _ {F : Floats} where
  -- `Deadline.remaining` at a reading of the clock
  unfoldable pub remaining_at : Deadline F → F.Float → Option F.Float
  remaining_at d now = elim d.expires_at [ none ↦ none | some t ↦ some (F.sub t now) ]

  -- `Deadline.expired`
  unfoldable pub expired : Deadline F → F.Float → Bool
  unfolding remaining_at
  expired d now = elim (remaining_at d now) [ none ↦ false | some left ↦ F.le left F.zero_float ]

  -- `_jittered_delay`
  unfoldable pub jittered_delay : RetryPolicy F → ℕ → F.Float → F.Float
  jittered_delay p attempt fraction =
      let capped = min_float F p.max_delay_s (F.mul p.base_delay_s (F.two_to (attempt - 1))) in
      if F.le F.zero_float fraction && F.le fraction (F.of_int (pos 1))
      then F.mul capped fraction
      else F.mul capped F.zero_float

  -- whether the next attempt cannot be useful before the deadline
  unfoldable pub too_late : Deadline F → F.Float → F.Float → F.Float → Bool
  unfolding remaining_at
  too_late d minimum_attempt_s now delay = elim (remaining_at d now) [
    | none ↦ false
    | some left ↦ F.le left (F.add delay minimum_attempt_s)
  ]

  module _ {A E : Type 0} where
    -- the end of a round whose attempt failed: the error, or what the next rounds give
    unfoldable pub retry_or_fail :
        RetryPolicy F
        → Deadline F
        → F.Float
        → Round F A E
        → ℕ
        → ProviderFailure
        → Option (CallResult A E × List F.Float)
        → Option (CallResult A E × List F.Float)
    unfolding jittered_delay too_late after_sleep
    retry_or_fail p d minimum_attempt_s round attempts failure again =
        let delay = jittered_delay p attempts round.fraction in
        if not failure.retryable || leb p.max_attempts attempts
        then some (failed (spent attempts failure), [])
        else if too_late d minimum_attempt_s round.clock_after delay
        then some (failed (timed_out (some attempts) failure), [])
        else after_sleep F delay again

    -- The `while` loop, with the attempts made and the last failure. `none` is out of fuel.
    unfoldable pub retry_loop :
        ℕ
        → RetryPolicy F
        → (E → ProviderFailure)
        → Deadline F
        → F.Float
        → (ℕ → Round F A E)
        → ℕ
        → ProviderFailure
        → Option (CallResult A E × List F.Float)
    unfolding expired or_none retry_or_fail
    retry_loop zero p classify d minimum_attempt_s rounds attempts failure = none
    retry_loop (suc fuel) p classify d minimum_attempt_s rounds attempts failure =
        let round = rounds attempts in
        let n = suc attempts in
        let again =
          λ (e : E). retry_loop fuel p classify d minimum_attempt_s rounds n (classify e) in
        if expired d round.clock
        then some (failed (timed_out (or_none attempts) failure), [])
        else elim round.outcome [
          | answered a ↦ some (returned a n, [])
          | wait_expired ↦ some (failed (timed_out (some n) no_failure), [])
          | typed_error e ↦ some (reraised e, [])
          | provider_error e ↦ retry_or_fail p d minimum_attempt_s round n (classify e) (again e)
        ]

    -- `call_with_retries`, with `_MINIMUM_ATTEMPT_S`
    unfoldable pub call_with_retries :
        RetryPolicy F
        → (E → ProviderFailure)
        → Deadline F
        → F.Float
        → (ℕ → Round F A E)
        → Option (CallResult A E × List F.Float)
    unfolding retry_loop
    call_with_retries p classify d minimum_attempt_s rounds =
        retry_loop p.max_attempts p classify d minimum_attempt_s rounds 0 no_failure
