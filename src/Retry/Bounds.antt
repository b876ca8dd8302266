-- ===== src/Retry/Bounds.antt =====
-- Termination of the retry loop, and its result against the attempts that were made.
use penampakan.Base.{
  if◌then◌else◌, ℕ, zero, suc, ◌+◌, ◌≤◌, ◌<◌, ◌≡◌, ◌⊎◌, inl, inr, refl, Bool, true, false, not,
  ◌||◌, Option, some, List, [], ltb, leb, arith, Bool-cases,
}
use penampakan.Base.Floats.{Floats}
use penampakan.Retry.{
  ProviderFailure, LlmError, RetryPolicy, Deadline, Outcome, answered, wait_expired, typed_error,
  provider_error, Round, CallResult, returned, failed, reraised, or_none, no_failure, expired,
  jittered_delay, too_late, after_sleep, retry_or_fail, retry_loop, call_with_retries,
}

module _ {F : Floats} {A E : Type 0} (p : RetryPolicy F) (d : Deadline F) (least : F.Float)
    (classify : E → ProviderFailure) (rounds : ℕ → Round F A E) where
  -- The deadline does not leave time for the delay after attempt `k` and for another one.
  abbrev pub NoTimeAfter : ℕ → Bool → Type 0
  NoTimeAfter k b =
      too_late d least (rounds k).clock_after (jittered_delay p (suc k) (rounds k).fraction) ≡ b

  -- Each of the first `n` attempts was made before the deadline, raised an exception that is classified
  -- as retryable, and left time for the next one.
  abbrev pub RetriedBelow : ℕ → Type 0
  RetriedBelow n =
      (k : ℕ)
      → k < n
      → (e : E) × ((rounds k).outcome ≡ provider_error e)
        × ((classify e).retryable ≡ true)
        × (expired d (rounds k).clock ≡ false)
        × NoTimeAfter k false

  -- Why the loop gave up in round `k`, after `k` attempts that were retried, and what it raised.
  pub data GivesUp (k : ℕ) (err : LlmError) : Type 0 where
    -- the deadline was over, and no other attempt was made
    at_deadline :
        expired d (rounds k).clock ≡ true
        → err.code ≡ "llm_timeout"
        → err.attempts ≡ or_none k
        → GivesUp k err
    in_attempt :
        expired d (rounds k).clock ≡ false
        → (rounds k).outcome ≡ wait_expired
        → err.code ≡ "llm_timeout"
        → err.attempts ≡ some (suc k)
        → GivesUp k err
    -- the exception is not to be retried, or no attempt is left
    in_vain :
        (e : E)
        → expired d (rounds k).clock ≡ false
        → (rounds k).outcome ≡ provider_error e
        → not (classify e).retryable || leb p.max_attempts (suc k) ≡ true
        → err.code
          ≡ (if (classify e).retryable then "llm_retries_exhausted" else "llm_request_failed")
        → err.attempts ≡ some (suc k)
        → err.provider_status ≡ (classify e).status
        → GivesUp k err
    -- another attempt would be too late
    before_delay :
        (e : E)
        → expired d (rounds k).clock ≡ false
        → (rounds k).outcome ≡ provider_error e
        → NoTimeAfter k true
        → err.code ≡ "llm_timeout"
        → err.attempts ≡ some (suc k)
        → err.provider_status ≡ (classify e).status
        → GivesUp k err

  -- What a result says, with the number of attempts `k` that were made before the last round.
  abbrev pub IsEarned : CallResult A E → Type 0
  IsEarned (returned a n) =
      (k : ℕ) × (n ≡ suc k)
      × (n ≤ p.max_attempts)
      × ((rounds k).outcome ≡ answered a)
      × (expired d (rounds k).clock ≡ false)
      × RetriedBelow k
  IsEarned (reraised e) =
      (k : ℕ) × (suc k ≤ p.max_attempts)
      × ((rounds k).outcome ≡ typed_error e)
      × (expired d (rounds k).clock ≡ false)
      × RetriedBelow k
  IsEarned (failed err) = (k : ℕ) × (suc k ≤ p.max_attempts) × GivesUp k err × RetriedBelow k

  RetriedBelow-suc :
      (n : ℕ) (e : E)
      → RetriedBelow n
      → (rounds n).outcome ≡ provider_error e
      → (classify e).retryable ≡ true
      → expired d (rounds n).clock ≡ false
      → NoTimeAfter n false
      → RetriedBelow (suc n)
  RetriedBelow-suc n e before now retryable open_now soon k lt = elim (Bool-cases (ltb k n)) [
    | inl earlier ↦ before k (ground arith)
    | inr last ↦ let same : k ≡ n = ground arith in rw same (e, now, retryable, open_now, soon)
  ]

  outcome_cases :
      (o : Outcome A E)
      → ((a : A) × (o ≡ answered a))
        ⊎ ((o ≡ wait_expired)
            ⊎ (((e : E) × (o ≡ typed_error e)) ⊎ ((e : E) × (o ≡ provider_error e))))
  outcome_cases (answered a) = inl (a, refl)
  outcome_cases wait_expired = inr (inl refl)
  outcome_cases (typed_error e) = inr (inr (inl (e, refl)))
  outcome_cases (provider_error e) = inr (inr (inr (e, refl)))

  -- The result is there, and earned.
  abbrev pub IsEnd : Option (CallResult A E × List F.Float) → Type 0
  IsEnd o = (r : CallResult A E) × (delays : List F.Float) × (o ≡ some (r, delays)) × IsEarned r

  after_sleep-IsEnd :
      (delay : F.Float) (again : Option (CallResult A E × List F.Float))
      → IsEnd again
      → IsEnd (after_sleep F delay again)
  unfolding after_sleep
  after_sleep-IsEnd delay again (r, delays, e, earned) = rw e (r, _, refl, earned)

  retry_or_fail-IsEnd :
      (n : ℕ) (e : E) (again : Option (CallResult A E × List F.Float))
      → suc n ≤ p.max_attempts
      → expired d (rounds n).clock ≡ false
      → (rounds n).outcome ≡ provider_error e
      → RetriedBelow n
      → ((classify e).retryable ≡ true → suc n < p.max_attempts → NoTimeAfter n false → IsEnd again)
      → IsEnd (retry_or_fail p d least (rounds n) (suc n) (classify e) again)
  unfolding retry_or_fail
  retry_or_fail-IsEnd n e again le open_now now before next =
      let delay : F.Float = jittered_delay p (suc n) (rounds n).fraction in
      elim (Bool-cases (not (classify e).retryable || leb p.max_attempts (suc n))) [
        | inl last ↦
            rw (last, retry_or_fail)
              (_, [], refl, (n, le, in_vain e open_now now last refl refl refl, before))
        | inr more ↦ elim (Bool-cases (too_late d least (rounds n).clock_after delay)) [
          | inl late ↦
              rw (more, late, retry_or_fail)
                (_, [], refl, (n, le, before_delay e open_now now late refl refl refl, before))
          | inr soon ↦
              rw (more, soon, retry_or_fail)
                (after_sleep-IsEnd delay again
                  (next (ground (arith, more)) (ground (arith, more)) soon))
        ]
      ]

  retry_loop-IsEnd :
      (fuel n : ℕ) (failure : ProviderFailure)
      → n < p.max_attempts
      → p.max_attempts ≤ fuel + n
      → RetriedBelow n
      → IsEnd (retry_loop fuel p classify d least rounds n failure)
  unfolding retry_loop
  retry_loop-IsEnd zero n failure lt enough before = absurd (omega arith)
  retry_loop-IsEnd (suc fuel) n failure lt enough before =
      elim (Bool-cases (expired d (rounds n).clock)) [
        | inl late ↦
            rw (late, retry_loop)
              (_, [], refl, (n, omega arith, at_deadline late refl refl, before))
        | inr open_now ↦ elim (outcome_cases (rounds n).outcome) [
          | inl (a, e) ↦
              rw (open_now, e, retry_loop)
                (_, [], refl, (n, refl, omega arith, e, open_now, before))
          | inr (inl e) ↦
              rw (open_now, e, retry_loop)
                (_, [], refl, (n, omega arith, in_attempt open_now e refl refl, before))
          | inr (inr (inl (x, e))) ↦
              rw (open_now, e, retry_loop) (_, [], refl, (n, omega arith, e, open_now, before))
          | inr (inr (inr (x, e))) ↦
              rw (open_now, e, retry_loop)
                (retry_or_fail-IsEnd n x
                  (retry_loop fuel p classify d least rounds (suc n) (classify x)) (omega arith)
                  open_now e before
                  (λ retryable less soon.
                    retry_loop-IsEnd fuel (suc n) (classify x) less (omega arith)
                      (RetriedBelow-suc n x before e retryable open_now soon)))
        ]
      ]

-- A call under a policy of at least one attempt ends. A value comes from the last attempt made, and a
-- reraised error too; no more attempts are made than the policy allows; no attempt is made after the
-- deadline; and every attempt before the last raised an exception that is classified as retryable and
-- left time for the next. An `LLMError` of the loop is raised because the deadline was over, because it
-- expired in the last attempt, because the last attempt's exception is not retryable or no attempt is
-- left, or because another attempt would be too late. It has the code of that reason, it names the
-- number of attempts that were made, or none where there was none, and in the last two cases it has the
-- provider's status of the last attempt's exception.
pub call_with_retries-IsEnd :
    {F : Floats} {A E : Type 0} (classify : E → ProviderFailure) (rounds : ℕ → Round F A E)
    (p : RetryPolicy F) (d : Deadline F) (least : F.Float)
    → 1 ≤ p.max_attempts
    → IsEnd p d least classify rounds (call_with_retries p classify d least rounds)
unfolding call_with_retries
call_with_retries-IsEnd classify rounds p d least h =
    retry_loop-IsEnd p d least classify rounds p.max_attempts 0 no_failure (omega arith)
      (omega arith) (λ k less. absurd (omega arith))
