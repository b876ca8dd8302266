-- ===== src/Retry/Tests.antt =====
-- A provider that fails once and then answers, and the theorem on retries at it.
use penampakan.Base.{ℕ, zero, suc, ◌≡◌, refl, Bool, true, none, some, [], ◌∷◌, arith}
use penampakan.Base.Ticks.{ticks}
use penampakan.Retry.{
  ProviderFailure, RetryPolicy, Deadline, Outcome, answered, provider_error, Round, returned,
  failed, call_with_retries, timed_out,
}
use penampakan.Retry.Bounds.{IsEnd, call_with_retries-IsEnd}

abbrev policy : RetryPolicy ticks
policy = record { max_attempts = 3; base_delay_s = 2; max_delay_s = 8 }

abbrev busy : ProviderFailure
busy = record { retryable = true; status = some 429; code = none }

-- the exceptions are whether they can be retried
abbrev classify : Bool → ProviderFailure
classify again = record busy { retryable = again }

abbrev outcomes : ℕ → Outcome ℕ Bool
outcomes zero = provider_error true
outcomes (suc n) = answered 7

abbrev rounds : ℕ → Round ticks ℕ Bool
rounds n = record { clock = 10; outcome = outcomes n; fraction = 1; clock_after = 11 }

abbrev by : ℕ → Deadline ticks
by t = record { expires_at = some t }

second_attempt : call_with_retries policy classify (by 100) 1 rounds ≡ some (returned 7 2, 2 ∷ [])
unfolding call_with_retries
second_attempt = refl

-- two ticks to wait and one to work do not fit before the deadline
no_time :
    call_with_retries policy classify (by 14) 1 rounds ≡ some (failed (timed_out (some 1) busy), [])
unfolding call_with_retries
no_time = refl

call_with_retries-IsEnd_example :
    IsEnd policy (by 100) 1 classify rounds (call_with_retries policy classify (by 100) 1 rounds)
call_with_retries-IsEnd_example =
    call_with_retries-IsEnd classify rounds policy (by 100) 1 (omega arith)
