-- ===== src/Retry/Delays.antt =====
-- src/retry.rs: when the policy gives a delay.
use svc_resillience_rs.Prelude.{ℕ, ◌≤◌, ◌<◌, ◌≡◌, ◌⊎◌, true, false, none, some, arith, Duration}
use svc_resillience_rs.Retry.{
  RetryDecision, retry, do_not_retry, RetryPolicy, delay_after, exceeds, next_delay,
}

-- A retry is granted only for a retryable error, while attempts are left, within the budget of elapsed
-- time, and with the backoff's delay.
pub next_delay-some :
    (p : RetryPolicy) (draw : ℕ → ℕ) (attempt : ℕ) (elapsed : Duration) (d : RetryDecision)
    (delay : Duration)
    → next_delay p draw attempt elapsed d ≡ some delay
    → (d ≡ retry)
      × (attempt < p.max_attempts)
      × (exceeds p.max_elapsed elapsed delay ≡ false)
      × (delay ≡ delay_after p.backoff draw attempt)
unfolding next_delay
next_delay-some p draw attempt elapsed d delay h = ground arith

pub next_delay-none :
    (p : RetryPolicy) (draw : ℕ → ℕ) (attempt : ℕ) (elapsed : Duration) (d : RetryDecision)
    → next_delay p draw attempt elapsed d ≡ none
    → (d ≡ do_not_retry)
      ⊎ (p.max_attempts ≤ attempt)
      ⊎ (exceeds p.max_elapsed elapsed (delay_after p.backoff draw attempt) ≡ true)
unfolding next_delay
next_delay-none p draw attempt elapsed d h = ground arith
