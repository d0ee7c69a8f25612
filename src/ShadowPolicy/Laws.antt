-- ===== src/ShadowPolicy/Laws.antt =====
-- src/shadow_policy.rs: how far shadow traffic is bounded.
use svc_resillience_rs.Prelude.{
  ℕ, ◌+◌, ◌≤◌, ◌<◌, ◌≡◌, ◌⊎◌, false, Option, none, some, arith, ok, Duration, duration_max,
}
use svc_resillience_rs.Retry.{RetryPolicy, RetryDecision, retry, next_delay}
use svc_resillience_rs.Retry.Delays.{next_delay-some}
use svc_resillience_rs.ShadowPolicy.{
  ShadowExecutionPolicy, execution_new, with_retry_policy, effective_deadline, retries_enabled,
  within_deadline, next_retry_delay,
}

-- A policy that `ShadowExecutionPolicy::new` accepts allows no retry, whatever happens, and its
-- effective deadline is at most its own and at most what the primary request has left, and is
-- positive as long as the primary has time left.
pub execution_new-conservative :
    (deadline : Duration) (p : ShadowExecutionPolicy) (draw : ℕ → ℕ) (attempt : ℕ)
    (elapsed left : Duration) (decision : RetryDecision)
    → execution_new deadline ≡ ok p
    → (retries_enabled p ≡ false)
      × (next_retry_delay p draw attempt elapsed decision ≡ none)
      × (effective_deadline p left ≤ deadline)
      × (effective_deadline p left ≤ left)
      × ((left ≡ 0) ⊎ (0 < effective_deadline p left))
unfolding execution_new retries_enabled next_retry_delay effective_deadline
execution_new-conservative deadline p draw attempt elapsed left decision h = ground arith

within_deadline-some :
    (deadline elapsed delay : Duration) (x : Option Duration)
    → within_deadline deadline elapsed x ≡ some delay
    → (x ≡ some delay) × ((duration_max ≤ deadline) ⊎ (elapsed + delay ≤ deadline))
unfolding within_deadline
within_deadline-some deadline elapsed delay none h = cc
within_deadline-some deadline elapsed delay (some d) h = ground arith

-- A policy that opts into retries grants one only if its retry policy grants the same delay, for an
-- attempt below the allowed number and an error that is to be retried; and the sleep is over by the
-- shadow deadline, unless that deadline is the largest duration there is.
pub next_retry_delay_bounded :
    (p : ShadowExecutionPolicy) (q : RetryPolicy) (draw : ℕ → ℕ) (attempt : ℕ)
    (elapsed delay : Duration) (decision : RetryDecision)
    → next_retry_delay (with_retry_policy p q) draw attempt elapsed decision ≡ some delay
    → (next_delay q draw attempt elapsed decision ≡ some delay)
      × (attempt < q.max_attempts)
      × (decision ≡ retry)
      × ((duration_max ≤ p.deadline) ⊎ (elapsed + delay ≤ p.deadline))
unfolding next_retry_delay with_retry_policy
next_retry_delay_bounded p q draw attempt elapsed delay decision h =
    let (granted, over) =
      within_deadline-some p.deadline elapsed delay (next_delay q draw attempt elapsed decision)
        h in
    let grant = next_delay-some q draw attempt elapsed decision delay granted in
    (granted, grant.1, grant.0, over)
