-- ===== src/ShadowPolicy.antt =====
-- src/shadow_policy.rs: the deadline and the retries of shadow traffic.
pub mod Laws
pub mod Runs
use svc_resillience_rs.Prelude.{
  ℕ, min, Bool, true, false, Option, none, some, String, leb, ◌==◌, if◌then◌else◌, Result, ok, err,
  Duration, saturating_add_duration,
}
use svc_resillience_rs.Retry.{RetryPolicy, RetryDecision, next_delay}

pub data ShadowPolicyError : Type 0 where
  zero_deadline : ShadowPolicyError

unfoldable pub display_policy_error : ShadowPolicyError → String
display_policy_error zero_deadline = "shadow deadline must be greater than zero"

pub record ShadowExecutionPolicy : Type 0 where
  pub deadline : Duration
  pub retry_policy : Option RetryPolicy

-- `ShadowExecutionPolicy::new`.
unfoldable pub execution_new : Duration → Result ShadowExecutionPolicy ShadowPolicyError
execution_new deadline =
    if deadline == 0
    then err zero_deadline
    else ok (record { deadline = deadline; retry_policy = none })

unfoldable pub with_retry_policy : ShadowExecutionPolicy → RetryPolicy → ShadowExecutionPolicy
with_retry_policy p retry_policy = record p { retry_policy = some retry_policy }

unfoldable pub effective_deadline : ShadowExecutionPolicy → Duration → Duration
effective_deadline p primary_remaining = min p.deadline primary_remaining

unfoldable pub retries_enabled : ShadowExecutionPolicy → Bool
retries_enabled p = elim p.retry_policy [ none ↦ false | some q ↦ true ]

-- `then_some` on the test of the deadline.
unfoldable pub within_deadline : Duration → Duration → Option Duration → Option Duration
within_deadline deadline elapsed none = none
within_deadline deadline elapsed (some delay) =
    if leb (saturating_add_duration elapsed delay) deadline then some delay else none

-- `ShadowExecutionPolicy::next_retry_delay`; `draw` is the source of the jitter.
unfoldable pub next_retry_delay :
    ShadowExecutionPolicy → (ℕ → ℕ) → ℕ → Duration → RetryDecision → Option Duration
unfolding within_deadline
next_retry_delay p draw attempt elapsed decision = elim p.retry_policy [
  | none ↦ none
  | some q ↦ within_deadline p.deadline elapsed (next_delay q draw attempt elapsed decision)
]
