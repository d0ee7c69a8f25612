-- ===== src/ShadowPolicy/Runs.antt =====
-- src/shadow_policy.rs: an executor that retries a shadow request as long as the policy grants it.
use svc_resillience_rs.Prelude.{
  ℕ, ◌+◌, ◌≤◌, ◌<◌, ◌≡◌, ◌⊎◌, inr, some, arith, ok, refl, Duration, duration_max,
}
use svc_resillience_rs.Retry.{RetryPolicy, RetryDecision}
use svc_resillience_rs.ShadowPolicy.{
  ShadowExecutionPolicy, execution_new, with_retry_policy, next_retry_delay,
}
use svc_resillience_rs.ShadowPolicy.Laws.{execution_new-conservative, next_retry_delay_bounded}

-- The attempts made, the time slept between them, and when the last of them began, all since the
-- start. An attempt may take any time, fail in any way and draw any jitter.
pub data ShadowRun (p : ShadowExecutionPolicy) : ℕ → Duration → Duration → Type 0 where
  first : ShadowRun p 1 0 0
  again :
      (attempt : ℕ) (slept began elapsed delay : Duration) (draw : ℕ → ℕ) (decision : RetryDecision)
      → ShadowRun p attempt slept began
      → began ≤ elapsed
      → next_retry_delay p draw attempt elapsed decision ≡ some delay
      → ShadowRun p (attempt + 1) (slept + delay) (elapsed + delay)

-- A policy as `ShadowExecutionPolicy::new` makes it lets a request make one attempt and no sleep.
once :
    (deadline : Duration) (p : ShadowExecutionPolicy) (attempts : ℕ) (slept began : Duration)
    → execution_new deadline ≡ ok p
    → ShadowRun p attempts slept began
    → (attempts ≡ 1) × (slept ≡ 0)
once deadline p _ _ _ h first = (refl, refl)
once deadline p _ _ _ h (again attempt slept began elapsed delay draw decision run l g) =
    let never = (execution_new-conservative deadline p draw attempt elapsed 0 decision h).1 in cc

-- A shadow request makes at most as many attempts as the retry policy that it opted into allows, a
-- positive number, and each of them begins by the shadow deadline, unless that deadline is the largest
-- duration there is. The sleeps before it take no longer together than until it begins.
pub shadow_runs_bounded :
    (p : ShadowExecutionPolicy) (q : RetryPolicy) (attempts : ℕ) (slept began : Duration)
    → 0 < q.max_attempts
    → ShadowRun (with_retry_policy p q) attempts slept began
    → (attempts ≤ q.max_attempts)
      × (slept ≤ began)
      × ((duration_max ≤ p.deadline) ⊎ (began ≤ p.deadline))
shadow_runs_bounded p q _ _ _ pos first = (omega arith, omega arith, inr (omega arith))
shadow_runs_bounded p q _ _ _ pos (again attempt slept began elapsed delay draw decision run l h) =
    let so_far = shadow_runs_bounded p q attempt slept began pos run in
    let (granted, below, same, over) =
      next_retry_delay_bounded p q draw attempt elapsed delay decision h in
    (omega (arith, below), omega (arith, so_far.1, l), over)
