-- ===== src/Tower/Bounds.antt =====
-- src/tower_adapter.rs: retries, backoff and readiness waits do not extend the logical deadline.
use svc_resillience_rs.Prelude.{ℕ, ◌+◌, ◌≤◌, ◌<◌, ◌≡◌, some, arith, Duration}
use svc_resillience_rs.Deadline.{is_exhausted, clamp_child, can_wait}
use svc_resillience_rs.Retry.{RetryPolicy}
use svc_resillience_rs.Tokio.{elapsed}
use svc_resillience_rs.Tower.Kept.{given_at, WaitsKeep, loop_keeps}
use svc_resillience_rs.Tower.Loop.{service_call_returns}
use svc_resillience_rs.Tower.{TowerRequestFactory, Downstream, ServiceRun, service_call}

-- The timers: a wait that was given a time ends within it, up to `late`, and the clock does not go
-- back.
pub record KeepsTime {S T E : Type 0} (d : Downstream S T E) (late : ℕ) : Type 0 where
  pub call_forward : (s : S) (given : Duration) → d.now s ≤ d.now (d.call s given).1
  pub call_ends : (s : S) (given : Duration) → d.now (d.call s given).1 ≤ d.now s + given + late
  pub ready_forward : (s : S) (given : Duration) → d.now s ≤ d.now (d.ready_within s given).1
  pub ready_ends :
      (s : S) (given : Duration) → d.now (d.ready_within s given).1 ≤ d.now s + given + late
  pub sleep_forward : (s : S) (delay : Duration) → d.now s ≤ d.now (d.sleep s delay)
  pub sleep_ends : (s : S) (delay : Duration) → d.now (d.sleep s delay) ≤ d.now s + delay + late

module _ {S T E : Type 0} (r : TowerRequestFactory) (d : Downstream S T E) (limit late : ℕ)
    (bound : r.budget.core.limit ≡ some limit) (timers : KeepsTime d late) where
  -- The clock is within the logical deadline, up to `late`.
  abbrev InTime : S → Type 0
  InTime s = (r.budget.started ≤ d.now s) × (d.now s ≤ r.budget.started + limit + late)

  waits-InTime : WaitsKeep r d InTime
  unfolding is_exhausted clamp_child can_wait elapsed
  waits-InTime = record {
    call_keeps = λ s h begun.
        let given = given_at r d s r.attempt_timeout in
        ground (arith, timers.call_forward s given, timers.call_ends s given);
    ready_keeps = λ s requested h begun.
        let given = given_at r d s requested in
        ground (arith, timers.ready_forward s given, timers.ready_ends s given);
    sleep_keeps =
        λ s delay h waits. ground (arith, timers.sleep_forward s delay, timers.sleep_ends s delay);
  }

-- A request with a limit that starts within it is answered within it, up to the lateness of one timer:
-- however many attempts, backoff sleeps and readiness waits there are, the clock at the end is at
-- most `late` beyond the deadline, if every timed wait ends at most `late` after its time, the clock
-- does not go back, and the policy allows at least one attempt.
pub service_call_in_time :
    {S T E : Type 0} (p : RetryPolicy) (r : TowerRequestFactory) (d : Downstream S T E) (s : S)
    (limit late : ℕ)
    → r.budget.core.limit ≡ some limit
    → KeepsTime d late
    → 0 < p.max_attempts
    → r.budget.started ≤ d.now s
    → d.now s ≤ r.budget.started + limit
    → (x : ServiceRun S T E) × (service_call p r d s ≡ some x)
      × (d.now x.state ≤ r.budget.started + limit + late)
unfolding service_call
service_call_in_time p r d s limit late bound timers pos begun open_still =
    let (x, returns, _, _, _) = service_call_returns p r d s pos in
    let within : (r.budget.started ≤ d.now s) × (d.now s ≤ r.budget.started + limit + late) =
      (begun, omega arith) in
    let after =
      loop_keeps p r d (d.std_now s) limit bound _ (waits-InTime r d limit late bound timers)
        p.max_attempts 1 s x within returns in
    (x, returns, after.1)
