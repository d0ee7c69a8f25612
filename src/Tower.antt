-- ===== src/Tower.antt =====
-- src/tower_adapter.rs: the retry service of the Tower adapter. The wrapped service, its readiness,
-- the clock and the sleep are of other crates: `Downstream` has what the loop uses of them, as
-- changes of the caller's state. The request that `make` creates is part of the downstream call.
pub mod Stops
pub mod Loop
pub mod Unlimited
pub mod Service
pub mod Readiness
pub mod Kept
pub mod Bounds
pub mod Waits
use Prim.Native.String.{◌++◌}
use svc_resillience_rs.Prelude.{
  ℕ, zero, suc, ◌+◌, ◌-◌, not, Option, none, some, String, if◌then◌else◌, Result, ok, err, ok_or,
  map_err, Duration,
}
use svc_resillience_rs.Deadline.{is_exhausted, clamp_child, can_wait}
use svc_resillience_rs.Deadline as Deadline
use svc_resillience_rs.Retry.{RetryDecision, RetryPolicy, next_delay}
use svc_resillience_rs.Tokio.{
  TokioExecutionStop, logical_deadline_exceeded, TokioRequestBudget, elapsed, stop_of,
  sleep_backoff,
}
use svc_resillience_rs.Tokio as Tokio

pub record TowerRequestFactory : Type 0 where
  pub budget : TokioRequestBudget
  pub attempt_timeout : Duration

pub data TowerRetryError (E : Type 0) : Type 0 where
  readiness call : E → TowerRetryError E
  runtime : TokioExecutionStop → TowerRetryError E

-- `stop` is the `Debug` text of a stop.
unfoldable pub display_retry_error :
    {E : Type 0} → (E → String) → (TokioExecutionStop → String) → TowerRetryError E → String
display_retry_error display stop (readiness error) = "service readiness failed: " ++ display error
display_retry_error display stop (call error) = "service call failed: " ++ display error
display_retry_error display stop (runtime s) = "runtime stopped execution: " ++ stop s

pub record Downstream (S T E : Type 0) : Type 0 where
  -- `tokio::time::Instant::now`, and `std::time::Instant::now`, which the retry policy's elapsed time
  -- is measured with; nothing relates the two.
  pub now : S → ℕ
  pub std_now : S → ℕ
  -- A call, and a wait for readiness, that get a time: `none` if the time ran out.
  pub call : S → Duration → Option (Result T E) × S
  pub ready_within : S → Duration → Option (Result {0, 0} Unit E) × S
  pub ready : S → Result {0, 0} Unit E × S
  pub sleep : S → Duration → S
  pub classify : E → RetryDecision
  pub draw : ℕ → ℕ → ℕ

-- `TokioRequestBudget::timeout` on a future that changes the state; one that is never polled does not.
unfoldable pub timeout_state :
    {A S : Type 0}
    → TokioRequestBudget
    → ℕ
    → Duration
    → (Duration → Option A × S)
    → S
    → Result A TokioExecutionStop × S
timeout_state b now requested future s =
    let (output, s') = future (clamp_child b.core (elapsed b now) requested) in
    if is_exhausted b.core (elapsed b now)
    then (err logical_deadline_exceeded, s)
    else (ok_or output (stop_of (Deadline.remaining b.core (elapsed b now)) requested), s')

-- How one round of the loop ends: the service's answer, or another round.
pub data Round (S T E : Type 0) : Type 0 where
  finish : Result T (TowerRetryError E) → S → Round S T E
  again : S → Round S T E

-- What a call of the service has done: its answer, the state and the number of calls downstream.
pub record ServiceRun (S T E : Type 0) : Type 0 where
  pub result : Result T (TowerRetryError E)
  pub state : S
  pub calls : ℕ

module _ {S T E : Type 0} (p : RetryPolicy) (r : TowerRequestFactory) (d : Downstream S T E)
    (started : ℕ) where
  -- The end of a round, after the wait for readiness.
  unfoldable pub after_ready : Result (Result {0, 0} Unit E) TokioExecutionStop × S → Round S T E
  after_ready (err stop, s) = finish (err (runtime stop)) s
  after_ready (ok (err error), s) = finish (err (readiness error)) s
  after_ready (ok (ok u), s) = again s

  -- The wait for readiness, within the budget that remains, if there is a limit.
  unfoldable pub await_ready : S → Round S T E
  unfolding after_ready
  await_ready s = elim (Tokio.remaining r.budget (d.now s)) [
    | some left ↦ after_ready (timeout_state r.budget (d.now s) left (d.ready_within s) s)
    | none ↦ let (outcome, s') = d.ready s in after_ready (ok outcome, s')
  ]

  -- The backoff sleep; one that is refused does not sleep.
  unfoldable pub pause : S → Duration → Round S T E
  pause s delay =
      let woken = d.sleep s delay in
      elim (sleep_backoff r.budget (d.now s) (d.now woken) delay) [
        | err stop ↦
            finish (err (runtime stop))
              (if can_wait r.budget.core (elapsed r.budget (d.now s)) delay then woken else s)
        | ok u ↦ await_ready woken
      ]

  -- The loop's match on the result of a downstream call.
  unfoldable pub after_call : ℕ → Result (Result T E) TokioExecutionStop × S → Round S T E
  after_call attempt (err stop, s) = finish (err (runtime stop)) s
  after_call attempt (ok (ok response), s) = finish (ok response) s
  after_call attempt (ok (err error), s) =
      elim (next_delay p (d.draw attempt) attempt (d.std_now s - started) (d.classify error)) [
        | none ↦ finish (err (call error)) s
        | some delay ↦ pause s delay
      ]

  unfoldable pub round : ℕ → S → Round S T E
  round attempt s =
      after_call attempt (timeout_state r.budget (d.now s) r.attempt_timeout (d.call s) s)

  -- The loop from an attempt on. `none` means that the fuel ran out.
  unfoldable pub service_loop : ℕ → ℕ → S → Option (ServiceRun S T E)
  service_loop zero attempt s = none
  service_loop (suc fuel) attempt s = elim (round attempt s) [
    | finish result s' ↦ some (record { result = result; state = s'; calls = attempt })
    | again s' ↦ service_loop fuel (attempt + 1) s'
  ]

-- `Service::call` of `TowerRetryService`: as many rounds as attempts are allowed are enough.
unfoldable pub service_call :
    {S T E : Type 0}
    → RetryPolicy
    → TowerRequestFactory
    → Downstream S T E
    → S
    → Option (ServiceRun S T E)
service_call p r d s = service_loop p r d (d.std_now s) p.max_attempts 1 s
