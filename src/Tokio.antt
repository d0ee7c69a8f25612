-- ===== src/Tokio.antt =====
-- src/tokio_runtime.rs: a request's budget bound to Tokio's clock. An instant is a number of
-- nanoseconds, and a reading of the clock is an argument. What `tokio::time::timeout` makes of the
-- caller's future is an argument too: from the time that the future gets, its output, or `none` if
-- the time ran out.
pub mod Laws
use svc_resillience_rs.Prelude.{
  ℕ, ◌-◌, Bool, not, Option, none, some, leb, if◌then◌else◌, Result, ok, err, ok_or, Duration,
}
use svc_resillience_rs.Deadline.{LogicalRequestBudget, is_exhausted, clamp_child, can_wait}
use svc_resillience_rs.Deadline as Deadline

pub data TokioExecutionStop : Type 0 where
  caller_cancelled logical_deadline_exceeded child_timeout : TokioExecutionStop
  backoff_would_exhaust_budget : TokioExecutionStop

pub record TokioRequestBudget : Type 0 where
  pub core : LogicalRequestBudget
  pub started : ℕ

-- `start` is this with the present instant.
unfoldable pub from_start : LogicalRequestBudget → ℕ → TokioRequestBudget
from_start core started = record { core = core; started = started }

unfoldable pub elapsed : TokioRequestBudget → ℕ → Duration
elapsed b now = now - b.started

unfoldable pub remaining : TokioRequestBudget → ℕ → Option Duration
unfolding elapsed
remaining b now = Deadline.remaining b.core (elapsed b now)

-- The stop that a timeout reports.
unfoldable pub stop_of : Option Duration → Duration → TokioExecutionStop
stop_of none requested = child_timeout
stop_of (some left) requested =
    if leb left requested then logical_deadline_exceeded else child_timeout

unfoldable pub timeout {ℓ} :
    {T : Type ℓ}
    → TokioRequestBudget
    → ℕ
    → Duration
    → (Duration → Option T)
    → Result T TokioExecutionStop
unfolding elapsed stop_of
timeout b now requested future =
    if is_exhausted b.core (elapsed b now)
    then err logical_deadline_exceeded
    else ok_or (future (clamp_child b.core (elapsed b now) requested))
        (stop_of (Deadline.remaining b.core (elapsed b now)) requested)

-- The biased `select!`: `cancelled` says whether the cancellation completes first.
unfoldable pub timeout_or_cancel {ℓ} :
    {T : Type ℓ}
    → TokioRequestBudget
    → ℕ
    → Duration
    → (Duration → Option T)
    → Bool
    → Result T TokioExecutionStop
timeout_or_cancel b now requested future cancelled =
    if cancelled then err caller_cancelled else timeout b now requested future

-- `sleep_backoff`; `woken` is the reading after the sleep.
unfoldable pub sleep_backoff :
    TokioRequestBudget → ℕ → ℕ → Duration → Result {0, 0} Unit TokioExecutionStop
unfolding elapsed
sleep_backoff b now woken delay =
    if not (can_wait b.core (elapsed b now) delay)
    then err backoff_would_exhaust_budget
    else if is_exhausted b.core (elapsed b woken)
    then err logical_deadline_exceeded
    else ok tt
