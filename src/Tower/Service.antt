-- ===== src/Tower/Service.antt =====
-- src/tower_adapter.rs: the layer, the service that it makes, its readiness, and which instance of
-- the wrapped service a call uses. The wrapped service is a value that polls and calls change.
use svc_resillience_rs.Prelude.{ℕ, zero, suc, Option, none, some, Result, ok, err, Duration}
use svc_resillience_rs.Retry.{RetryDecision, RetryPolicy}
use svc_resillience_rs.Tokio.{TokioRequestBudget}
use svc_resillience_rs.Tower.{
  TowerRequestFactory, TowerRetryError, readiness, Downstream, ServiceRun, service_call,
}

-- `TowerRequestFactory::new`, without the request that `make` creates.
unfoldable pub factory_new : TokioRequestBudget → Duration → TowerRequestFactory
factory_new budget attempt_timeout = record { budget = budget; attempt_timeout = attempt_timeout }

pub record TowerRetryLayer (E : Type 0) : Type 0 where
  pub policy : RetryPolicy
  pub classify : E → RetryDecision

-- `TowerRetryLayer::new`.
unfoldable pub layer_new : {E : Type 0} → RetryPolicy → (E → RetryDecision) → TowerRetryLayer E
layer_new policy classify = record { policy = policy; classify = classify }

pub record TowerRetryService (I E : Type 0) : Type 0 where
  pub inner : I
  pub policy : RetryPolicy
  pub classify : E → RetryDecision

-- `Layer::layer`.
unfoldable pub layer : {I E : Type 0} → TowerRetryLayer E → I → TowerRetryService I E
layer l inner = record { inner = inner; policy = l.policy; classify = l.classify }

-- `std::task::Poll`.
pub data Poll (A : Type 0) : Type 0 where
  pending : Poll A
  done : A → Poll A

module _ {I E : Type 0} (poll : I → Poll (Result {0, 0} Unit E) × I) where
  unfoldable pub readiness_of :
      Poll (Result {0, 0} Unit E) → Poll (Result {0, 0} Unit (TowerRetryError E))
  readiness_of (done (ok u)) = done (ok tt)
  readiness_of (done (err error)) = done (err (readiness error))
  readiness_of pending = pending

  -- `Service::poll_ready`.
  unfoldable pub poll_ready :
      TowerRetryService I E → Poll (Result {0, 0} Unit (TowerRetryError E)) × TowerRetryService I E
  unfolding readiness_of
  poll_ready s = let (p, inner') = poll s.inner in (readiness_of p, record s { inner = inner' })

  -- `ready_for`: polls until there is an answer. `none` if there is none after that many polls.
  unfoldable pub ready_for :
      ℕ
      → TowerRetryService I E
      → Option (Result {0, 0} Unit (TowerRetryError E) × TowerRetryService I E)
  ready_for zero s = none
  ready_for (suc polls) s =
      let (p, s') = poll_ready s in
      elim p [ pending ↦ ready_for polls s' | done answer ↦ some (answer, s') ]

-- `Service::call`: the service keeps a clone, and the run owns the instance that was ready. `W` is
-- what else a run changes; `d` is the wrapped service with it.
unfoldable pub call :
    {I W T E : Type 0}
    → (clone : I → I) → Downstream (I × W) T E
    → TowerRetryService I E
    → TowerRequestFactory
    → W
    → TowerRetryService I E × Option (ServiceRun (I × W) T E)
call clone d s request w =
    let replacement = clone s.inner in
    (
      record s { inner = replacement },
      service_call s.policy request (record d { classify = s.classify }) (s.inner, w),
    )
