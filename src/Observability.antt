-- ===== src/Observability.antt =====
-- src/observability.rs: the events that the policies report, the closed vocabularies of their
-- labels, and the observer, which is a callback. Durations are numbers of nanoseconds.
pub mod Labels
use svc_resillience_rs.Prelude.{ℕ, Bool, Option, List, [], ◌∷◌, String, Duration}
use svc_resillience_rs.Breaker.{CircuitState}
use svc_resillience_rs.Route.{RouteId}

pub data TrafficRole : Type 0 where
  primary shadow : TrafficRole

unfoldable pub role_as_str : TrafficRole → String
role_as_str primary = "primary"
role_as_str shadow = "shadow"

pub data RejectionReason : Type 0 where
  circuit_open bulkhead_full retry_budget_exhausted logical_deadline_exhausted : RejectionReason
  route_attempt_budget_exhausted no_eligible_route : RejectionReason

unfoldable pub rejection_as_str : RejectionReason → String
rejection_as_str RejectionReason.circuit_open = "circuit_open"
rejection_as_str RejectionReason.bulkhead_full = "bulkhead_full"
rejection_as_str RejectionReason.retry_budget_exhausted = "retry_budget_exhausted"
rejection_as_str RejectionReason.logical_deadline_exhausted = "logical_deadline_exhausted"
rejection_as_str RejectionReason.route_attempt_budget_exhausted = "route_attempt_budget_exhausted"
rejection_as_str RejectionReason.no_eligible_route = "no_eligible_route"

pub data RetrySuppressionReason : Type 0 where
  retry_policy_exhausted retry_budget_exhausted : RetrySuppressionReason
  logical_deadline_exhausted : RetrySuppressionReason

unfoldable pub suppression_as_str : RetrySuppressionReason → String
suppression_as_str RetrySuppressionReason.retry_policy_exhausted = "retry_policy_exhausted"
suppression_as_str RetrySuppressionReason.retry_budget_exhausted = "retry_budget_exhausted"
suppression_as_str RetrySuppressionReason.logical_deadline_exhausted = "logical_deadline_exhausted"

pub data OutcomeClass : Type 0 where
  succeeded failed cancelled deadline_exceeded overloaded : OutcomeClass

unfoldable pub outcome_as_str : OutcomeClass → String
outcome_as_str succeeded = "succeeded"
outcome_as_str failed = "failed"
outcome_as_str cancelled = "cancelled"
outcome_as_str deadline_exceeded = "deadline_exceeded"
outcome_as_str overloaded = "overloaded"

pub data BudgetStage : Type 0 where
  before_attempt before_backoff before_failover before_shadow : BudgetStage

unfoldable pub stage_as_str : BudgetStage → String
stage_as_str before_attempt = "before_attempt"
stage_as_str before_backoff = "before_backoff"
stage_as_str before_failover = "before_failover"
stage_as_str before_shadow = "before_shadow"

pub data ShadowSamplingOutcome : Type 0 where
  sampled not_sampled : ShadowSamplingOutcome

unfoldable pub sampling_as_str : ShadowSamplingOutcome → String
sampling_as_str sampled = "sampled"
sampling_as_str not_sampled = "not_sampled"

pub data ResilienceEvent : Type 0 where
  attempt_admitted :
      (role : TrafficRole) (route_id : RouteId) (attempt_ordinal : ℕ) → ResilienceEvent
  attempt_rejected :
      (role : TrafficRole) (route_id : Option RouteId) (reason : RejectionReason) → ResilienceEvent
  attempt_completed :
      (role : TrafficRole) (route_id : RouteId) (attempt_ordinal : ℕ) (outcome : OutcomeClass)
      (latency : Duration)
      → ResilienceEvent
  retry_scheduled :
      (role : TrafficRole) (route_id : RouteId) (retry_ordinal : ℕ) (backoff : Duration)
      → ResilienceEvent
  retry_suppressed :
      (role : TrafficRole) (route_id : RouteId) (retry_ordinal : ℕ)
      (reason : RetrySuppressionReason)
      → ResilienceEvent
  breaker_transition :
      (role : TrafficRole) (route_id : RouteId) (from to : CircuitState) → ResilienceEvent
  bulkhead_admission : (role : TrafficRole) (route_id : RouteId) (admitted : Bool) → ResilienceEvent
  route_selected : (role : TrafficRole) (generation : ℕ) (route_id : RouteId) → ResilienceEvent
  route_failover :
      (generation failover_ordinal : ℕ) (from_route_id : RouteId) (to_route_id : Option RouteId)
      (outcome : OutcomeClass)
      → ResilienceEvent
  shadow_sampled : (generation : ℕ) (outcome : ShadowSamplingOutcome) → ResilienceEvent
  shadow_completed :
      (generation : ℕ) (route_id : RouteId) (outcome : OutcomeClass) → ResilienceEvent
  logical_deadline_exhausted : (role : TrafficRole) (stage : BudgetStage) → ResilienceEvent

-- `trait Observer`: what an event makes of the state of the sink.
pub record Observer {ℓ} (S : Type ℓ) : Type ℓ where
  pub observe : S → ResilienceEvent → S

-- `NoopObserver`.
unfoldable pub noop_observer {ℓ} : {S : Type ℓ} → Observer S
noop_observer = record { observe = λ s event. s }

-- What a sequence of events makes of it.
unfoldable pub observe_all {ℓ} : {S : Type ℓ} → Observer S → S → List ResilienceEvent → S
observe_all o s [] = s
observe_all o s (e ∷ es) = observe_all o (o.observe s e) es
