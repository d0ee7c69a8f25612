-- ===== src/Observability/Labels.antt =====
-- src/observability.rs: reading the labels back. No two values of a vocabulary share a label.
use text.Mathlib.Text.{◌==◌ as str_eq}
use svc_resillience_rs.Prelude.{◌≡◌, refl, Option, none, some, String, if◌then◌else◌}
use svc_resillience_rs.Observability.{
  TrafficRole, primary, shadow, role_as_str, RejectionReason, rejection_as_str,
  RetrySuppressionReason, suppression_as_str, OutcomeClass, succeeded, failed, cancelled,
  deadline_exceeded, overloaded, outcome_as_str, BudgetStage, before_attempt, before_backoff,
  before_failover, before_shadow, stage_as_str, ShadowSamplingOutcome, sampled, not_sampled,
  sampling_as_str,
}

pub role_of : String → Option TrafficRole
role_of s =
    if str_eq s "primary" then some primary else if str_eq s "shadow" then some shadow else none

pub role_of-role_as_str : (r : TrafficRole) → role_of (role_as_str r) ≡ some r
unfolding role_as_str role_of
role_of-role_as_str primary = refl
role_of-role_as_str shadow = refl

pub rejection_of : String → Option RejectionReason
rejection_of s =
    if str_eq s "circuit_open"
    then some RejectionReason.circuit_open
    else if str_eq s "bulkhead_full"
    then some RejectionReason.bulkhead_full
    else if str_eq s "retry_budget_exhausted"
    then some RejectionReason.retry_budget_exhausted
    else if str_eq s "logical_deadline_exhausted"
    then some RejectionReason.logical_deadline_exhausted
    else if str_eq s "route_attempt_budget_exhausted"
    then some RejectionReason.route_attempt_budget_exhausted
    else if str_eq s "no_eligible_route"
    then some RejectionReason.no_eligible_route
    else none

pub rejection_of-rejection_as_str :
    (r : RejectionReason) → rejection_of (rejection_as_str r) ≡ some r
unfolding rejection_as_str rejection_of
rejection_of-rejection_as_str RejectionReason.circuit_open = refl
rejection_of-rejection_as_str RejectionReason.bulkhead_full = refl
rejection_of-rejection_as_str RejectionReason.retry_budget_exhausted = refl
rejection_of-rejection_as_str RejectionReason.logical_deadline_exhausted = refl
rejection_of-rejection_as_str RejectionReason.route_attempt_budget_exhausted = refl
rejection_of-rejection_as_str RejectionReason.no_eligible_route = refl

pub suppression_of : String → Option RetrySuppressionReason
suppression_of s =
    if str_eq s "retry_policy_exhausted"
    then some RetrySuppressionReason.retry_policy_exhausted
    else if str_eq s "retry_budget_exhausted"
    then some RetrySuppressionReason.retry_budget_exhausted
    else if str_eq s "logical_deadline_exhausted"
    then some RetrySuppressionReason.logical_deadline_exhausted
    else none

pub suppression_of-suppression_as_str :
    (r : RetrySuppressionReason) → suppression_of (suppression_as_str r) ≡ some r
unfolding suppression_as_str suppression_of
suppression_of-suppression_as_str RetrySuppressionReason.retry_policy_exhausted = refl
suppression_of-suppression_as_str RetrySuppressionReason.retry_budget_exhausted = refl
suppression_of-suppression_as_str RetrySuppressionReason.logical_deadline_exhausted = refl

pub outcome_of : String → Option OutcomeClass
outcome_of s =
    if str_eq s "succeeded"
    then some succeeded
    else if str_eq s "failed"
    then some failed
    else if str_eq s "cancelled"
    then some cancelled
    else if str_eq s "deadline_exceeded"
    then some deadline_exceeded
    else if str_eq s "overloaded"
    then some overloaded
    else none

pub outcome_of-outcome_as_str : (o : OutcomeClass) → outcome_of (outcome_as_str o) ≡ some o
unfolding outcome_as_str outcome_of
outcome_of-outcome_as_str succeeded = refl
outcome_of-outcome_as_str failed = refl
outcome_of-outcome_as_str cancelled = refl
outcome_of-outcome_as_str deadline_exceeded = refl
outcome_of-outcome_as_str overloaded = refl

pub stage_of : String → Option BudgetStage
stage_of s =
    if str_eq s "before_attempt"
    then some before_attempt
    else if str_eq s "before_backoff"
    then some before_backoff
    else if str_eq s "before_failover"
    then some before_failover
    else if str_eq s "before_shadow"
    then some before_shadow
    else none

pub stage_of-stage_as_str : (s : BudgetStage) → stage_of (stage_as_str s) ≡ some s
unfolding stage_as_str stage_of
stage_of-stage_as_str before_attempt = refl
stage_of-stage_as_str before_backoff = refl
stage_of-stage_as_str before_failover = refl
stage_of-stage_as_str before_shadow = refl

pub sampling_of : String → Option ShadowSamplingOutcome
sampling_of s =
    if str_eq s "sampled"
    then some sampled
    else if str_eq s "not_sampled"
    then some not_sampled
    else none

pub sampling_of-sampling_as_str :
    (o : ShadowSamplingOutcome) → sampling_of (sampling_as_str o) ≡ some o
unfolding sampling_as_str sampling_of
sampling_of-sampling_as_str sampled = refl
sampling_of-sampling_as_str not_sampled = refl

pub ruleset labels = (
  role_of-role_as_str, rejection_of-rejection_as_str, suppression_of-suppression_as_str,
  outcome_of-outcome_as_str, stage_of-stage_as_str, sampling_of-sampling_as_str,
)
