-- ===== src/Metrics/Vocabulary.antt =====
-- src/metrics_adapter.rs: the closed vocabulary of the label values that are not about a route.
use text.Mathlib.Text.{◌==◌ as str_eq}
use text.Mathlib.TextPositions.{eq_refl}
use svc_resillience_rs.Prelude.{◌≡◌, refl, Bool, true, false, ◌||◌, List, [], ◌∷◌, String}
use svc_resillience_rs.Breaker.{CircuitState, closed}
use svc_resillience_rs.Route.{RouteId}
use svc_resillience_rs.Observability.{
  TrafficRole, primary, shadow, role_as_str, RejectionReason, rejection_as_str,
  RetrySuppressionReason, suppression_as_str, OutcomeClass, outcome_as_str, BudgetStage,
  stage_as_str, ShadowSamplingOutcome, sampling_as_str,
}
use svc_resillience_rs.Metrics.{circuit_state, bool_label}

-- Whether a text is one of a list.
abbrev pub member : String → List String → Bool
member s [] = false
member s (t ∷ ts) = str_eq s t || member s ts

abbrev pub is_route_key : String → Bool
is_route_key key = member key ("route_id" ∷ "from_route_id" ∷ "to_route_id" ∷ [])

-- Every label value that is not about a route.
abbrev pub vocabulary : List String
vocabulary =
    "primary" ∷ "shadow" ∷ "circuit_open" ∷ "bulkhead_full" ∷ "retry_policy_exhausted"
    ∷ "retry_budget_exhausted" ∷ "logical_deadline_exhausted" ∷ "route_attempt_budget_exhausted"
    ∷ "no_eligible_route" ∷ "succeeded" ∷ "failed" ∷ "cancelled" ∷ "deadline_exceeded"
    ∷ "overloaded" ∷ "before_attempt" ∷ "before_backoff" ∷ "before_failover" ∷ "before_shadow"
    ∷ "sampled" ∷ "not_sampled" ∷ "closed" ∷ "open" ∷ "half_open" ∷ "true" ∷ "false" ∷ []

pub role_member : (r : TrafficRole) → member (role_as_str r) vocabulary ≡ true
unfolding role_as_str
role_member primary = refl
role_member shadow = refl

pub rejection_member : (r : RejectionReason) → member (rejection_as_str r) vocabulary ≡ true
unfolding rejection_as_str
rejection_member RejectionReason.circuit_open = refl
rejection_member r = refl

pub suppression_member :
    (r : RetrySuppressionReason) → member (suppression_as_str r) vocabulary ≡ true
unfolding suppression_as_str
suppression_member RetrySuppressionReason.retry_policy_exhausted = refl
suppression_member r = refl

pub outcome_member : (o : OutcomeClass) → member (outcome_as_str o) vocabulary ≡ true
unfolding outcome_as_str
outcome_member OutcomeClass.succeeded = refl
outcome_member o = refl

pub stage_member : (s : BudgetStage) → member (stage_as_str s) vocabulary ≡ true
unfolding stage_as_str
stage_member BudgetStage.before_attempt = refl
stage_member s = refl

pub sampling_member : (o : ShadowSamplingOutcome) → member (sampling_as_str o) vocabulary ≡ true
unfolding sampling_as_str
sampling_member ShadowSamplingOutcome.sampled = refl
sampling_member o = refl

pub state_member : (s : CircuitState) → member (circuit_state s) vocabulary ≡ true
unfolding circuit_state
state_member closed = refl
state_member s = refl

pub bool_member : (b : Bool) → member (bool_label b) vocabulary ≡ true
unfolding bool_label
bool_member true = refl
bool_member false = refl

pub or_true : (b : Bool) → (b || true) ≡ true
or_true true = refl
or_true false = refl

pub route_member : (i : RouteId) (ts : List String) → member i.id ("none" ∷ i.id ∷ ts) ≡ true
route_member i ts = simp (eq_refl, or_true)
