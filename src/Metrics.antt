-- ===== src/Metrics.antt =====
-- src/metrics_adapter.rs: what the metrics observer makes of an event.
pub mod Kinds
pub mod Totals
pub mod Vocabulary
pub mod Series
use svc_resillience_rs.Prelude.{
  ℕ, Bool, Option, none, some, List, [], ◌∷◌, ◌++◌, String, if◌then◌else◌, Duration,
}
use svc_resillience_rs.Breaker.{CircuitState, closed, opened, half_open}
use svc_resillience_rs.Route.{RouteId}
use svc_resillience_rs.Observability.{
  role_as_str, rejection_as_str, suppression_as_str, outcome_as_str, stage_as_str, sampling_as_str,
  ResilienceEvent, attempt_admitted, attempt_rejected, attempt_completed, retry_scheduled,
  retry_suppressed, breaker_transition, bulkhead_admission, route_selected, route_failover,
  shadow_sampled, shadow_completed, Observer,
}

unfoldable pub route_label : Option RouteId → String
route_label none = "none"
route_label (some id) = id.id

unfoldable pub circuit_state : CircuitState → String
circuit_state closed = "closed"
circuit_state opened = "open"
circuit_state half_open = "half_open"

unfoldable pub bool_label : Bool → String
bool_label value = if value then "true" else "false"

abbrev pub Labels : Type 0
Labels = List (String × String)

-- One call of the metrics facade: an increment of a counter, or a number for a histogram. `F` is
-- `f64`.
pub data Emission (F : Type 0) : Type 0 where
  counter : (name : String) (labels : Labels) (increment : ℕ) → Emission F
  histogram : (name : String) (labels : Labels) (value : F) → Emission F

-- `as_secs_f64` is that of `Duration`.
module _ {F : Type 0} (as_secs_f64 : Duration → F) where
  -- `MetricsObserver::observe`, the calls in their order.
  unfoldable pub emissions : ResilienceEvent → List (Emission F)
  unfolding route_label circuit_state bool_label
  emissions (attempt_admitted role route_id attempt_ordinal) =
      counter "softwheel_resilience_attempt_admitted_total"
        (("role", role_as_str role) ∷ ("route_id", route_id.id) ∷ []) 1
      ∷ []
  emissions (attempt_rejected role route_id reason) =
      counter "softwheel_resilience_attempt_rejected_total"
        (("role", role_as_str role)
          ∷ ("route_id", route_label route_id)
          ∷ ("reason", rejection_as_str reason)
          ∷ [])
        1
      ∷ []
  emissions (attempt_completed role route_id attempt_ordinal outcome latency) =
      counter "softwheel_resilience_attempt_completed_total"
        (("role", role_as_str role)
          ∷ ("route_id", route_id.id)
          ∷ ("outcome", outcome_as_str outcome)
          ∷ [])
        1
      ∷ histogram "softwheel_resilience_attempt_latency_seconds"
          (("role", role_as_str role)
            ∷ ("route_id", route_id.id)
            ∷ ("outcome", outcome_as_str outcome)
            ∷ [])
          (as_secs_f64 latency)
      ∷ []
  emissions (retry_scheduled role route_id retry_ordinal backoff) =
      counter "softwheel_resilience_retry_scheduled_total"
        (("role", role_as_str role) ∷ ("route_id", route_id.id) ∷ []) 1
      ∷ histogram "softwheel_resilience_retry_backoff_seconds"
          (("role", role_as_str role) ∷ ("route_id", route_id.id) ∷ []) (as_secs_f64 backoff)
      ∷ []
  emissions (retry_suppressed role route_id retry_ordinal reason) =
      counter "softwheel_resilience_retry_suppressed_total"
        (("role", role_as_str role)
          ∷ ("route_id", route_id.id)
          ∷ ("reason", suppression_as_str reason)
          ∷ [])
        1
      ∷ []
  emissions (breaker_transition role route_id from to) =
      counter "softwheel_resilience_breaker_transition_total"
        (("role", role_as_str role)
          ∷ ("route_id", route_id.id)
          ∷ ("from", circuit_state from)
          ∷ ("to", circuit_state to)
          ∷ [])
        1
      ∷ []
  emissions (bulkhead_admission role route_id admitted) =
      counter "softwheel_resilience_bulkhead_admission_total"
        (("role", role_as_str role)
          ∷ ("route_id", route_id.id)
          ∷ ("admitted", bool_label admitted)
          ∷ [])
        1
      ∷ []
  emissions (route_selected role generation route_id) =
      counter "softwheel_resilience_route_selected_total"
        (("role", role_as_str role) ∷ ("route_id", route_id.id) ∷ []) 1
      ∷ []
  emissions (route_failover generation failover_ordinal from_route_id to_route_id outcome) =
      counter "softwheel_resilience_route_failover_total"
        (("from_route_id", from_route_id.id)
          ∷ ("to_route_id", route_label to_route_id)
          ∷ ("outcome", outcome_as_str outcome)
          ∷ [])
        1
      ∷ []
  emissions (shadow_sampled generation outcome) =
      counter "softwheel_resilience_shadow_sampling_total"
        (("outcome", sampling_as_str outcome) ∷ []) 1
      ∷ []
  emissions (shadow_completed generation route_id outcome) =
      counter "softwheel_resilience_shadow_completed_total"
        (("route_id", route_id.id) ∷ ("outcome", outcome_as_str outcome) ∷ []) 1
      ∷ []
  emissions (ResilienceEvent.logical_deadline_exhausted role stage) =
      counter "softwheel_resilience_logical_deadline_exhausted_total"
        (("role", role_as_str role) ∷ ("stage", stage_as_str stage) ∷ []) 1
      ∷ []

  -- `MetricsObserver`, as a sink that keeps what it hands to the facade, in order.
  unfoldable pub metrics_observer : Observer (List (Emission F))
  unfolding emissions
  metrics_observer = record { observe = λ sent event. sent ++ emissions event }
