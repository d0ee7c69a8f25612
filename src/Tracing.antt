-- ===== src/Tracing.antt =====
-- src/tracing_adapter.rs: what the tracing observer makes of an event.
pub mod Reader
pub mod Schema
pub mod RoundTrip
use svc_resillience_rs.Prelude.{
  ℕ, ◌/◌, Bool, Option, none, some, List, [], ◌∷◌, ◌++◌, String, if◌then◌else◌, leb, Duration,
  u64_max,
}
use svc_resillience_rs.Breaker.{CircuitState, closed, opened, half_open}
use svc_resillience_rs.Route.{RouteId}
use svc_resillience_rs.Observability.{
  role_as_str, rejection_as_str, suppression_as_str, outcome_as_str, stage_as_str, sampling_as_str,
  ResilienceEvent, attempt_admitted, attempt_rejected, attempt_completed, retry_scheduled,
  retry_suppressed, breaker_transition, bulkhead_admission, route_selected, route_failover,
  shadow_sampled, shadow_completed, Observer,
}

unfoldable pub circuit_state : CircuitState → String
circuit_state closed = "closed"
circuit_state opened = "open"
circuit_state half_open = "half_open"

-- `as_micros` drops what is below a microsecond; `try_from` fails above the largest `u64`.
unfoldable pub duration_micros : Duration → ℕ
duration_micros duration =
    let micros = duration / 1000 in if leb micros u64_max then micros else u64_max

-- A route that may be missing: `map_or("", …)`.
unfoldable pub route_text : Option RouteId → String
route_text none = ""
route_text (some id) = id.id

-- The value of a field: text, a number or a truth value.
pub data Value : Type 0 where
  str : String → Value
  number : ℕ → Value
  flag : Bool → Value

abbrev pub Fields : Type 0
Fields = List (String × Value)

-- One `tracing::info!`.
pub record TraceEvent : Type 0 where
  pub target : String
  pub fields : Fields

abbrev info : Fields → TraceEvent
info fields = record { target = "softwheel_resilience"; fields = fields }

-- `TracingObserver::observe`: the event that a subscriber gets.
unfoldable pub trace : ResilienceEvent → TraceEvent
unfolding circuit_state duration_micros route_text
trace (attempt_admitted role route_id attempt_ordinal) = info (
    ("event", str "attempt_admitted")
    ∷ ("role", str (role_as_str role))
    ∷ ("route_id", str route_id.id)
    ∷ ("attempt_ordinal", number attempt_ordinal)
    ∷ [])
trace (attempt_rejected role route_id reason) = info (
    ("event", str "attempt_rejected")
    ∷ ("role", str (role_as_str role))
    ∷ ("route_id", str (route_text route_id))
    ∷ ("reason", str (rejection_as_str reason))
    ∷ [])
trace (attempt_completed role route_id attempt_ordinal outcome latency) = info (
    ("event", str "attempt_completed")
    ∷ ("role", str (role_as_str role))
    ∷ ("route_id", str route_id.id)
    ∷ ("attempt_ordinal", number attempt_ordinal)
    ∷ ("outcome", str (outcome_as_str outcome))
    ∷ ("latency_us", number (duration_micros latency))
    ∷ [])
trace (retry_scheduled role route_id retry_ordinal backoff) = info (
    ("event", str "retry_scheduled")
    ∷ ("role", str (role_as_str role))
    ∷ ("route_id", str route_id.id)
    ∷ ("retry_ordinal", number retry_ordinal)
    ∷ ("backoff_us", number (duration_micros backoff))
    ∷ [])
trace (retry_suppressed role route_id retry_ordinal reason) = info (
    ("event", str "retry_suppressed")
    ∷ ("role", str (role_as_str role))
    ∷ ("route_id", str route_id.id)
    ∷ ("retry_ordinal", number retry_ordinal)
    ∷ ("reason", str (suppression_as_str reason))
    ∷ [])
trace (breaker_transition role route_id from to) = info (
    ("event", str "breaker_transition")
    ∷ ("role", str (role_as_str role))
    ∷ ("route_id", str route_id.id)
    ∷ ("from", str (circuit_state from))
    ∷ ("to", str (circuit_state to))
    ∷ [])
trace (bulkhead_admission role route_id admitted) = info (
    ("event", str "bulkhead_admission")
    ∷ ("role", str (role_as_str role))
    ∷ ("route_id", str route_id.id)
    ∷ ("admitted", flag admitted)
    ∷ [])
trace (route_selected role generation route_id) = info (
    ("event", str "route_selected")
    ∷ ("role", str (role_as_str role))
    ∷ ("generation", number generation)
    ∷ ("route_id", str route_id.id)
    ∷ [])
trace (route_failover generation failover_ordinal from_route_id to_route_id outcome) = info (
    ("event", str "route_failover")
    ∷ ("generation", number generation)
    ∷ ("failover_ordinal", number failover_ordinal)
    ∷ ("from_route_id", str from_route_id.id)
    ∷ ("to_route_id", str (route_text to_route_id))
    ∷ ("outcome", str (outcome_as_str outcome))
    ∷ [])
trace (shadow_sampled generation outcome) = info (
    ("event", str "shadow_sampled")
    ∷ ("generation", number generation)
    ∷ ("outcome", str (sampling_as_str outcome))
    ∷ [])
trace (shadow_completed generation route_id outcome) = info (
    ("event", str "shadow_completed")
    ∷ ("generation", number generation)
    ∷ ("route_id", str route_id.id)
    ∷ ("outcome", str (outcome_as_str outcome))
    ∷ [])
trace (ResilienceEvent.logical_deadline_exhausted role stage) = info (
    ("event", str "logical_deadline_exhausted")
    ∷ ("role", str (role_as_str role))
    ∷ ("stage", str (stage_as_str stage))
    ∷ [])

-- `TracingObserver`, as a sink that keeps what a subscriber gets, in order.
unfoldable pub tracing_observer : Observer (List TraceEvent)
unfolding trace
tracing_observer = record { observe = λ sent event. sent ++ trace event ∷ [] }
