-- ===== src/Tracing/RoundTrip.antt =====
-- src/tracing_adapter.rs: what a subscriber can tell of an event.
use text.Mathlib.Text.{◌==◌ as str_eq}
use text.Mathlib.TextEquality.{eq_iff}
use svc_resillience_rs.Prelude.{
  ◌/◌, ◌*◌, ◌≡◌, refl, false, min, Option, none, some, arith, Duration, u64_max, String, ok,
}
use svc_resillience_rs.Breaker.{CircuitState, closed, opened, half_open}
use svc_resillience_rs.Route.{RouteId, route_id_new}
use svc_resillience_rs.Observability.Labels.{labels}
use svc_resillience_rs.Observability.{
  ResilienceEvent, attempt_admitted, attempt_rejected, attempt_completed, retry_scheduled,
  retry_suppressed, breaker_transition, bulkhead_admission, route_selected, route_failover,
  shadow_sampled, shadow_completed,
}
use svc_resillience_rs.Tracing.{trace, duration_micros, circuit_state, route_text}
use svc_resillience_rs.Tracing.Reader.{read, state_of, route_of}

abbrev pub IsNamed : RouteId → Type 0
IsNamed i = str_eq i.id "" ≡ false

abbrev pub IsNamedIfAny : Option RouteId → Type 0
IsNamedIfAny none = Unit
IsNamedIfAny (some i) = IsNamed i

-- No route of the event has the empty identifier, which `RouteId::new` refuses.
abbrev pub NamesRoutes : ResilienceEvent → Type 0
NamesRoutes (attempt_admitted role i ordinal) = IsNamed i
NamesRoutes (attempt_rejected role i reason) = IsNamedIfAny i
NamesRoutes (attempt_completed role i ordinal outcome latency) = IsNamed i
NamesRoutes (retry_scheduled role i ordinal backoff) = IsNamed i
NamesRoutes (retry_suppressed role i ordinal reason) = IsNamed i
NamesRoutes (breaker_transition role i from to) = IsNamed i
NamesRoutes (bulkhead_admission role i admitted) = IsNamed i
NamesRoutes (route_selected role generation i) = IsNamed i
NamesRoutes (route_failover generation ordinal i j outcome) = IsNamed i × IsNamedIfAny j
NamesRoutes (shadow_sampled generation outcome) = Unit
NamesRoutes (shadow_completed generation i outcome) = IsNamed i
NamesRoutes (ResilienceEvent.logical_deadline_exhausted role stage) = Unit

-- A duration in whole microseconds, at most as many as 64 bits hold.
abbrev pub whole_micros : Duration → Duration
whole_micros d = min (d / 1000) u64_max * 1000

abbrev pub in_micros : ResilienceEvent → ResilienceEvent
in_micros (attempt_completed role i ordinal outcome latency) =
    attempt_completed role i ordinal outcome (whole_micros latency)
in_micros (retry_scheduled role i ordinal backoff) =
    retry_scheduled role i ordinal (whole_micros backoff)
in_micros e = e

duration_micros-whole_micros : (d : Duration) → duration_micros d * 1000 ≡ whole_micros d
unfolding duration_micros
duration_micros-whole_micros d = ground arith

state_of-circuit_state : (s : CircuitState) → state_of (circuit_state s) ≡ some s
unfolding state_of circuit_state
state_of-circuit_state closed = refl
state_of-circuit_state opened = refl
state_of-circuit_state half_open = refl

route_of-IsNamed : (i : RouteId) → IsNamed i → route_of i.id ≡ some i
unfolding route_of
route_of-IsNamed i h = rw h refl

route_of-route_text : (i : Option RouteId) → IsNamedIfAny i → route_of (route_text i) ≡ i
unfolding route_of route_text
route_of-route_text none h = refl
route_of-route_text (some i) h = rw h refl

ruleset readings = (labels, duration_micros-whole_micros, state_of-circuit_state)

-- A subscriber recovers every event whose routes have names, with its durations cut to whole
-- microseconds, at most as many as 64 bits hold.
pub read-trace : (e : ResilienceEvent) → NamesRoutes e → read (trace e).fields ≡ some (in_micros e)
unfolding read trace
read-trace (attempt_admitted role i ordinal) h = simp (readings, route_of-IsNamed i h)
read-trace (attempt_rejected role i reason) h = simp (readings, route_of-route_text i h)
read-trace (attempt_completed role i ordinal outcome latency) h =
    simp (readings, route_of-IsNamed i h)
read-trace (retry_scheduled role i ordinal backoff) h = simp (readings, route_of-IsNamed i h)
read-trace (retry_suppressed role i ordinal reason) h = simp (readings, route_of-IsNamed i h)
read-trace (breaker_transition role i from to) h = simp (readings, route_of-IsNamed i h)
read-trace (bulkhead_admission role i admitted) h = simp (readings, route_of-IsNamed i h)
read-trace (route_selected role generation i) h = simp (readings, route_of-IsNamed i h)
read-trace (route_failover generation ordinal i j outcome) h =
    simp (readings, route_of-IsNamed i h.0, route_of-route_text j h.1)
read-trace (shadow_sampled generation outcome) h = simp readings
read-trace (shadow_completed generation i outcome) h = simp (readings, route_of-IsNamed i h)
read-trace (ResilienceEvent.logical_deadline_exhausted role stage) h = simp readings

-- `RouteId::new` makes no identifier that reads as a missing route.
pub route_id_new-IsNamed : (s : String) (i : RouteId) → route_id_new s ≡ ok i → IsNamed i
unfolding route_id_new
route_id_new-IsNamed s i h = ground (arith, eq_iff s "", eq_iff i.id "")
