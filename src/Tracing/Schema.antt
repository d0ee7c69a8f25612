-- ===== src/Tracing/Schema.antt =====
-- src/tracing_adapter.rs: the fields of the trace events, by name.
use text.Mathlib.Text.{◌==◌ as str_eq}
use text.Mathlib.TextPositions.{eq_refl}
use svc_resillience_rs.Prelude.{
  ◌≤◌, ◌≡◌, refl, Bool, true, false, not, ◌&&◌, Option, none, some, List, [], ◌∷◌, map, arith,
  String, if◌then◌else◌, All, Duration, u64_max,
}
use svc_resillience_rs.Breaker.{CircuitState, closed}
use svc_resillience_rs.Route.{RouteId}
use svc_resillience_rs.Metrics.Vocabulary.{
  member, vocabulary, role_member, rejection_member, suppression_member, outcome_member,
  stage_member, sampling_member, or_true,
}
use svc_resillience_rs.Metrics.Series.{routes_of}
use svc_resillience_rs.Observability.{
  ResilienceEvent, attempt_admitted, attempt_rejected, attempt_completed, retry_scheduled,
  retry_suppressed, breaker_transition, bulkhead_admission, route_selected, route_failover,
  shadow_sampled, shadow_completed,
}
use svc_resillience_rs.Tracing.{
  Value, str, number, flag, Fields, trace, circuit_state, duration_micros, route_text,
}

pub data FieldType : Type 0 where
  event_name route_name label integer truth : FieldType

-- What each field holds, whatever event it is a field of.
abbrev pub schema : List (String × FieldType)
schema =
    ("event", event_name)
    ∷ ("role", label)
    ∷ ("reason", label)
    ∷ ("outcome", label)
    ∷ ("from", label)
    ∷ ("to", label)
    ∷ ("stage", label)
    ∷ ("route_id", route_name)
    ∷ ("from_route_id", route_name)
    ∷ ("to_route_id", route_name)
    ∷ ("attempt_ordinal", integer)
    ∷ ("retry_ordinal", integer)
    ∷ ("failover_ordinal", integer)
    ∷ ("generation", integer)
    ∷ ("latency_us", integer)
    ∷ ("backoff_us", integer)
    ∷ ("admitted", truth)
    ∷ []

abbrev pub event_names : List String
event_names =
    "attempt_admitted" ∷ "attempt_rejected" ∷ "attempt_completed" ∷ "retry_scheduled"
    ∷ "retry_suppressed" ∷ "breaker_transition" ∷ "bulkhead_admission" ∷ "route_selected"
    ∷ "route_failover" ∷ "shadow_sampled" ∷ "shadow_completed" ∷ "logical_deadline_exhausted" ∷ []

abbrev type_in : List (String × FieldType) → String → Option FieldType
type_in [] name = none
type_in ((key, type) ∷ rest) name = if str_eq key name then some type else type_in rest name

-- A value of a type. A route's name is one of the event's routes, or empty; a label is of the
-- vocabulary that the labels of the metrics are of; a number fits into 64 bits.
abbrev pub HasType : List RouteId → Option FieldType → Value → Type 0
HasType routes (some event_name) (str s) = member s event_names ≡ true
HasType routes (some label) (str s) = member s vocabulary ≡ true
HasType routes (some route_name) (str s) = member s ("" ∷ map (λ (i : RouteId). i.id) routes) ≡ true
HasType routes (some integer) (number n) = n ≤ u64_max
HasType routes (some truth) (flag b) = Unit
HasType _ _ _ = false ≡ true

abbrev pub IsWellTyped : List RouteId → String × Value → Type 0
IsWellTyped routes (name, value) = HasType routes (type_in schema name) value

-- No name stands twice.
abbrev pub has_distinct_names : Fields → Bool
has_distinct_names [] = true
has_distinct_names ((name, value) ∷ rest) =
    not (member name (map (λ (f : String × Value). f.0) rest)) && has_distinct_names rest

-- The ordinals and the generation of an event are machine integers.
abbrev pub Fits : ResilienceEvent → Type 0
Fits (attempt_admitted role i ordinal) = ordinal ≤ u64_max
Fits (attempt_completed role i ordinal outcome latency) = ordinal ≤ u64_max
Fits (retry_scheduled role i ordinal backoff) = ordinal ≤ u64_max
Fits (retry_suppressed role i ordinal reason) = ordinal ≤ u64_max
Fits (route_selected role generation i) = generation ≤ u64_max
Fits (route_failover generation ordinal i j outcome) = (generation ≤ u64_max) × (ordinal ≤ u64_max)
Fits (shadow_sampled generation outcome) = generation ≤ u64_max
Fits (shadow_completed generation i outcome) = generation ≤ u64_max
Fits _ = Unit

duration_micros-le : (d : Duration) → duration_micros d ≤ u64_max
unfolding duration_micros
duration_micros-le d = ground arith

state_member : (s : CircuitState) → member (circuit_state s) vocabulary ≡ true
unfolding circuit_state
state_member closed = refl
state_member s = refl

route_name_ok : (i : RouteId) (ts : List String) → member i.id ("" ∷ i.id ∷ ts) ≡ true
route_name_ok i ts = simp (eq_refl, or_true)

-- Every field of a trace event has a name of the schema, no name stands twice, and the name alone
-- fixes what the field holds, whatever the event is: the event's name, a label of the fixed
-- vocabulary, the identifier of a route of the event (or an empty text), a truth value, or a number
-- that fits into 64 bits, for an event whose ordinals and generation do.
pub trace-IsWellTyped :
    (e : ResilienceEvent)
    → Fits e
    → All (IsWellTyped (routes_of e)) (trace e).fields
      × (has_distinct_names (trace e).fields ≡ true)
unfolding trace route_text
trace-IsWellTyped (attempt_admitted role i ordinal) fits =
    ((refl, (role_member role, (route_name_ok i [], (fits, tt)))), refl)
trace-IsWellTyped (attempt_rejected role none reason) fits =
    ((refl, (role_member role, (refl, (rejection_member reason, tt)))), refl)
trace-IsWellTyped (attempt_rejected role (some i) reason) fits =
    ((refl, (role_member role, (route_name_ok i [], (rejection_member reason, tt)))), refl)
trace-IsWellTyped (attempt_completed role i ordinal outcome latency) fits = (
  (
    refl,
    (
      role_member role,
      (route_name_ok i [], (fits, (outcome_member outcome, (duration_micros-le latency, tt)))),
    ),
  ),
  refl,
)
trace-IsWellTyped (retry_scheduled role i ordinal backoff) fits = (
  (refl, (role_member role, (route_name_ok i [], (fits, (duration_micros-le backoff, tt))))),
  refl,
)
trace-IsWellTyped (retry_suppressed role i ordinal reason) fits = (
  (refl, (role_member role, (route_name_ok i [], (fits, (suppression_member reason, tt))))),
  refl,
)
trace-IsWellTyped (breaker_transition role i from to) fits = (
  (refl, (role_member role, (route_name_ok i [], (state_member from, (state_member to, tt))))),
  refl,
)
trace-IsWellTyped (bulkhead_admission role i admitted) fits =
    ((refl, (role_member role, (route_name_ok i [], (tt, tt)))), refl)
trace-IsWellTyped (route_selected role generation i) fits =
    ((refl, (role_member role, (fits, (route_name_ok i [], tt)))), refl)
trace-IsWellTyped (route_failover generation ordinal i none outcome) fits =
    ((refl, (fits.0, (fits.1, (route_name_ok i [], (refl, (outcome_member outcome, tt)))))), refl)
trace-IsWellTyped (route_failover generation ordinal i (some j) outcome) fits = (
  (
    refl,
    (
      fits.0,
      (
        fits.1,
        (route_name_ok i (j.id ∷ []), (simp (eq_refl, or_true), (outcome_member outcome, tt))),
      ),
    ),
  ),
  refl,
)
trace-IsWellTyped (shadow_sampled generation outcome) fits =
    ((refl, (fits, (sampling_member outcome, tt))), refl)
trace-IsWellTyped (shadow_completed generation i outcome) fits =
    ((refl, (fits, (route_name_ok i [], (outcome_member outcome, tt)))), refl)
trace-IsWellTyped (ResilienceEvent.logical_deadline_exhausted role stage) fits =
    ((refl, (role_member role, (stage_member stage, tt))), refl)
