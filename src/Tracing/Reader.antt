-- ===== src/Tracing/Reader.antt =====
-- src/tracing_adapter.rs: a subscriber that reads an event back from the fields that it gets.
use text.Mathlib.Text.{◌==◌ as str_eq}
use svc_resillience_rs.Prelude.{
  ℕ, ◌*◌, Bool, Option, none, some, [], ◌∷◌, String, if◌then◌else◌, Duration,
}
use svc_resillience_rs.Breaker.{CircuitState, closed, opened, half_open}
use svc_resillience_rs.Route.{RouteId}
use svc_resillience_rs.Observability.{
  ResilienceEvent, attempt_admitted, attempt_rejected, attempt_completed, retry_scheduled,
  retry_suppressed, breaker_transition, bulkhead_admission, route_selected, route_failover,
  shadow_sampled, shadow_completed,
}
use svc_resillience_rs.Observability.Labels.{
  role_of, rejection_of, suppression_of, outcome_of, stage_of, sampling_of,
}
use svc_resillience_rs.Tracing.{Value, str, number, flag, Fields}

module _ {A B : Type 0} where
  infixl 1 ◌>>=◌
  abbrev ◌>>=◌ : Option A → (A → Option B) → Option B
  none >>= next = none
  some a >>= next = next a

-- The value of the first field of a name.
abbrev field : String → Fields → Option Value
field name [] = none
field name ((key, value) ∷ fields) = if str_eq key name then some value else field name fields

abbrev as_text : Value → Option String
as_text (str s) = some s
as_text _ = none

abbrev as_number : Value → Option ℕ
as_number (number n) = some n
as_number _ = none

abbrev as_flag : Value → Option Bool
as_flag (flag b) = some b
as_flag _ = none

unfoldable pub state_of : String → Option CircuitState
state_of s =
    if str_eq s "closed"
    then some closed
    else if str_eq s "open"
    then some opened
    else if str_eq s "half_open"
    then some half_open
    else none

-- An empty text stands for no route.
unfoldable pub route_of : String → Option RouteId
route_of s = if str_eq s "" then none else some (record { id = s })

module _ (fields : Fields) where
  abbrev text_of : String → Option String
  text_of name = field name fields >>= as_text

  abbrev number_of : String → Option ℕ
  number_of name = field name fields >>= as_number

  abbrev flag_of : String → Option Bool
  flag_of name = field name fields >>= as_flag

  abbrev id_of : String → Option RouteId
  id_of name = text_of name >>= route_of

  abbrev label_of : {A : Type 0} → (String → Option A) → String → Option A
  label_of vocabulary name = text_of name >>= vocabulary

  -- A duration, to the microsecond.
  abbrev duration_of : String → Option Duration
  duration_of name = number_of name >>= λ micros. some (micros * 1000)

  read_attempt : String → Option ResilienceEvent
  read_attempt kind =
      if str_eq kind "attempt_admitted"
      then (do
        role ← label_of role_of "role"
        route_id ← id_of "route_id"
        ordinal ← number_of "attempt_ordinal"
        some (attempt_admitted role route_id ordinal))
      else if str_eq kind "attempt_rejected"
      then (do
        role ← label_of role_of "role"
        route_id ← text_of "route_id"
        reason ← label_of rejection_of "reason"
        some (attempt_rejected role (route_of route_id) reason))
      else if str_eq kind "attempt_completed"
      then (do
        role ← label_of role_of "role"
        route_id ← id_of "route_id"
        ordinal ← number_of "attempt_ordinal"
        outcome ← label_of outcome_of "outcome"
        latency ← duration_of "latency_us"
        some (attempt_completed role route_id ordinal outcome latency))
      else none

  read_retry : String → Option ResilienceEvent
  read_retry kind =
      if str_eq kind "retry_scheduled"
      then (do
        role ← label_of role_of "role"
        route_id ← id_of "route_id"
        ordinal ← number_of "retry_ordinal"
        backoff ← duration_of "backoff_us"
        some (retry_scheduled role route_id ordinal backoff))
      else if str_eq kind "retry_suppressed"
      then (do
        role ← label_of role_of "role"
        route_id ← id_of "route_id"
        ordinal ← number_of "retry_ordinal"
        reason ← label_of suppression_of "reason"
        some (retry_suppressed role route_id ordinal reason))
      else none

  read_guard : String → Option ResilienceEvent
  read_guard kind =
      if str_eq kind "breaker_transition"
      then (do
        role ← label_of role_of "role"
        route_id ← id_of "route_id"
        from ← label_of state_of "from"
        to ← label_of state_of "to"
        some (breaker_transition role route_id from to))
      else if str_eq kind "bulkhead_admission"
      then (do
        role ← label_of role_of "role"
        route_id ← id_of "route_id"
        admitted ← flag_of "admitted"
        some (bulkhead_admission role route_id admitted))
      else if str_eq kind "logical_deadline_exhausted"
      then (do
        role ← label_of role_of "role"
        stage ← label_of stage_of "stage"
        some (ResilienceEvent.logical_deadline_exhausted role stage))
      else none

  read_route : String → Option ResilienceEvent
  read_route kind =
      if str_eq kind "route_selected"
      then (do
        role ← label_of role_of "role"
        generation ← number_of "generation"
        route_id ← id_of "route_id"
        some (route_selected role generation route_id))
      else if str_eq kind "route_failover"
      then (do
        generation ← number_of "generation"
        ordinal ← number_of "failover_ordinal"
        from_route_id ← id_of "from_route_id"
        to_route_id ← text_of "to_route_id"
        outcome ← label_of outcome_of "outcome"
        some (route_failover generation ordinal from_route_id (route_of to_route_id) outcome))
      else none

  read_shadow : String → Option ResilienceEvent
  read_shadow kind =
      if str_eq kind "shadow_sampled"
      then (do
        generation ← number_of "generation"
        outcome ← label_of sampling_of "outcome"
        some (shadow_sampled generation outcome))
      else if str_eq kind "shadow_completed"
      then (do
        generation ← number_of "generation"
        route_id ← id_of "route_id"
        outcome ← label_of outcome_of "outcome"
        some (shadow_completed generation route_id outcome))
      else none

abbrev or_else : Option ResilienceEvent → Option ResilienceEvent → Option ResilienceEvent
or_else none second = second
or_else (some e) second = some e

-- The event that the fields tell, by the name in the field `event`.
unfoldable pub read : Fields → Option ResilienceEvent
unfolding read_attempt read_retry read_guard read_route read_shadow
read fields = do
  kind ← text_of fields "event"
  or_else (read_attempt fields kind) (
      or_else (read_retry fields kind) (
        or_else (read_guard fields kind)
          (or_else (read_route fields kind) (read_shadow fields kind))))
