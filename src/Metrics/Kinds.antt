-- ===== src/Metrics/Kinds.antt =====
-- src/metrics_adapter.rs: the kinds of events, and a counter for each.
use text.Mathlib.Text.{◌==◌ as str_eq}
use text.Mathlib.TextEquality.{eq_iff}
use text.Mathlib.TextPositions.{eq_refl}
use svc_resillience_rs.Prelude.{
  ◌≡◌, refl, Bool, true, false, Option, none, some, String, arith, if◌then◌else◌,
}
use svc_resillience_rs.Observability.{
  ResilienceEvent, attempt_admitted, attempt_rejected, attempt_completed, retry_scheduled,
  retry_suppressed, breaker_transition, bulkhead_admission, route_selected, route_failover,
  shadow_sampled, shadow_completed,
}

pub data Kind : Type 0 where
  admission rejection completion schedule suppression transition : Kind
  slot selection failover sampling shadow_end exhaustion : Kind

abbrev pub kind_of : ResilienceEvent → Kind
kind_of (attempt_admitted role i ordinal) = admission
kind_of (attempt_rejected role i reason) = rejection
kind_of (attempt_completed role i ordinal outcome latency) = completion
kind_of (retry_scheduled role i ordinal backoff) = schedule
kind_of (retry_suppressed role i ordinal reason) = suppression
kind_of (breaker_transition role i from to) = transition
kind_of (bulkhead_admission role i admitted) = slot
kind_of (route_selected role generation i) = selection
kind_of (route_failover generation ordinal i j outcome) = failover
kind_of (shadow_sampled generation outcome) = sampling
kind_of (shadow_completed generation i outcome) = shadow_end
kind_of (ResilienceEvent.logical_deadline_exhausted role stage) = exhaustion

unfoldable pub counter_name : Kind → String
counter_name admission = "softwheel_resilience_attempt_admitted_total"
counter_name rejection = "softwheel_resilience_attempt_rejected_total"
counter_name completion = "softwheel_resilience_attempt_completed_total"
counter_name schedule = "softwheel_resilience_retry_scheduled_total"
counter_name suppression = "softwheel_resilience_retry_suppressed_total"
counter_name transition = "softwheel_resilience_breaker_transition_total"
counter_name slot = "softwheel_resilience_bulkhead_admission_total"
counter_name selection = "softwheel_resilience_route_selected_total"
counter_name failover = "softwheel_resilience_route_failover_total"
counter_name sampling = "softwheel_resilience_shadow_sampling_total"
counter_name shadow_end = "softwheel_resilience_shadow_completed_total"
counter_name exhaustion = "softwheel_resilience_logical_deadline_exhausted_total"

Kind-discrete : Discrete Kind
Kind-discrete = hlevel

abbrev decided {ℓ} : {P : Type ℓ} → Dec P → Bool
decided (yes p) = true
decided (no p) = false

pub same_kind : Kind → Kind → Bool
same_kind j k = decided (Kind-discrete j k)

-- A counter's name tells its kind.
abbrev first : Option Kind → Option Kind → Option Kind
first none b = b
first (some a) b = some a

abbrev if_named : String → Kind → Option Kind
if_named s k = if str_eq s (counter_name k) then some k else none

kind_named : String → Option Kind
kind_named s = first (if_named s admission) (
    first (if_named s rejection) (
      first (if_named s completion) (
        first (if_named s schedule) (
          first (if_named s suppression) (
            first (if_named s transition) (
              first (if_named s slot) (
                first (if_named s selection) (
                  first (if_named s failover) (
                    first (if_named s sampling)
                      (first (if_named s shadow_end) (if_named s exhaustion)))))))))))

kind_named-counter_name : (k : Kind) → kind_named (counter_name k) ≡ some k
unfolding kind_named counter_name
kind_named-counter_name admission = refl
kind_named-counter_name rejection = refl
kind_named-counter_name completion = refl
kind_named-counter_name schedule = refl
kind_named-counter_name suppression = refl
kind_named-counter_name transition = refl
kind_named-counter_name slot = refl
kind_named-counter_name selection = refl
kind_named-counter_name failover = refl
kind_named-counter_name sampling = refl
kind_named-counter_name shadow_end = refl
kind_named-counter_name exhaustion = refl

counter_name-injective : (j k : Kind) → counter_name j ≡ counter_name k → j ≡ k
counter_name-injective j k h = cc (kind_named-counter_name j, kind_named-counter_name k)

-- Two kinds share a counter only if they are one.
pub counter_name-same_kind : (j k : Kind) → str_eq (counter_name j) (counter_name k) ≡ same_kind j k
unfolding same_kind
counter_name-same_kind j k =
    elim (Kind-discrete j k) as (λ d. str_eq (counter_name j) (counter_name k) ≡ decided d) [
      | yes p ↦ rw p (eq_refl (counter_name k))
      | no p ↦ ground (arith, eq_iff (counter_name j) (counter_name k), counter_name-injective j k)
    ]
