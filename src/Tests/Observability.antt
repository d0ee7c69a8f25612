-- ===== src/Tests/Observability.antt =====
-- Runs of src/observability.rs, src/metrics_adapter.rs and src/tracing_adapter.rs.
use svc_resillience_rs.Prelude.{
  ℕ, ◌≡◌, refl, none, some, List, [], ◌∷◌, map, All, arith, true, count_by, u64_max, duration_max,
}
use svc_resillience_rs.Breaker.{closed, opened}
use svc_resillience_rs.Route.{RouteId}
use svc_resillience_rs.Observability.{
  ResilienceEvent, primary, shadow, attempt_admitted, attempt_rejected, attempt_completed,
  retry_scheduled, breaker_transition, route_failover, RejectionReason, rejection_as_str,
  outcome_as_str, succeeded, failed, role_as_str, noop_observer, observe_all,
}
use svc_resillience_rs.Metrics.{counter, emissions, metrics_observer}
use svc_resillience_rs.Metrics.Kinds.{counter_name, completion, kind_of, same_kind}
use svc_resillience_rs.Metrics.Totals.{total, recorded, total-observe_all}
use svc_resillience_rs.Metrics.Series.{IsBounded, series_of, emissions-IsBounded}
use svc_resillience_rs.Tracing.{trace, duration_micros}
use svc_resillience_rs.Tracing.Reader.{read}
use svc_resillience_rs.Tracing.RoundTrip.{read-trace}
use svc_resillience_rs.Tracing.Schema.{IsWellTyped, has_distinct_names, trace-IsWellTyped}

abbrev route : RouteId
route = record { id = "primary-a" }

abbrev spare : RouteId
spare = record { id = "primary-b" }

-- A first attempt that fails, a retry, and a move to another route.
abbrev story : List ResilienceEvent
story =
    attempt_admitted primary route 1
    ∷ attempt_completed primary route 1 failed 2_000_500
    ∷ retry_scheduled primary route 1 5_000_000
    ∷ attempt_completed primary route 2 failed 3_000_000
    ∷ breaker_transition primary route closed opened
    ∷ route_failover 17 1 route (some spare) failed
    ∷ attempt_completed primary spare 3 succeeded 1_000_000
    ∷ []

-- Seconds, counted in nanoseconds.
abbrev as_secs : ℕ → ℕ
as_secs d = d

nothing_kept : observe_all (noop_observer {S = ℕ}) 7 story ≡ 7
unfolding observe_all noop_observer
nothing_kept = refl

texts : (role_as_str shadow ≡ "shadow") × (outcome_as_str failed ≡ "failed")
unfolding role_as_str outcome_as_str
texts = (refl, refl)

rejected :
    emissions as_secs (attempt_rejected shadow none RejectionReason.bulkhead_full)
    ≡ counter "softwheel_resilience_attempt_rejected_total"
        (("role", "shadow") ∷ ("route_id", "none") ∷ ("reason", "bulkhead_full") ∷ [])
        1
      ∷ []
unfolding emissions role_as_str rejection_as_str
rejected = refl

total-observe_all_example :
    (total (counter_name completion) (observe_all (metrics_observer as_secs) [] story)
      ≡ count_by (λ e. same_kind (kind_of e) completion) story)
    × (recorded "softwheel_resilience_attempt_latency_seconds"
          (observe_all (metrics_observer as_secs) [] story)
        ≡ 2_000_500 ∷ 3_000_000 ∷ 1_000_000 ∷ [])
    × (recorded "softwheel_resilience_retry_backoff_seconds"
          (observe_all (metrics_observer as_secs) [] story)
        ≡ 5_000_000 ∷ [])
total-observe_all_example = total-observe_all as_secs completion story

abbrev moved : ResilienceEvent
moved = route_failover 17 1 route (some spare) failed

emissions-IsBounded_example :
    All (IsBounded (route ∷ spare ∷ [])) (emissions as_secs moved)
    × (map series_of (emissions as_secs moved)
        ≡ map series_of (emissions as_secs (route_failover 0 0 route (some spare) failed)))
emissions-IsBounded_example = emissions-IsBounded as_secs moved

micros : (duration_micros 2_000_500 ≡ 2000) × (duration_micros duration_max ≡ u64_max)
unfolding duration_micros
micros = (refl, refl)

read-trace_example :
    read (trace (attempt_completed primary route 1 failed 2_000_500)).fields
    ≡ some (attempt_completed primary route 1 failed 2_000_000)
read-trace_example = read-trace (attempt_completed primary route 1 failed 2_000_500) refl

trace-IsWellTyped_example :
    All (IsWellTyped (route ∷ spare ∷ [])) (trace moved).fields
    × (has_distinct_names (trace moved).fields ≡ true)
trace-IsWellTyped_example = trace-IsWellTyped moved (omega arith, omega arith)
