-- ===== src/Metrics/Totals.antt =====
-- src/metrics_adapter.rs: what the instruments have added up after any sequence of events.
use text.Mathlib.Text.{◌==◌ as str_eq}
use mathlib.Core.List.{append_assoc, append-nil}
use svc_resillience_rs.Prelude.{
  ℕ, ◌+◌, ◌≡◌, refl, List, [], ◌∷◌, ◌++◌, map, String, arith, if◌then◌else◌, count_by, Duration,
}
use svc_resillience_rs.Observability.{
  ResilienceEvent, attempt_admitted, attempt_completed, retry_scheduled, observe_all,
}
use svc_resillience_rs.Metrics.{Emission, counter, histogram, emissions, metrics_observer}
use svc_resillience_rs.Metrics.Kinds.{
  Kind, admission, kind_of, counter_name, same_kind, counter_name-same_kind,
}

-- The durations that the events of a sequence carry, in order.
abbrev pub latencies : List ResilienceEvent → List Duration
latencies [] = []
latencies (attempt_completed role i ordinal outcome latency ∷ es) = latency ∷ latencies es
latencies (e ∷ es) = latencies es

abbrev pub backoffs : List ResilienceEvent → List Duration
backoffs [] = []
backoffs (retry_scheduled role i ordinal backoff ∷ es) = backoff ∷ backoffs es
backoffs (e ∷ es) = backoffs es

module _ {F : Type 0} where
  -- What a backend has for a counter, over all its labels.
  pub total : String → List (Emission F) → ℕ
  total name [] = 0
  total name (counter n labels increment ∷ sent) =
      (if str_eq n name then increment else 0) + total name sent
  total name (histogram n labels value ∷ sent) = total name sent

  -- What a histogram has been given, over all its labels.
  pub recorded : String → List (Emission F) → List F
  recorded name [] = []
  recorded name (counter n labels increment ∷ sent) = recorded name sent
  recorded name (histogram n labels value ∷ sent) =
      if str_eq n name then value ∷ recorded name sent else recorded name sent

  total-append :
      (name : String) (xs ys : List (Emission F))
      → total name (xs ++ ys) ≡ total name xs + total name ys
  unfolding total
  total-append name [] ys = omega arith
  total-append name (counter n labels increment ∷ xs) ys = omega (arith, total-append name xs ys)
  total-append name (histogram n labels value ∷ xs) ys = total-append name xs ys

  recorded-append :
      (name : String) (xs ys : List (Emission F))
      → recorded name (xs ++ ys) ≡ recorded name xs ++ recorded name ys
  unfolding recorded
  recorded-append name [] ys = refl
  recorded-append name (counter n labels increment ∷ xs) ys = recorded-append name xs ys
  recorded-append name (histogram n labels value ∷ xs) ys =
      ground (arith, recorded-append name xs ys)

module _ {F : Type 0} (as_secs_f64 : Duration → F) where
  counts :
      (j k : Kind)
      → (if str_eq (counter_name j) (counter_name k) then 1 else 0) + 0
        ≡ (if same_kind j k then 1 else 0)
  counts j k = rw (counter_name-same_kind j k) (omega arith)

  total-emissions :
      (k : Kind) (e : ResilienceEvent)
      → total (counter_name k) (emissions as_secs_f64 e)
        ≡ (if same_kind (kind_of e) k then 1 else 0)
  unfolding total emissions counter_name
  total-emissions k (attempt_admitted role i ordinal) = counts admission k
  total-emissions k e = counts (kind_of e) k

  recorded-latency :
      (e : ResilienceEvent) (es : List ResilienceEvent)
      → recorded "softwheel_resilience_attempt_latency_seconds" (emissions as_secs_f64 e)
          ++ map as_secs_f64 (latencies es)
        ≡ map as_secs_f64 (latencies (e ∷ es))
  unfolding recorded emissions
  recorded-latency (attempt_admitted role i ordinal) es = refl
  recorded-latency e es = refl

  recorded-backoff :
      (e : ResilienceEvent) (es : List ResilienceEvent)
      → recorded "softwheel_resilience_retry_backoff_seconds" (emissions as_secs_f64 e)
          ++ map as_secs_f64 (backoffs es)
        ≡ map as_secs_f64 (backoffs (e ∷ es))
  unfolding recorded emissions
  recorded-backoff (attempt_admitted role i ordinal) es = refl
  recorded-backoff e es = refl

  abbrev sent_after : List (Emission F) → List ResilienceEvent → List (Emission F)
  sent_after = observe_all (metrics_observer as_secs_f64)

  total-sent_after :
      (k : Kind) (sent : List (Emission F)) (es : List ResilienceEvent)
      → total (counter_name k) (sent_after sent es)
        ≡ total (counter_name k) sent + count_by (λ e. same_kind (kind_of e) k) es
  unfolding observe_all metrics_observer
  total-sent_after k sent [] = omega arith
  total-sent_after k sent (e ∷ es) = omega (
    arith,
    total-sent_after k (sent ++ emissions as_secs_f64 e) es,
    total-append (counter_name k) sent (emissions as_secs_f64 e),
    total-emissions k e,
  )

  -- A histogram that each event gives its own durations has been given all of them.
  recorded-sent_after :
      (name : String) (durations : List ResilienceEvent → List Duration)
      → durations [] ≡ []
      → ((e : ResilienceEvent) (es : List ResilienceEvent)
          → recorded name (emissions as_secs_f64 e) ++ map as_secs_f64 (durations es)
            ≡ map as_secs_f64 (durations (e ∷ es)))
      → (sent : List (Emission F)) (es : List ResilienceEvent)
      → recorded name (sent_after sent es) ≡ recorded name sent ++ map as_secs_f64 (durations es)
  unfolding observe_all metrics_observer
  recorded-sent_after name durations none_yet step sent [] = rw (none_yet, append-nil) refl
  recorded-sent_after name durations none_yet step sent (e ∷ es) =
      rw
        (
          recorded-sent_after name durations none_yet step (sent ++ emissions as_secs_f64 e) es,
          recorded-append _ sent (emissions as_secs_f64 e),
          append_assoc,
          step e es,
        )
        refl

  -- After any sequence of events the counter of each kind of event stands at the number of the
  -- events of that kind, over all its labels, and the two histograms have been given the latencies
  -- of the completed attempts and the backoffs of the scheduled retries, each in order.
  pub total-observe_all :
      (k : Kind) (es : List ResilienceEvent)
      → (total (counter_name k) (observe_all (metrics_observer as_secs_f64) [] es)
          ≡ count_by (λ e. same_kind (kind_of e) k) es)
        × (recorded "softwheel_resilience_attempt_latency_seconds"
              (observe_all (metrics_observer as_secs_f64) [] es)
            ≡ map as_secs_f64 (latencies es))
        × (recorded "softwheel_resilience_retry_backoff_seconds"
              (observe_all (metrics_observer as_secs_f64) [] es)
            ≡ map as_secs_f64 (backoffs es))
  unfolding total recorded
  total-observe_all k es = (
    omega (arith, total-sent_after k [] es),
    recorded-sent_after _ latencies refl recorded-latency [] es,
    recorded-sent_after _ backoffs refl recorded-backoff [] es,
  )
