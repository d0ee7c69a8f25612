-- ===== src/Tests/Shadow.antt =====
-- Runs of src/shadow.rs, src/shadow_policy.rs and src/shadow_outcome.rs.
use svc_resillience_rs.Prelude.{
  ◌≡◌, refl, ◌⊎◌, Bool, true, false, not, none, some, ok, err, done, panicked, here, there, ◌≤◌,
  arith, ltb, count_below, duration_max,
}
use svc_resillience_rs.Route.{Route, same_id, draw_out_of_range, display_table_error}
use svc_resillience_rs.Weighted.{checked_total, total}
use svc_resillience_rs.Routing.{select_with}
use svc_resillience_rs.Eligibility.{from_predicate}
use svc_resillience_rs.Shadow.{
  ShadowSampling, shadow_parts_per_million, sampling_new, sample_with, sampled_or_not, sample,
  always, disabled, RoutePlan, primary_selection, select_shadow, plan_with, plan_eligible_with,
  build_plan, shadow_of, draw_shadow, walk_shadow, parts_per_million_out_of_range,
}
use svc_resillience_rs.Shadow.Display.{display_sampling_error, display_plan_error}
use svc_resillience_rs.Shadow.Sampling.{sample_with-exact}
use svc_resillience_rs.Shadow.Plan.{
  IsPlan, shadows, shadows_as, select_shadow-exact, plan_with-safe,
}
use svc_resillience_rs.Shadow.Eligible.{Planned, plan_eligible_with-safe}
use svc_resillience_rs.Prelude.Words.{saturating_pow_u32}
use svc_resillience_rs.Retry.{RetryPolicy, no_jitter, retry, next_delay, delay_after}
use svc_resillience_rs.ShadowPolicy.{
  ShadowExecutionPolicy, zero_deadline, display_policy_error, with_retry_policy, next_retry_delay,
}
use svc_resillience_rs.ShadowPolicy.Runs.{ShadowRun, first, again, shadow_runs_bounded}
use svc_resillience_rs.Tests.{
  id_a, route_a, route_b, route_c, some_routes, some_table, some_table-IsTable,
}

abbrev quarter : ShadowSampling
quarter = record { parts_per_million = 250_000 }

abbrev not_b : Route → Bool
not_b r = not (same_id r.id route_b.id)

texts :
    (display_sampling_error parts_per_million_out_of_range
      ≡ "shadow sampling parts-per-million must be at most 1,000,000")
    × (display_plan_error (primary_selection draw_out_of_range)
        ≡ "primary route selection failed: weighted-selection draw was outside the requested range")
    × (display_policy_error zero_deadline ≡ "shadow deadline must be greater than zero")
unfolding display_sampling_error display_plan_error display_table_error display_policy_error
texts = (refl, refl, refl)

quarter_ok : sampling_new 250_000 ≡ ok quarter
unfolding sampling_new
quarter_ok = refl

boundary :
    (sample quarter (λ n. 249_999) ≡ done true)
    × (sample quarter (λ n. 250_000) ≡ done false)
    × (sample quarter (λ n. 1_000_000) ≡ panicked)
    × (sample_with disabled (λ n. 0) ≡ ok false)
    × (sample_with always (λ n. 1_000_000) ≡ ok true)
unfolding sample disabled always
boundary = (refl, refl, refl, refl, refl)

abbrev the_plan : RoutePlan
the_plan = record {
  generation = 17;
  primary = id_a;
  shadow = some route_b.id;
  shadow_sampled = true;
}

planned : plan_with some_table always (λ n. 0) (λ n. 0) (λ n. 0) ≡ done (ok the_plan)
unfolding plan_with select_with sample_with always sampled_or_not shadow_of select_shadow
    checked_total draw_shadow walk_shadow build_plan same_id
planned = refl

sample_with-exact_example :
    (sample_with quarter (λ n. 7) ≡ ok (ltb 7 250_000))
    × (count_below shadow_parts_per_million (λ c. sampled_or_not (sample_with quarter (λ n. c)))
        ≡ 250_000)
sample_with-exact_example = sample_with-exact 250_000 quarter (λ n. 7) quarter_ok (omega arith)

select_shadow-exact_example :
    count_below
      (total (shadows route_a some_routes))
      (λ c. shadows_as route_c.id (select_shadow some_table route_a (λ n. c)))
    ≡ 5
unfolding same_id
select_shadow-exact_example =
    select_shadow-exact some_table route_a route_c some_table-IsTable (there (there (here refl)))
      refl

plan_with-safe_example :
    ((primary : Route) × (p : RoutePlan) × (select_with some_table (λ n. 3) ≡ done (ok primary))
      × (plan_with some_table quarter (λ n. 3) (λ n. 9) (λ n. 99) ≡ done (ok p))
      × IsPlan some_table primary true (λ n. 99) p)
    ⊎ ((select_with some_table (λ n. 3) ≡ done (err draw_out_of_range))
        × (plan_with some_table quarter (λ n. 3) (λ n. 9) (λ n. 99)
            ≡ done (err (primary_selection draw_out_of_range))))
plan_with-safe_example =
    plan_with-safe some_table quarter (λ n. 3) (λ n. 9) (λ n. 99) some_table-IsTable

plan_eligible_with-safe_example :
    Planned not_b some_table
      (λ n. 3)
      (plan_eligible_with some_table
        (from_predicate some_table not_b)
        always
        (λ n. 3)
        (λ n. 0)
        (λ n. 0))
plan_eligible_with-safe_example =
    plan_eligible_with-safe some_table not_b always (λ n. 3) (λ n. 0) (λ n. 0) some_table-IsTable

abbrev patient : RetryPolicy
patient = record {
  max_attempts = 3;
  max_elapsed = none;
  backoff = record { initial = 10; maximum = 1000; factor = 2; jitter = no_jitter };
}

abbrev shadow_policy : ShadowExecutionPolicy
shadow_policy = record { deadline = 100; retry_policy = none }

granted : next_retry_delay (with_retry_policy shadow_policy patient) (λ n. 0) 2 50 retry ≡ some 20
unfolding next_retry_delay with_retry_policy next_delay delay_after saturating_pow_u32
granted = refl

-- The first attempt takes 30 ns and is retried after 10 ns; the second takes 10 ns and is retried
-- after 20 ns, at 70 ns.
granted_first :
    next_retry_delay (with_retry_policy shadow_policy patient) (λ n. 0) 1 30 retry ≡ some 10
unfolding next_retry_delay with_retry_policy next_delay delay_after saturating_pow_u32
granted_first = refl

two_retries : ShadowRun (with_retry_policy shadow_policy patient) 3 30 70
two_retries =
    again 2 10 40 50 20 (λ n. 0) retry
      (again 1 0 0 30 10 (λ n. 0) retry first (omega arith) granted_first) (omega arith) granted

shadow_runs_bounded_example : (3 ≤ 3) × (30 ≤ 70) × ((duration_max ≤ 100) ⊎ (70 ≤ 100))
shadow_runs_bounded_example =
    shadow_runs_bounded shadow_policy patient 3 30 70 (omega arith) two_retries
