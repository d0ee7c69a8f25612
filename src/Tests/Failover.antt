-- ===== src/Tests/Failover.antt =====
-- Runs of src/failover.rs.
use svc_resillience_rs.Prelude.{In, ℕ, List, ◌≡◌, refl, [], ◌∷◌, Bool, true, ok, err, done, arith}
use svc_resillience_rs.Route.{Route, is_weighted, contains, insert, same_id}
use svc_resillience_rs.Weighted.{walk, checked_total}
use svc_resillience_rs.Routing.{select, select_with}
use svc_resillience_rs.Eligibility.{collect, from_predicate, all, select_weighted_with, draw_from}
use svc_resillience_rs.Failover.{
  RouteAttemptBudget, RouteOutcome, route_attempt_budget_exhausted, RouteDecision, RouteFailover,
  route_failover_error, display_failover_error, select_remaining, from_primary,
  from_primary_eligibility, new_with, failover_new, attempted_routes, classify_with, classify,
}
use svc_resillience_rs.Failover.Bounds.{Classified, classify_with-Classified}
use svc_resillience_rs.Failover.Exhaustion.{IsExhausted, keep_failing, failing-tries_all}
use svc_resillience_rs.Failover.Start.{IsBounded, failover-IsBounded, new_with-agrees}
use svc_resillience_rs.Tests.{some_routes, id_a, route_off, some_table, some_table-IsTable}

abbrev two : RouteAttemptBudget
two = record { max_routes = 2 }

abbrev everyone : Route → Bool
everyone r = true

abbrev begun : RouteFailover
begun = from_primary some_table (from_predicate some_table everyone) two id_a

begun_ok :
    from_primary_eligibility some_table (from_predicate some_table everyone) two id_a ≡ ok begun
unfolding from_primary_eligibility from_predicate contains same_id
begun_ok = refl

one_tried : attempted_routes begun ≡ 1
unfolding attempted_routes from_primary contains
one_tried = refl

started_by_draw :
    failover_new some_table two (λ n. 0) ≡ done (from_primary some_table (all some_table) two id_a)
unfolding failover_new select
started_by_draw = refl

not_eligible :
    (from_primary_eligibility some_table (all some_table) two route_off.id
      ≡ err route_failover_error)
    × (display_failover_error route_failover_error
        ≡ "route-failover selection was inconsistent with its routing snapshot")
unfolding from_primary_eligibility all contains same_id display_failover_error
not_eligible = (refl, refl)

-- A failover and then a second one, which the budget of two routes stops.
exhausted :
    (classify (classify begun RouteOutcome.failover (λ n. 0)).0 RouteOutcome.failover (λ n. 0)).1
    ≡ done (RouteDecision.stop route_attempt_budget_exhausted)
unfolding classify select_remaining from_primary select_weighted_with from_predicate checked_total
    same_id draw_from walk
exhausted = refl

classify_with-Classified_example :
    Classified everyone begun RouteOutcome.failover
      (λ n. 3)
      (classify_with begun RouteOutcome.failover (λ n. 3))
unfolding from_primary
classify_with-Classified_example =
    classify_with-Classified everyone begun RouteOutcome.failover (λ n. 3) some_table-IsTable refl

abbrev three_outcomes : List (RouteOutcome × (ℕ → ℕ))
three_outcomes =
    (RouteOutcome.failover, λ n. 0)
    ∷ (RouteOutcome.retry_same_route, λ n. 0)
    ∷ (RouteOutcome.failover, λ n. 1)
    ∷ []

failover-IsBounded_example : IsBounded some_table two begun three_outcomes
failover-IsBounded_example =
    failover-IsBounded some_table everyone two id_a begun three_outcomes some_table-IsTable
      (omega arith) begun_ok

new_with-agrees_example :
    (r : Route) × In r some_routes
    × (is_weighted r ≡ true)
    × (select_with some_table (λ n. 6) ≡ done (ok r))
    × (new_with some_table two (λ n. 6)
        ≡ done (ok (from_primary some_table (all some_table) two r.id)))
    × (failover_new some_table two (λ n. 6)
        ≡ done (from_primary some_table (all some_table) two r.id))
new_with-agrees_example = new_with-agrees some_table two (λ n. 6) some_table-IsTable (omega arith)

abbrev first_draw : ℕ → ℕ → ℕ
first_draw n m = 0

a_is_eligible : contains (from_predicate some_table everyone).eligible id_a ≡ true
unfolding from_predicate collect insert contains same_id
a_is_eligible = refl

failing-tries_all_example : IsExhausted everyone some_table two (
    keep_failing first_draw 2
      (from_primary some_table (from_predicate some_table everyone) two id_a))
failing-tries_all_example =
    failing-tries_all everyone first_draw (λ n m p. p) some_table two id_a some_table-IsTable
      (omega arith) a_is_eligible
