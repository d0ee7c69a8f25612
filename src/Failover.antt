-- ===== src/Failover.antt =====
-- src/failover.rs: the routes that one logical request may try, one after the other.
pub mod Bounds
pub mod Sequence
pub mod Start
pub mod Exhaustion
use svc_resillience_rs.Prelude.{
  ℕ, Bool, true, false, Option, none, some, List, [], ◌∷◌, String, leb, ◌==◌, not, ◌||◌,
  if◌then◌else◌, length, Result, ok, err, map_err, Exec, done, panicked,
}
use svc_resillience_rs.Route.{RouteId, Route, IdSet, contains, insert}
use svc_resillience_rs.Routing.{RouteTable, select, expect}
use svc_resillience_rs.Eligibility.{
  RouteEligibility, RouteEligibilityError, all, select_weighted_with,
}

-- A budget is a positive number of routes.
pub record RouteAttemptBudget : Type 0 where
  pub max_routes : ℕ

pub data RouteOutcome : Type 0 where
  succeeded retry_same_route failover stop : RouteOutcome

pub data RouteStopReason : Type 0 where
  caller_terminal route_attempt_budget_exhausted no_remaining_eligible_route : RouteStopReason

pub record RouteAttempt : Type 0 where
  pub generation : ℕ
  pub ordinal : ℕ
  pub route_id : RouteId

pub data RouteDecision : Type 0 where
  complete retry_current : RouteDecision
  failover : RouteAttempt → RouteDecision
  stop : RouteStopReason → RouteDecision

pub data RouteFailoverError : Type 0 where
  route_failover_error : RouteFailoverError

unfoldable pub display_failover_error : RouteFailoverError → String
display_failover_error route_failover_error =
    "route-failover selection was inconsistent with its routing snapshot"

pub record RouteFailover : Type 0 where
  pub snapshot : RouteTable
  pub eligibility : RouteEligibility
  pub budget : RouteAttemptBudget
  pub attempted : IdSet
  pub current : RouteAttempt

unfoldable pub select_remaining :
    RouteTable
    → RouteEligibility
    → IdSet
    → (ℕ → ℕ)
    → Exec (Result (Option Route) RouteFailoverError)
select_remaining t e attempted draw =
    elim (select_weighted_with t e (λ r. contains attempted r.id) draw) [
      | panicked ↦ panicked
      | done r ↦ done (map_err (λ error. route_failover_error) r)
    ]

unfoldable pub from_primary :
    RouteTable → RouteEligibility → RouteAttemptBudget → RouteId → RouteFailover
unfolding insert
from_primary snapshot eligibility budget primary = record {
  snapshot = snapshot;
  eligibility = eligibility;
  budget = budget;
  attempted = (insert [] primary).0;
  current = record { generation = snapshot.generation; ordinal = 0; route_id = primary };
}

-- `RouteFailover::new`; the draw is `fastrand::u64`.
unfoldable pub failover_new : RouteTable → RouteAttemptBudget → (ℕ → ℕ) → Exec RouteFailover
unfolding from_primary
failover_new snapshot budget draw = elim (select snapshot draw) [
  | panicked ↦ panicked
  | done primary ↦ done (from_primary snapshot (all snapshot) budget primary.id)
]

-- The end of `new_with`: `expect` panics where no primary was found.
unfoldable pub with_primary :
    RouteTable
    → RouteAttemptBudget
    → Exec (Result (Option Route) RouteFailoverError)
    → Exec (Result RouteFailover RouteFailoverError)
unfolding from_primary
with_primary snapshot budget panicked = panicked
with_primary snapshot budget (done (err e)) = done (err e)
with_primary snapshot budget (done (ok none)) = panicked
with_primary snapshot budget (done (ok (some primary))) =
    done (ok (from_primary snapshot (all snapshot) budget primary.id))

-- `RouteFailover::new_with`.
unfoldable pub new_with :
    RouteTable → RouteAttemptBudget → (ℕ → ℕ) → Exec (Result RouteFailover RouteFailoverError)
unfolding with_primary
new_with snapshot budget draw =
    with_primary snapshot budget (select_remaining snapshot (all snapshot) [] draw)

unfoldable pub from_primary_eligibility :
    RouteTable
    → RouteEligibility
    → RouteAttemptBudget
    → RouteId
    → Result RouteFailover RouteFailoverError
unfolding from_primary
from_primary_eligibility snapshot eligibility budget primary =
    if not (eligibility.generation == snapshot.generation)
      || not (contains eligibility.eligible primary)
    then err route_failover_error
    else ok (from_primary snapshot eligibility budget primary)

unfoldable pub attempted_routes : RouteFailover → ℕ
attempted_routes f = length f.attempted

-- The branch of `classify_with` that has selected the next route.
unfoldable pub move_to : RouteFailover → Route → RouteFailover × RouteDecision
unfolding insert
move_to f route =
    let next : RouteAttempt = record {
      generation = f.snapshot.generation;
      ordinal = length f.attempted;
      route_id = route.id;
    } in
    (
      record f { attempted = (insert f.attempted next.route_id).0; current = next },
      RouteDecision.failover next,
    )

unfoldable pub after_selection :
    RouteFailover
    → Exec (Result (Option Route) RouteFailoverError)
    → RouteFailover × Exec (Result RouteDecision RouteFailoverError)
unfolding move_to
after_selection f panicked = (f, panicked)
after_selection f (done (err e)) = (f, done (err e))
after_selection f (done (ok none)) = (f, done (ok (RouteDecision.stop no_remaining_eligible_route)))
after_selection f (done (ok (some route))) =
    let (f', decision) = move_to f route in (f', done (ok decision))

-- `RouteFailover::classify_with`.
unfoldable pub classify_with :
    RouteFailover
    → RouteOutcome
    → (ℕ → ℕ)
    → RouteFailover × Exec (Result RouteDecision RouteFailoverError)
unfolding after_selection
classify_with f RouteOutcome.succeeded draw = (f, done (ok complete))
classify_with f RouteOutcome.retry_same_route draw = (f, done (ok retry_current))
classify_with f RouteOutcome.stop draw = (f, done (ok (RouteDecision.stop caller_terminal)))
classify_with f RouteOutcome.failover draw =
    let selected = select_remaining f.snapshot f.eligibility f.attempted draw in
    if leb f.budget.max_routes (length f.attempted)
    then (f, done (ok (RouteDecision.stop route_attempt_budget_exhausted)))
    else after_selection f selected

-- `RouteFailover::classify`: `expect` panics on an error. The draw is `fastrand::u64`.
unfoldable pub classify :
    RouteFailover → RouteOutcome → (ℕ → ℕ) → RouteFailover × Exec RouteDecision
unfolding classify_with expect
classify f outcome draw = let (f', r) = classify_with f outcome draw in (f', expect r)
