-- ===== src/Failover/Bounds.antt =====
-- src/failover.rs: one classification of an outcome.
use svc_resillience_rs.Prelude.{
  ℕ, ◌+◌, ◌≤◌, ◌<◌, ◌≡◌, refl, sym, subst, inl, inr, Bool, true, false, Option, none, some, List,
  ◌∷◌, arith, leb, length, Result, ok, err, map_err, Exec, done, panicked, In, In-filter_by,
  Bool-cases,
}
use svc_resillience_rs.Route.{RouteId, Route, is_weighted, contains}
use svc_resillience_rs.Route.Ids.{same_id_refl}
use svc_resillience_rs.Route.Sets.{DistinctIds}
use svc_resillience_rs.Weighted.{total}
use svc_resillience_rs.Routing.{RouteTable}
use svc_resillience_rs.Routing.Table.{IsTable}
use svc_resillience_rs.Eligibility.{
  RouteEligibility, RouteEligibilityError, from_predicate, select_weighted_with,
}
use svc_resillience_rs.Eligibility.Laws.{is_offered, offered}
use svc_resillience_rs.Eligibility.Selection.{Drawn, nothing, beyond, drawn, select_weighted-safe}
use svc_resillience_rs.Failover.{
  RouteAttemptBudget, RouteOutcome, RouteAttempt, RouteDecision, RouteFailoverError,
  route_failover_error, RouteFailover, select_remaining, from_primary, complete, retry_current,
  caller_terminal, route_attempt_budget_exhausted, no_remaining_eligible_route, after_selection,
  classify_with,
}

-- What holds of a failover policy in use.
pub record IsFailover (f : RouteFailover) : Type 0 where
  pub ordinal : f.current.ordinal + 1 ≡ length f.attempted
  pub visited : contains f.attempted f.current.route_id ≡ true
  pub distinct : DistinctIds f.attempted
  pub bounded : length f.attempted ≤ f.budget.max_routes
  pub generation : f.current.generation ≡ f.snapshot.generation

pub from_primary-IsFailover :
    (t : RouteTable) (e : RouteEligibility) (b : RouteAttemptBudget) (primary : RouteId)
    → 0 < b.max_routes
    → IsFailover (from_primary t e b primary)
unfolding from_primary contains
from_primary-IsFailover t e b primary p = ground (arith, same_id_refl primary)

abbrev pub next_attempt : RouteFailover → Route → RouteAttempt
next_attempt f r = record {
  generation = f.snapshot.generation;
  ordinal = length f.attempted;
  route_id = r.id;
}

abbrev pub at_next : RouteFailover → Route → RouteFailover
at_next f r = record f { attempted = r.id ∷ f.attempted; current = next_attempt f r }

-- The answers that ask nothing of the table.
abbrev pub settled : RouteOutcome → Option RouteDecision
settled RouteOutcome.succeeded = some complete
settled RouteOutcome.retry_same_route = some retry_current
settled RouteOutcome.stop = some (RouteDecision.stop caller_terminal)
settled RouteOutcome.failover = none

-- The routes that a failover may go to.
abbrev pub remaining : (Route → Bool) → RouteFailover → List Route
remaining predicate f = offered predicate (λ r. contains f.attempted r.id) f.snapshot.routes

-- One classification: the new policy and its answer, by the outcome and the draw.
pub data Classified (predicate : Route → Bool) (f : RouteFailover) (outcome : RouteOutcome)
    (draw : ℕ → ℕ) : RouteFailover × Exec (Result RouteDecision RouteFailoverError) → Type 0 where
  kept :
      (d : RouteDecision)
      → settled outcome ≡ some d
      → Classified predicate f outcome draw (f, done (ok d))
  exhausted :
      settled outcome ≡ none
      → f.budget.max_routes ≤ length f.attempted
      → Classified predicate f outcome draw
          (f, done (ok (RouteDecision.stop route_attempt_budget_exhausted)))
  no_route :
      settled outcome ≡ none
      → length f.attempted < f.budget.max_routes
      → total (remaining predicate f) ≡ 0
      → Classified predicate f outcome draw
          (f, done (ok (RouteDecision.stop no_remaining_eligible_route)))
  failed :
      settled outcome ≡ none
      → length f.attempted < f.budget.max_routes
      → 0 < total (remaining predicate f)
      → total (remaining predicate f) ≤ draw (total (remaining predicate f))
      → Classified predicate f outcome draw (f, done (err route_failover_error))
  moved :
      (r : Route)
      → settled outcome ≡ none
      → In r f.snapshot.routes
      → is_weighted r ≡ true
      → predicate r ≡ true
      → contains f.attempted r.id ≡ false
      → length f.attempted < f.budget.max_routes
      → Classified predicate f outcome draw
          (at_next f r, done (ok (RouteDecision.failover (next_attempt f r))))

after_selection-moved :
    (f : RouteFailover) (r : Route)
    → contains f.attempted r.id ≡ false
    → after_selection f (done (ok (some r)))
      ≡ (at_next f r, done (ok (RouteDecision.failover (next_attempt f r))))
unfolding after_selection
after_selection-moved f r h = ground arith

after_selection-Classified :
    (predicate : Route → Bool) (f : RouteFailover) (draw : ℕ → ℕ)
    (s : Exec (Result (Option Route) RouteEligibilityError))
    → length f.attempted < f.budget.max_routes
    → Drawn (remaining predicate f) draw s
    → Classified predicate f RouteOutcome.failover draw (
        after_selection f (elim s [
          | panicked ↦ panicked
          | done r ↦ done (map_err (λ error. route_failover_error) r)
        ]))
unfolding after_selection
after_selection-Classified predicate f draw _ room (nothing h) = no_route refl room h
after_selection-Classified predicate f draw _ room (beyond p h) = failed refl room p h
after_selection-Classified predicate f draw _ room (drawn r m h) =
    let facts =
      In-filter_by (is_offered predicate (λ q. contains f.attempted q.id)) r f.snapshot.routes m in
    let fresh : contains f.attempted r.id ≡ false = ground (arith, facts.1) in
    subst (Classified predicate f RouteOutcome.failover draw)
      (sym (after_selection-moved f r fresh))
      (moved r refl facts.0 (ground (arith, facts.1)) (ground (arith, facts.1)) fresh room)

-- Classifying an outcome under a decision made from the snapshot itself, a valid table, never
-- panics. `Succeeded`, `RetrySameRoute` and `Stop` have their own answers and keep the policy. A
-- `Failover` is stopped for the budget exactly when as many routes as it allows were tried; below
-- that it is stopped for want of a route only if the routes that remain (enabled, weighted, let
-- through, not tried) have no weight, fails only for a draw beyond their weight, and otherwise
-- moves to one of them; only the move changes the policy.
pub classify_with-Classified :
    (predicate : Route → Bool) (f : RouteFailover) (outcome : RouteOutcome) (draw : ℕ → ℕ)
    → IsTable f.snapshot
    → f.eligibility ≡ from_predicate f.snapshot predicate
    → Classified predicate f outcome draw (classify_with f outcome draw)
unfolding classify_with select_remaining
classify_with-Classified predicate f RouteOutcome.succeeded draw v e = kept _ refl
classify_with-Classified predicate f RouteOutcome.retry_same_route draw v e = kept _ refl
classify_with-Classified predicate f RouteOutcome.stop draw v e = kept _ refl
classify_with-Classified predicate f RouteOutcome.failover draw v e =
    elim (Bool-cases (leb f.budget.max_routes (length f.attempted))) [
      | inl over ↦ rw over (exhausted refl (ground arith))
      | inr room ↦ rw room (
          after_selection-Classified predicate f draw _ (ground arith) (
            subst
              (λ el.
                Drawn (offered predicate (λ r. contains f.attempted r.id) f.snapshot.routes) draw
                  (select_weighted_with f.snapshot el (λ r. contains f.attempted r.id) draw))
              (sym e)
              (select_weighted-safe f.snapshot predicate (λ r. contains f.attempted r.id) draw v)))
    ]
