-- ===== src/Failover/Start.antt =====
-- src/failover.rs: how a request's failover starts and goes on.
use svc_resillience_rs.Prelude.{
  ℕ, ◌+◌, ◌<◌, ◌≡◌, refl, ap, sym, ◌∙◌, subst, Bool, true, List, [], arith, length, ok, done,
  panicked, In, map_err, lt→leb_false, some,
}
use svc_resillience_rs.Route.{RouteId, Route, is_weighted, contains}
use svc_resillience_rs.Route.Sets.{DistinctIds}
use svc_resillience_rs.Weighted.{total, walk}
use svc_resillience_rs.Weighted.Filtered.{filter_by-ext}
use svc_resillience_rs.Routing.{RouteTable, select_with, select, expect}
use svc_resillience_rs.Routing.Selection.{select_in_range, Lands-In}
use svc_resillience_rs.Routing.Table.{IsTable, eligible}
use svc_resillience_rs.Eligibility.{RouteEligibility, from_predicate, all, draw_from}
use svc_resillience_rs.Eligibility.Laws.{is_offered, offered}
use svc_resillience_rs.Eligibility.Selection.{select-offered}
use svc_resillience_rs.Failover.{
  RouteAttemptBudget, RouteOutcome, route_failover_error, RouteFailover, select_remaining,
  from_primary, with_primary, new_with, failover_new, from_primary_eligibility,
}
use svc_resillience_rs.Failover.Bounds.{from_primary-IsFailover}
use svc_resillience_rs.Failover.Sequence.{classify_all, count_failovers, classify_all-IsFailover}

started :
    (t : RouteTable) (e : RouteEligibility) (b : RouteAttemptBudget) (primary : RouteId)
    (f : RouteFailover)
    → from_primary_eligibility t e b primary ≡ ok f
    → f ≡ from_primary t e b primary
unfolding from_primary_eligibility
started t e b primary f h = ground arith

abbrev pub IsBounded :
    RouteTable → RouteAttemptBudget → RouteFailover → List (RouteOutcome × (ℕ → ℕ)) → Type 0
IsBounded t b f rest =
    (count_failovers f rest < b.max_routes)
    × (length (classify_all f rest).attempted ≡ count_failovers f rest + 1)
    × DistinctIds (classify_all f rest).attempted
    × ((classify_all f rest).current.generation ≡ t.generation)
    × ((classify_all f rest).current.ordinal ≡ count_failovers f rest)

from_primary-length :
    (t : RouteTable) (e : RouteEligibility) (b : RouteAttemptBudget) (primary : RouteId)
    → length (from_primary t e b primary).attempted ≡ 1
unfolding from_primary contains
from_primary-length t e b primary = refl

from_primary-budget :
    (t : RouteTable) (e : RouteEligibility) (b : RouteAttemptBudget) (primary : RouteId)
    → (from_primary t e b primary).budget ≡ b
unfolding from_primary
from_primary-budget t e b primary = refl

primary-IsBounded :
    (t : RouteTable) (predicate : Route → Bool) (b : RouteAttemptBudget) (primary : RouteId)
    (rest : List (RouteOutcome × (ℕ → ℕ)))
    → IsTable t
    → 0 < b.max_routes
    → IsBounded t b (from_primary t (from_predicate t predicate) b primary) rest
unfolding from_primary
primary-IsBounded t predicate b primary rest v p =
    let f : RouteFailover = from_primary t (from_predicate t predicate) b primary in
    let after =
      classify_all-IsFailover predicate f rest v refl
        (from_primary-IsFailover t (from_predicate t predicate) b primary p) in
    let limit : (classify_all f rest).budget.max_routes ≡ b.max_routes =
      ap (λ c. c.max_routes)
        (after.1.2 ∙ from_primary-budget t (from_predicate t predicate) b primary) in
    let one = from_primary-length t (from_predicate t predicate) b primary in
    (
      omega (arith, after.2, one, limit, after.0.bounded),
      omega (arith, after.2, one),
      after.0.distinct,
      after.0.generation ∙ ap (λ u. u.generation) after.1.0,
      omega (arith, after.2, one, after.0.ordinal),
    )

-- On a valid table and with a budget of at least one route, a request that starts with an
-- eligibility decision made from its own snapshot makes fewer failovers than its budget has
-- routes, whatever outcomes and draws follow. It tries a new route with each of them, never one
-- twice, and its current attempt carries the snapshot's generation and the number of failovers so
-- far.
pub failover-IsBounded :
    (t : RouteTable) (predicate : Route → Bool) (b : RouteAttemptBudget) (primary : RouteId)
    (f : RouteFailover) (rest : List (RouteOutcome × (ℕ → ℕ)))
    → IsTable t
    → 0 < b.max_routes
    → from_primary_eligibility t (from_predicate t predicate) b primary ≡ ok f
    → IsBounded t b f rest
failover-IsBounded t predicate b primary f rest v p h =
    subst (λ g. IsBounded t b g rest) (sym (started t (from_predicate t predicate) b primary f h))
      (primary-IsBounded t predicate b primary rest v p)

offered_all :
    (t : RouteTable) → offered (λ r. true) (λ r. contains [] r.id) t.routes ≡ eligible t.routes
unfolding contains
offered_all t =
    filter_by-ext (is_offered (λ r. true) (λ r. contains [] r.id)) is_weighted t.routes
      (λ r m. ground arith)

-- A draw that reaches a route, among the candidates of the given total weight.
drawn_route :
    (cs : List Route) (draw : ℕ → ℕ) (n : ℕ) (r : Route)
    → n ≡ total cs
    → draw n < n
    → walk (draw n) cs ≡ done r
    → draw_from cs draw (total cs) ≡ done (ok (some r))
unfolding draw_from
drawn_route cs draw n r e below reached =
    let low : draw (total cs) < total cs = subst (λ m. draw m < m) e below in
    let same : walk (draw (total cs)) cs ≡ done r =
      subst (λ m. walk (draw m) cs ≡ done r) e reached in
    ground (arith, same, lt→leb_false (total cs) (draw (total cs)) low)

remaining_at_start :
    (t : RouteTable) (draw : ℕ → ℕ) (r : Route)
    → IsTable t
    → draw t.eligible_weight < t.eligible_weight
    → walk (draw t.eligible_weight) (eligible t.routes) ≡ done r
    → select_remaining t (all t) [] draw ≡ done (ok (some r))
unfolding select_remaining all
remaining_at_start t draw r v below reached =
    let offer = offered (λ q. true) (λ q. contains [] q.id) t.routes in
    let same = offered_all t in
    let drawn =
      select-offered t (λ q. true) (λ q. contains [] q.id) draw v
      ∙ drawn_route offer draw t.eligible_weight r (v.weight ∙ sym (ap total same)) below
          (ap (walk (draw t.eligible_weight)) same ∙ reached) in
    ap
      (λ s. elim s [
        | panicked ↦ panicked
        | done a ↦ done (map_err (λ error. route_failover_error) a)
      ])
      drawn

-- The two ways to start agree. From a valid table, with a draw in range, `new` and `new_with` give the
-- same policy, and the `expect`s never panic: its first route is the one that the table's own weighted
-- selection picks for that draw, a route of the table that is enabled and has weight.
pub new_with-agrees :
    (t : RouteTable) (b : RouteAttemptBudget) (draw : ℕ → ℕ)
    → IsTable t
    → draw t.eligible_weight < t.eligible_weight
    → (r : Route) × In r t.routes
      × (is_weighted r ≡ true)
      × (select_with t draw ≡ done (ok r))
      × (new_with t b draw ≡ done (ok (from_primary t (all t) b r.id)))
      × (failover_new t b draw ≡ done (from_primary t (all t) b r.id))
unfolding new_with failover_new with_primary select expect
new_with-agrees t b draw v below =
    let (l, picked) = select_in_range t draw v below in
    let chosen : select t draw ≡ done l.route = ap expect picked in
    let (member, weighted) = Lands-In (draw t.eligible_weight) t.routes l in
    (
      l.route,
      member,
      weighted,
      picked,
      rw (remaining_at_start t draw l.route v below l.reached, with_primary) refl,
      rw (chosen, failover_new) refl,
    )
