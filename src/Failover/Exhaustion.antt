-- ===== src/Failover/Exhaustion.antt =====
-- src/failover.rs: a request that fails on every route it tries.
use svc_resillience_rs.Prelude.{
  ℕ, suc, zero, ◌+◌, ◌≤◌, ◌<◌, ◌≡◌, refl, ap, sym, ◌∙◌, inl, inr, Bool, true, ◌&&◌, Option, none,
  some, List, [], ◌∷◌, map, arith, leb, min, if◌then◌else◌, length, filter_by, Result, ok, Exec,
  done, In, here, there, In-filter_by_of, Bool-cases,
}
use svc_resillience_rs.Route.{RouteId, Route, is_weighted, IdSet, contains, same_id}
use svc_resillience_rs.Route.Ids.{same_id_refl, same_id_iff, Distinct}
use svc_resillience_rs.Route.Sets.{DistinctIds, Within, length-Within}
use svc_resillience_rs.Weighted.{total}
use svc_resillience_rs.Routing.{RouteTable}
use svc_resillience_rs.Routing.Table.{IsTable}
use svc_resillience_rs.Eligibility.{from_predicate}
use svc_resillience_rs.Eligibility.Laws.{contains-collect, is_offered}
use svc_resillience_rs.Failover.{
  RouteAttemptBudget, RouteOutcome, RouteDecision, RouteStopReason, RouteFailoverError,
  RouteFailover, from_primary, route_attempt_budget_exhausted, no_remaining_eligible_route,
  classify_with,
}
use svc_resillience_rs.Failover.Bounds.{
  at_next, remaining, Classified, kept, exhausted, no_route, failed, moved,
  classify_with-Classified,
}

-- Goes on after a failover, and ends with the reason of a stop.
abbrev pub resume :
    (RouteFailover → RouteFailover × Option RouteStopReason)
    → RouteFailover × Exec (Result RouteDecision RouteFailoverError)
    → RouteFailover × Option RouteStopReason
resume go_on (f, done (ok (RouteDecision.failover next))) = go_on f
resume go_on (f, done (ok (RouteDecision.stop why))) = (f, some why)
resume go_on (f, _) = (f, none)

-- Every route that is tried fails: `Failover` after `Failover`, up to a number of them.
unfoldable pub keep_failing :
    (ℕ → ℕ → ℕ) → ℕ → RouteFailover → RouteFailover × Option RouteStopReason
keep_failing draws zero f = (f, none)
keep_failing draws (suc n) f =
    resume (keep_failing draws n) (classify_with f RouteOutcome.failover (draws n))

abbrev ids_by : (Route → Bool) → List Route → IdSet
ids_by p rs = map (λ (r : Route). r.id) (filter_by p rs)

-- The identifiers of the eligible routes of a table.
abbrev pub eligible_ids : (Route → Bool) → RouteTable → IdSet
eligible_ids predicate t =
    map (λ (r : Route). r.id) (filter_by (λ r. is_weighted r && predicate r) t.routes)

ids_by-Within : (p : Route → Bool) (rs : List Route) → Within (ids_by p rs) (map (λ r. r.id) rs)
unfolding contains
ids_by-Within p [] i h = h
ids_by-Within p (r ∷ rs) i h = ground (arith, ids_by-Within p rs i)

ids_by-DistinctIds : (p : Route → Bool) (rs : List Route) → Distinct rs → DistinctIds (ids_by p rs)
ids_by-DistinctIds p [] d = tt
ids_by-DistinctIds p (r ∷ rs) d = elim (Bool-cases (p r)) [
  | inl h ↦ rw h (ground (arith, d.0, ids_by-Within p rs r.id), ids_by-DistinctIds p rs d.1)
  | inr h ↦ rw h (ids_by-DistinctIds p rs d.1)
]

contains-map : (r : Route) (rs : List Route) → In r rs → contains (map (λ q. q.id) rs) r.id ≡ true
unfolding contains
contains-map r [] m = elim m [ ]
contains-map r (q ∷ rs) (here e) = ground (arith, same_id_refl r.id, ap (λ s. same_id s.id r.id) e)
contains-map r (q ∷ rs) (there m) = ground (arith, contains-map r rs m)

Within-cons :
    (i : RouteId) (xs ys : IdSet) → contains ys i ≡ true → Within xs ys → Within (i ∷ xs) ys
unfolding contains
Within-cons i xs ys m w j h = ground (arith, same_id_iff i j, ap (contains ys), w j)

-- With no weight left on offer every eligible route was tried.
nothing_left :
    (predicate : Route → Bool) (tried : IdSet) (rs : List Route)
    → total (filter_by (is_offered predicate (λ r. contains tried r.id)) rs) ≡ 0
    → Within (ids_by (λ r. is_weighted r && predicate r) rs) tried
unfolding contains
nothing_left predicate tried [] z i h = cc
nothing_left predicate tried (r ∷ rs) z i h =
    let one : same_id r.id i ≡ true → contains tried r.id ≡ contains tried i =
      λ e. ap (contains tried) ((same_id_iff r.id i).0 e) in
    let rest : total (filter_by (is_offered predicate (λ q. contains tried q.id)) rs) ≡ 0
        → contains (ids_by (λ q. is_weighted q && predicate q) rs) i ≡ true
        → contains tried i ≡ true =
      λ y. nothing_left predicate tried rs y i in
    ground (arith, one, rest)

-- How a request ends whose every route fails.
pub record IsExhausted (predicate : Route → Bool) (t : RouteTable) (b : RouteAttemptBudget)
    (end : RouteFailover × Option RouteStopReason) : Type 0 where
  pub tried : length end.0.attempted ≡ min b.max_routes (length (eligible_ids predicate t))
  pub distinct : DistinctIds end.0.attempted
  pub eligible : Within end.0.attempted (eligible_ids predicate t)
  pub reason :
      end.1
      ≡ some (
          if leb b.max_routes (length (eligible_ids predicate t))
          then route_attempt_budget_exhausted
          else no_remaining_eligible_route)

module _ (predicate : Route → Bool) (draws : ℕ → ℕ → ℕ)
    (in_range : (n m : ℕ) → 0 < m → draws n m < m) where
  -- The routes tried are different eligible ones, within the budget.
  record IsUnderWay (f : RouteFailover) : Type 0 where
    table : IsTable f.snapshot
    decision : f.eligibility ≡ from_predicate f.snapshot predicate
    distinct : DistinctIds f.attempted
    eligible : Within f.attempted (eligible_ids predicate f.snapshot)
    bounded : length f.attempted ≤ f.budget.max_routes

  ends_at :
      (n : ℕ) (f : RouteFailover)
      (c : RouteFailover × Exec (Result RouteDecision RouteFailoverError))
      → ((g : RouteFailover)
          → IsUnderWay g
          → g.budget.max_routes < n + length g.attempted
          → IsExhausted predicate g.snapshot g.budget (keep_failing draws n g))
      → IsUnderWay f
      → f.budget.max_routes < suc n + length f.attempted
      → Classified predicate f RouteOutcome.failover (draws n) c
      → IsExhausted predicate f.snapshot f.budget (resume (keep_failing draws n) c)
  ends_at n f _ ih u fuel (kept d h) = cc
  ends_at n f _ ih u fuel (exhausted h full) =
      let few =
        length-Within f.attempted (eligible_ids predicate f.snapshot) u.distinct u.eligible in
      record {
        tried = omega (arith, few, full, u.bounded);
        distinct = u.distinct;
        eligible = u.eligible;
        reason = ground (arith, few, full, u.bounded);
      }
  ends_at n f _ ih u fuel (no_route h room z) =
      let few =
        length-Within f.attempted (eligible_ids predicate f.snapshot) u.distinct u.eligible in
      let all =
        length-Within (eligible_ids predicate f.snapshot) f.attempted
          (ids_by-DistinctIds _ f.snapshot.routes u.table.distinct)
          (nothing_left predicate f.attempted f.snapshot.routes z) in
      record {
        tried = omega (arith, few, all, room);
        distinct = u.distinct;
        eligible = u.eligible;
        reason = ground (arith, all, room);
      }
  ends_at n f _ ih u fuel (failed h room p l) =
      absurd (omega (arith, l, in_range n (total (remaining predicate f)) p))
  ends_at n f _ ih u fuel (moved r h m w t fresh room) =
      ih (at_next f r)
        (record {
          table = u.table;
          decision = u.decision;
          distinct = (fresh, u.distinct);
          eligible =
              Within-cons r.id f.attempted _
                (contains-map r _ (In-filter_by_of _ r f.snapshot.routes m (ground arith)))
                u.eligible;
          bounded = omega arith;
        })
        (omega (arith, fuel))

  keep_failing-IsExhausted :
      (n : ℕ) (f : RouteFailover)
      → IsUnderWay f
      → f.budget.max_routes < n + length f.attempted
      → IsExhausted predicate f.snapshot f.budget (keep_failing draws n f)
  unfolding keep_failing
  keep_failing-IsExhausted zero f u fuel = absurd (omega (arith, fuel, u.bounded))
  keep_failing-IsExhausted (suc n) f u fuel =
      ends_at n f _ (keep_failing-IsExhausted n) u fuel
        (classify_with-Classified predicate f RouteOutcome.failover (draws n) u.table u.decision)

  -- A request that fails on every route it tries, with an eligible primary, a decision made from its
  -- own valid table, a budget of at least one route and draws in range, is stopped after as many
  -- classifications as the budget has routes at the latest. By then it has tried as many different
  -- routes as the budget allows, or all the eligible ones if they are fewer, and no others; it is
  -- stopped for the budget in the first case and for want of a route in the second.
  pub failing-tries_all :
      (t : RouteTable) (b : RouteAttemptBudget) (primary : RouteId)
      → IsTable t
      → 0 < b.max_routes
      → contains (from_predicate t predicate).eligible primary ≡ true
      → IsExhausted predicate t b
          (keep_failing draws b.max_routes (from_primary t (from_predicate t predicate) b primary))
  unfolding from_primary contains
  failing-tries_all t b primary v p h =
      let named : contains (eligible_ids predicate t) primary ≡ true =
        sym (contains-collect (eligible_ids predicate t) primary) ∙ unfold from_predicate in h in
      keep_failing-IsExhausted b.max_routes (from_primary t (from_predicate t predicate) b primary)
        (record {
          table = v;
          decision = refl;
          distinct = (refl, tt);
          eligible = Within-cons primary [] _ named (λ i m. cc);
          bounded = omega arith;
        })
        (omega arith)
