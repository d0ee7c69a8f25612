-- ===== src/Eligibility/Laws.antt =====
-- src/eligibility.rs: which routes an eligibility decision contains.
use svc_resillience_rs.Prelude.{
  ◌≤◌, ◌≡◌, refl, ap, ◌∙◌, Bool, not, ◌&&◌, ◌||◌, List, [], ◌∷◌, arith, filter_by, In, u64_max,
}
use svc_resillience_rs.Route.{RouteId, Route, is_weighted, contains, same_id}
use svc_resillience_rs.Route.Sets.{contains-insert}
use svc_resillience_rs.Weighted.{total}
use svc_resillience_rs.Weighted.Filtered.{contains-filter_by, total-filter_by-le, filter_by-ext}
use svc_resillience_rs.Routing.{RouteTable}
use svc_resillience_rs.Routing.Table.{IsTable}
use svc_resillience_rs.Eligibility.{collect, from_predicate, is_candidate}

pub contains-collect : (is : List RouteId) (j : RouteId) → contains (collect is) j ≡ contains is j
unfolding collect contains
contains-collect [] j = refl
contains-collect (i ∷ is) j =
    contains-insert (collect is) i j ∙ ap (λ b. same_id i j || b) (contains-collect is j)

-- An eligibility decision made from a valid table contains a route of that table exactly if the
-- route is enabled, has weight and passes the predicate.
pub from_predicate-contains :
    (t : RouteTable) (predicate : Route → Bool) (r : Route)
    → IsTable t
    → In r t.routes
    → contains (from_predicate t predicate).eligible r.id ≡ (is_weighted r && predicate r)
unfolding from_predicate
from_predicate-contains t predicate r v m =
    contains-collect _ r.id
    ∙ contains-filter_by (λ q. is_weighted q && predicate q) r t.routes v.distinct m

-- A route that may be chosen: eligible by the predicate, and not excluded.
abbrev pub is_offered : (Route → Bool) → (Route → Bool) → Route → Bool
is_offered predicate excluded r = (is_weighted r && predicate r) && not (excluded r)

abbrev pub offered : (Route → Bool) → (Route → Bool) → List Route → List Route
offered predicate excluded = filter_by (is_offered predicate excluded)

pub candidates-offered :
    (t : RouteTable) (predicate excluded : Route → Bool)
    → IsTable t
    → filter_by (is_candidate (from_predicate t predicate) excluded) t.routes
      ≡ offered predicate excluded t.routes
candidates-offered t predicate excluded v =
    filter_by-ext (is_candidate (from_predicate t predicate) excluded)
      (is_offered predicate excluded) t.routes
      λ r m. ap (λ b. b && not (excluded r)) (from_predicate-contains t predicate r v m)

pub offered-fit :
    (t : RouteTable) (predicate excluded : Route → Bool)
    → IsTable t
    → total (offered predicate excluded t.routes) ≤ u64_max
offered-fit t predicate excluded v = omega (
  arith,
  v.weight,
  v.fits,
  total-filter_by-le is_weighted (is_offered predicate excluded) t.routes (λ r m h. ground arith),
)
