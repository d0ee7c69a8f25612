-- ===== src/Eligibility.antt =====
-- src/eligibility.rs: the set of routes that a health or policy predicate lets through, and the
-- weighted choice among them.
pub mod Laws
pub mod Selection
pub mod Foreign
pub mod Snapshots
use svc_resillience_rs.Prelude.{
  ℕ, Bool, true, false, not, ◌&&◌, Option, none, some, List, [], ◌∷◌, map, String, leb, ◌==◌,
  if◌then◌else◌, filter_by, Result, ok, err, Exec, done, panicked,
}
use svc_resillience_rs.Route.{RouteId, Route, is_weighted, IdSet, contains, insert}
use svc_resillience_rs.Weighted.{walk, checked_total}
use svc_resillience_rs.Routing.{RouteTable}

pub record RouteEligibility : Type 0 where
  pub generation : ℕ
  pub eligible : IdSet

-- `collect` into a `HashSet`.
unfoldable pub collect : List RouteId → IdSet
unfolding insert
collect [] = []
collect (i ∷ is) = (insert (collect is) i).0

unfoldable pub from_predicate : RouteTable → (Route → Bool) → RouteEligibility
unfolding collect
from_predicate t predicate = record {
  generation = t.generation;
  eligible = collect (map (λ r. r.id) (filter_by (λ r. is_weighted r && predicate r) t.routes));
}

-- `RouteEligibility::all`.
unfoldable pub all : RouteTable → RouteEligibility
unfolding from_predicate
all t = from_predicate t (λ r. true)

unfoldable pub is_empty : RouteEligibility → Bool
is_empty e = elim e.eligible [ [] ↦ true | i ∷ is ↦ false ]

pub data RouteEligibilityError : Type 0 where
  generation_mismatch draw_out_of_range : RouteEligibilityError

unfoldable pub display_eligibility_error : RouteEligibilityError → String
display_eligibility_error generation_mismatch =
    "route eligibility was derived from a different routing generation"
display_eligibility_error draw_out_of_range =
    "eligible-route weighted draw was outside the requested range"

-- The filter of `select_weighted_with`.
abbrev pub is_candidate : RouteEligibility → (Route → Bool) → Route → Bool
is_candidate e excluded r = contains e.eligible r.id && not (excluded r)

unfoldable pub found : Exec Route → Exec (Result (Option Route) RouteEligibilityError)
found panicked = panicked
found (done r) = done (ok (some r))

-- The draw and the walk of `select_weighted_with`, for candidates of the given total weight.
unfoldable pub draw_from :
    List Route → (ℕ → ℕ) → ℕ → Exec (Result (Option Route) RouteEligibilityError)
unfolding found
draw_from candidates draw total =
    if total == 0
    then done (ok none)
    else if leb total (draw total)
    then done (err draw_out_of_range)
    else found (walk (draw total) candidates)

-- A total beyond 64 bits is the panic of `expect`.
unfoldable pub select_weighted_with :
    RouteTable
    → RouteEligibility
    → (Route → Bool)
    → (ℕ → ℕ)
    → Exec (Result (Option Route) RouteEligibilityError)
select_weighted_with t e excluded draw =
    let candidates = filter_by (is_candidate e excluded) t.routes in
    if t.generation == e.generation
    then elim (checked_total 0 candidates) [
      | none ↦ panicked
      | some total ↦ draw_from candidates draw total
    ]
    else done (err generation_mismatch)

-- `RouteEligibility::select_with`.
unfoldable pub select_with :
    RouteEligibility → RouteTable → (ℕ → ℕ) → Exec (Result (Option Route) RouteEligibilityError)
unfolding select_weighted_with
select_with e t draw = select_weighted_with t e (λ r. false) draw
