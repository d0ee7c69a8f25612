-- ===== src/Eligibility/Foreign.antt =====
-- src/eligibility.rs: a decision made from another table. Only the generation numbers are compared,
-- and `RouteTable::new` takes any number, so two tables can share one.
use svc_resillience_rs.Prelude.{
  ℕ, ◌≤◌, ◌<◌, ◌≡◌, refl, ◌∙◌, subst, Bool, true, false, some, List, arith, filter_by, ok, done,
  panicked, In, In-filter_by_of, u64_max,
}
use svc_resillience_rs.Route.{Route, is_weighted, contains}
use svc_resillience_rs.Weighted.{total, walk-reaches, checked_total_overflow}
use svc_resillience_rs.Routing.{RouteTable}
use svc_resillience_rs.Routing.Table.{IsTable}
use svc_resillience_rs.Eligibility.{RouteEligibility, all, is_candidate, select_with}
use svc_resillience_rs.Eligibility.Laws.{from_predicate-contains}
use svc_resillience_rs.Eligibility.Selection.{select-candidates, draw_from-reached}

abbrev pub none_excluded : Route → Bool
none_excluded r = false

abbrev pub candidates : RouteEligibility → RouteTable → List Route
candidates e t = filter_by (is_candidate e none_excluded) t.routes

-- A decision of the same generation number as a table passes its check whatever table it is from;
-- if the weights in this table of the routes that it names do not fit into 64 bits together, the
-- choice panics.
pub foreign_overflow_panics :
    (t : RouteTable) (e : RouteEligibility) (draw : ℕ → ℕ)
    → t.generation ≡ e.generation
    → u64_max < total (candidates e t)
    → select_with e t draw ≡ panicked
unfolding select_with
foreign_overflow_panics t e draw g over =
    ground (arith, checked_total_overflow 0 (candidates e t) (omega arith) (omega arith))

-- A decision that lets all routes of a valid table through passes the check of another table of
-- the same generation number. A route that the other table has disabled, with weight, and that the
-- first has enabled with weight under the same identifier, is then chosen by some draw, if the
-- weights of the candidates do not overflow.
pub foreign_chooses_disabled :
    (t u : RouteTable) (r q : Route)
    → IsTable u
    → t.generation ≡ u.generation
    → In r t.routes
    → r.enabled ≡ false
    → 0 < r.weight
    → In q u.routes
    → is_weighted q ≡ true
    → q.id ≡ r.id
    → total (candidates (all u) t) ≤ u64_max
    → (c : ℕ) × (select_with (all u) t (λ n. c) ≡ done (ok (some r)))
unfolding select_with all
foreign_chooses_disabled t u r q v g m off w mq wq same fits =
    let named : contains (all u).eligible r.id ≡ true =
      subst (λ i. contains (all u).eligible i ≡ true) same
        (from_predicate-contains u (λ s. true) q v mq ∙ ground arith) in
    let offered : In r (candidates (all u) t) =
      In-filter_by_of (is_candidate (all u) none_excluded) r t.routes m (ground arith) in
    let (c, l, reached) = walk-reaches r (candidates (all u) t) offered w in
    (
      c,
      select-candidates t (all u) none_excluded (λ n. c) (candidates (all u) t) g refl fits
          ∙ draw_from-reached (candidates (all u) t) c r l reached,
    )
