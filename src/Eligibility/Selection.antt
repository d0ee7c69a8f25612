-- ===== src/Eligibility/Selection.antt =====
-- src/eligibility.rs: what the weighted choice among eligible routes gives, for a decision made from
-- the same table.
use svc_resillience_rs.Prelude.{
  ℕ, ◌≤◌, ◌<◌, ◌≡◌, refl, ap, sym, subst, ◌∙◌, Bool, true, false, Option, none, some, List, arith,
  filter_by, Result, ok, err, Exec, done, panicked, count_below, In, In-append, dec_lt, u64_max,
  lt→leb_false,
}
use svc_resillience_rs.Route.{RouteId, Route, same_id}
use svc_resillience_rs.Weighted.{
  total, walk, walk-Lands, checked_total-eq, picks, walk-weight, count_below-ext,
}
use svc_resillience_rs.Weighted.Filtered.{weight_of-Distinct}
use svc_resillience_rs.Routing.{RouteTable}
use svc_resillience_rs.Routing.Table.{IsTable}
use svc_resillience_rs.Eligibility.{
  RouteEligibility, RouteEligibilityError, draw_out_of_range, from_predicate, draw_from,
  select_weighted_with, is_candidate,
}
use svc_resillience_rs.Eligibility.Laws.{is_offered, offered, candidates-offered, offered-fit}

pub select-candidates :
    (t : RouteTable) (e : RouteEligibility) (excluded : Route → Bool) (draw : ℕ → ℕ)
    (cs : List Route)
    → t.generation ≡ e.generation
    → filter_by (is_candidate e excluded) t.routes ≡ cs
    → total cs ≤ u64_max
    → select_weighted_with t e excluded draw ≡ draw_from cs draw (total cs)
unfolding select_weighted_with
select-candidates t e excluded draw cs g c fits =
    ground (arith, checked_total-eq 0 cs (omega arith))

-- With a decision from the table itself the choice is a draw from the routes on offer.
pub select-offered :
    (t : RouteTable) (predicate excluded : Route → Bool) (draw : ℕ → ℕ)
    → IsTable t
    → select_weighted_with t (from_predicate t predicate) excluded draw
      ≡ draw_from
          (offered predicate excluded t.routes)
          draw
          (total (offered predicate excluded t.routes))
unfolding from_predicate
select-offered t predicate excluded draw v =
    select-candidates t (from_predicate t predicate) excluded draw
      (offered predicate excluded t.routes) refl (candidates-offered t predicate excluded v)
      (offered-fit t predicate excluded v)

-- What a draw from candidates gives.
pub data Drawn (candidates : List Route) (draw : ℕ → ℕ)
    : Exec (Result (Option Route) RouteEligibilityError) → Type 0 where
  nothing : total candidates ≡ 0 → Drawn candidates draw (done (ok none))
  beyond :
      0 < total candidates
      → total candidates ≤ draw (total candidates)
      → Drawn candidates draw (done (err draw_out_of_range))
  drawn :
      (r : Route)
      → In r candidates
      → draw (total candidates) < total candidates
      → Drawn candidates draw (done (ok (some r)))

pub draw_from-reached :
    (candidates : List Route) (c : ℕ) (r : Route)
    → c < total candidates
    → walk c candidates ≡ done r
    → draw_from candidates (λ n. c) (total candidates) ≡ done (ok (some r))
unfolding draw_from
draw_from-reached candidates c r l e = ground (arith, lt→leb_false (total candidates) c l)

draw_in_range :
    (candidates : List Route) (draw : ℕ → ℕ)
    → draw (total candidates) < total candidates
    → Drawn candidates draw (draw_from candidates draw (total candidates))
unfolding draw_from
draw_in_range candidates draw l =
    let t = walk-Lands (draw (total candidates)) candidates l in
    let e : draw_from candidates draw (total candidates) ≡ done (ok (some t.route)) =
      ground (arith, t.reached) in
    subst (Drawn candidates draw) (sym e)
      (drawn t.route (subst (In t.route) (sym t.splits) (In-append t.before t.route t.after)) l)

draw_from-Drawn :
    (candidates : List Route) (draw : ℕ → ℕ)
    → Drawn candidates draw (draw_from candidates draw (total candidates))
draw_from-Drawn candidates draw = elim (dec_lt (draw (total candidates)) (total candidates)) [
  | yes l ↦ draw_in_range candidates draw l
  | no over ↦ elim (dec_lt 0 (total candidates)) [
    | yes some_weight ↦
        let e : draw_from candidates draw (total candidates) ≡ done (err draw_out_of_range) =
          unfold draw_from in ground arith in
        subst (Drawn candidates draw) (sym e) (beyond some_weight (omega arith))
    | no no_weight ↦
        let e : draw_from candidates draw (total candidates) ≡ done (ok none) =
          unfold draw_from in ground arith in
        subst (Drawn candidates draw) (sym e) (nothing (omega arith))
  ]
]

-- A choice from a valid table made with a decision from the table itself never panics, whatever is
-- excluded. It gives nothing only if the routes on offer (enabled, with weight, let through by the
-- predicate, not excluded) have no weight together; the error `DrawOutOfRange` only for a draw
-- beyond their total; and otherwise, for a draw below it, a route of the table that is on offer.
pub select_weighted-safe :
    (t : RouteTable) (predicate excluded : Route → Bool) (draw : ℕ → ℕ)
    → IsTable t
    → Drawn
        (offered predicate excluded t.routes)
        draw
        (select_weighted_with t (from_predicate t predicate) excluded draw)
select_weighted-safe t predicate excluded draw v =
    subst (Drawn (offered predicate excluded t.routes) draw)
      (sym (select-offered t predicate excluded draw v))
      (draw_from-Drawn (offered predicate excluded t.routes) draw)

abbrev pub chosen : RouteId → Exec (Result (Option Route) RouteEligibilityError) → Bool
chosen i panicked = false
chosen i (done (err e)) = false
chosen i (done (ok none)) = false
chosen i (done (ok (some r))) = same_id r.id i

chosen-picks :
    (candidates : List Route) (i : RouteId) (c : ℕ)
    → c < total candidates
    → chosen i (draw_from candidates (λ n. c) (total candidates)) ≡ picks i (walk c candidates)
unfolding draw_from
chosen-picks candidates i c l = ground (arith, lt→leb_false (total candidates) c l)

-- With a decision made from a valid table the choice from that table is weighted after filtering,
-- and exact: of the draws below the total weight on offer, a route of the table that is on offer
-- is chosen by exactly as many as its weight.
pub select_weighted-exact :
    (t : RouteTable) (predicate excluded : Route → Bool) (r : Route)
    → IsTable t
    → In r t.routes
    → is_offered predicate excluded r ≡ true
    → count_below
        (total (offered predicate excluded t.routes))
        (λ c. chosen r.id (select_weighted_with t (from_predicate t predicate) excluded (λ n. c)))
      ≡ r.weight
select_weighted-exact t predicate excluded r v m o =
    count_below-ext (total (offered predicate excluded t.routes)) _ _ (λ c l.
      ap (chosen r.id) (select-offered t predicate excluded (λ n. c) v)
      ∙ chosen-picks (offered predicate excluded t.routes) r.id c l)
    ∙ walk-weight r.id (offered predicate excluded t.routes)
    ∙ weight_of-Distinct (is_offered predicate excluded) r t.routes v.distinct m o
