-- ===== src/Shadow/Eligible.antt =====
-- src/shadow.rs: plans made under an eligibility decision from the same table.
use svc_resillience_rs.Prelude.{
  ℕ, ◌≤◌, ◌≡◌, refl, sym, subst, Bool, true, false, Option, none, some, Result, ok, err, Exec, done,
  In,
}
use svc_resillience_rs.Route.{Route, same_id}
use svc_resillience_rs.Weighted.{total}
use svc_resillience_rs.Routing.{RouteTable}
use svc_resillience_rs.Routing.Table.{IsTable}
use svc_resillience_rs.Eligibility as Eligibility
use svc_resillience_rs.Eligibility.{
  RouteEligibility, RouteEligibilityError, draw_out_of_range, from_predicate, select_weighted_with,
}
use svc_resillience_rs.Eligibility.Laws.{offered}
use svc_resillience_rs.Eligibility.Selection.{Drawn, nothing, beyond, drawn, select_weighted-safe}
use svc_resillience_rs.Shadow.{
  ShadowSampling, sample_with, sampled_or_not, RoutePlan, RoutePlanError, eligibility,
  no_eligible_primary, build_plan, shadow_or_none, eligible_shadow, finish_plan, plan_eligible_with,
}

abbrev pub nobody : Route → Bool
nobody r = false

abbrev pub is_primary : Route → Route → Bool
is_primary primary r = same_id r.id primary.id

-- The shadow part of a plan: none, or a route on offer beside the primary.
pub data ShadowOffered (predicate : Route → Bool) (t : RouteTable) (primary : Route)
    : Option Route → Type 0 where
  unoffered : ShadowOffered predicate t primary none
  shadow_offered :
      (r : Route)
      → In r (offered predicate (is_primary primary) t.routes)
      → ShadowOffered predicate t primary (some r)

-- What planning under an eligibility decision gives.
pub data Planned (predicate : Route → Bool) (t : RouteTable) (draw : ℕ → ℕ)
    : Exec (Result RoutePlan RoutePlanError) → Type 0 where
  no_primary :
      total (offered predicate nobody t.routes) ≡ 0
      → Planned predicate t draw (done (err no_eligible_primary))
  primary_beyond :
      total (offered predicate nobody t.routes) ≤ draw (total (offered predicate nobody t.routes))
      → Planned predicate t draw (done (err (eligibility draw_out_of_range)))
  planned :
      (primary : Route) (sampled : Bool) (shadow : Option Route)
      → In primary (offered predicate nobody t.routes)
      → ShadowOffered predicate t primary shadow
      → Planned predicate t draw (done (ok (build_plan t primary sampled shadow)))

-- The shadow choice always ends, with a shadow on offer or none.
record Ended (predicate : Route → Bool) (t : RouteTable) (primary : Route) (x : Exec (Option Route))
    : Type 0 where
  shadow : Option Route
  ends : x ≡ done shadow
  is_offered : ShadowOffered predicate t primary shadow

shadow_or_none-Ended :
    (predicate : Route → Bool) (t : RouteTable) (primary : Route) (draw : ℕ → ℕ)
    (x : Exec (Result (Option Route) RouteEligibilityError))
    → Drawn (offered predicate (is_primary primary) t.routes) draw x
    → Ended predicate t primary (shadow_or_none x)
unfolding shadow_or_none
shadow_or_none-Ended predicate t primary draw _ (nothing z) = record {
  shadow = none;
  ends = refl;
  is_offered = unoffered;
}
shadow_or_none-Ended predicate t primary draw _ (beyond z l) = record {
  shadow = none;
  ends = refl;
  is_offered = unoffered;
}
shadow_or_none-Ended predicate t primary draw _ (drawn r m l) = record {
  shadow = some r;
  ends = refl;
  is_offered = shadow_offered r m;
}

eligible_shadow-Ended :
    (predicate : Route → Bool) (t : RouteTable) (primary : Route) (sampled : Bool) (draw : ℕ → ℕ)
    → IsTable t
    → Ended predicate t primary
        (eligible_shadow t (from_predicate t predicate) primary sampled draw)
unfolding eligible_shadow
eligible_shadow-Ended predicate t primary false draw v = record {
  shadow = none;
  ends = refl;
  is_offered = unoffered;
}
eligible_shadow-Ended predicate t primary true draw v =
    shadow_or_none-Ended predicate t primary draw _
      (select_weighted-safe t predicate (is_primary primary) draw v)

finish_plan-Planned :
    (predicate : Route → Bool) (t : RouteTable) (draw : ℕ → ℕ) (primary : Route) (sampled : Bool)
    (x : Exec (Option Route))
    → In primary (offered predicate nobody t.routes)
    → Ended predicate t primary x
    → Planned predicate t draw (finish_plan t primary sampled x)
unfolding finish_plan
finish_plan-Planned predicate t draw primary sampled x m s =
    subst (λ y. Planned predicate t draw (finish_plan t primary sampled y)) (sym s.ends)
      (planned primary sampled s.shadow m s.is_offered)

module _ (t : RouteTable) (predicate : Route → Bool) (s : ShadowSampling)
    (primary_draw sample_draw shadow_draw : ℕ → ℕ) (v : IsTable t) where
  abbrev the_plan : Exec (Result RoutePlan RoutePlanError)
  the_plan =
      plan_eligible_with t (from_predicate t predicate) s primary_draw sample_draw shadow_draw

  plan_of :
      (x : Exec (Result (Option Route) RouteEligibilityError))
      → Drawn (offered predicate nobody t.routes) primary_draw x
      → Eligibility.select_with (from_predicate t predicate) t primary_draw ≡ x
      → Planned predicate t primary_draw the_plan
  unfolding plan_eligible_with
  plan_of _ (nothing z) e =
      let p : the_plan ≡ done (err no_eligible_primary) = rw (e, plan_eligible_with) refl in
      subst (Planned predicate t primary_draw) (sym p) (no_primary z)
  plan_of _ (beyond z l) e =
      let p : the_plan ≡ done (err (eligibility draw_out_of_range)) =
        rw (e, plan_eligible_with) refl in
      subst (Planned predicate t primary_draw) (sym p) (primary_beyond l)
  plan_of _ (drawn primary m l) e =
      let sampled = sampled_or_not (sample_with s sample_draw) in
      let shadow = eligible_shadow t (from_predicate t predicate) primary sampled shadow_draw in
      let p : the_plan ≡ finish_plan t primary sampled shadow = rw (e, plan_eligible_with) refl in
      subst (Planned predicate t primary_draw) (sym p) (
        finish_plan-Planned predicate t primary_draw primary sampled shadow m
          (eligible_shadow-Ended predicate t primary sampled shadow_draw v))

-- Planning under an eligibility decision made from the same valid table never panics, and nothing
-- about sampling or the shadow makes it fail. It gives `NoEligiblePrimary` only with no weight on
-- offer; `DrawOutOfRange` only for a primary draw out of range; otherwise a plan whose primary is
-- on offer (enabled, weighted, let through by the predicate) and whose shadow, if there is one, is
-- on offer beside it.
pub plan_eligible_with-safe :
    (t : RouteTable) (predicate : Route → Bool) (s : ShadowSampling)
    (primary_draw sample_draw shadow_draw : ℕ → ℕ)
    → IsTable t
    → Planned predicate t primary_draw
        (plan_eligible_with t (from_predicate t predicate) s primary_draw sample_draw shadow_draw)
unfolding Eligibility.select_with
plan_eligible_with-safe t predicate s primary_draw sample_draw shadow_draw v =
    plan_of t predicate s primary_draw sample_draw shadow_draw v _
      (select_weighted-safe t predicate nobody primary_draw v) refl
