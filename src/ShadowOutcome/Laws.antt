-- ===== src/ShadowOutcome/Laws.antt =====
-- src/shadow_outcome.rs: what mapping an error keeps, and what an observation of a plan is about.
use mathlib.Core.Option
use svc_resillience_rs.Prelude.{
  ℕ, ◌≡◌, refl, ap, sym, ◌∙◌, inl, inr, false, Option, some, arith, ok, done,
}
use svc_resillience_rs.Route.{Route, same_id}
use svc_resillience_rs.Routing.{RouteTable}
use svc_resillience_rs.Routing.Table.{IsTable}
use svc_resillience_rs.Shadow.{RoutePlan, ShadowSampling, plan_with, shadow_id}
use svc_resillience_rs.Shadow.Plan.{Shadowed, unshadowed, shadowed, plan_with-safe}
use svc_resillience_rs.ShadowOutcome.{
  ShadowOutcome, succeeded, overloaded, cancelled, deadline_exceeded, failed, is_success, error,
  map_error, ShadowObservation, from_plan,
}

-- Mapping the error of an outcome keeps its class: it is a success exactly if it was one, carries an
-- error exactly if it carried one, and then the mapped one.
pub map_error-class {ℓ κ} :
    {E : Type ℓ} {F : Type κ} (o : ShadowOutcome E) (map : E → F)
    → (is_success (map_error o map) ≡ is_success o)
      × (error (map_error o map) ≡ Option.map map (error o))
unfolding is_success error map_error
map_error-class succeeded map = (refl, refl)
map_error-class overloaded map = (refl, refl)
map_error-class cancelled map = (refl, refl)
map_error-class deadline_exceeded map = (refl, refl)
map_error-class (failed e) map = (refl, refl)

distinct :
    (t : RouteTable) (primary : Route) (x : Option Route) (p : RoutePlan) (o : ShadowObservation)
    → Shadowed t primary x
    → p.generation ≡ t.generation
    → p.primary ≡ primary.id
    → p.shadow ≡ shadow_id x
    → from_plan p ≡ some o
    → (o.generation ≡ t.generation) × (same_id o.route_id p.primary ≡ false)
unfolding from_plan shadow_id
distinct t primary _ p o unshadowed g i s h = ground arith
distinct t primary _ p o (shadowed r m w d) g i s h = ground arith

-- What is observed of a plan that was made from a table has the table's generation and a route
-- identifier other than the plan's primary.
pub from_plan-distinct :
    (t : RouteTable) (s : ShadowSampling) (primary_draw sample_draw shadow_draw : ℕ → ℕ)
    (p : RoutePlan) (o : ShadowObservation)
    → IsTable t
    → plan_with t s primary_draw sample_draw shadow_draw ≡ done (ok p)
    → from_plan p ≡ some o
    → (o.generation ≡ t.generation) × (same_id o.route_id p.primary ≡ false)
from_plan-distinct t s primary_draw sample_draw shadow_draw p o v e h =
    elim (plan_with-safe t s primary_draw sample_draw shadow_draw v) [
      | inl (primary, q, selected, planned, k) ↦
          let same : q ≡ p = ground arith in
          distinct t primary k.shadow p o k.is_shadow
            (ap (λ x. x.generation) (sym same) ∙ k.generation)
            (ap (λ x. x.primary) (sym same) ∙ k.primary_id)
            (ap (λ x. x.shadow) (sym same) ∙ k.shadow_is) h
      | inr (refused, unplanned) ↦ ground arith
    ]
