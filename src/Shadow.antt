-- ===== src/Shadow.antt =====
-- src/shadow.rs: exact sampling of requests for shadowing, and the planner that chooses a primary
-- route and, for a sampled request, a shadow route from one routing snapshot.
pub mod Sampling
pub mod Plan
pub mod Eligible
pub mod Display
use svc_resillience_rs.Prelude.{
  ℕ, ◌++◌, ◌-◌, Bool, true, false, not, ◌&&◌, ◌||◌, Option, none, some, List, [], ◌∷◌, String, ltb,
  leb, ◌==◌, if◌then◌else◌, filter_by, Result, ok, err, map_err, Exec, done, panicked,
}
use svc_resillience_rs.Route.{
  RouteId, Route, RouteTableError, display_table_error, is_weighted, same_id,
}
use svc_resillience_rs.Weighted.{checked_total}
use svc_resillience_rs.Routing.{RouteTable, select, select_with}
use svc_resillience_rs.Eligibility.{
  RouteEligibility, RouteEligibilityError, display_eligibility_error, select_weighted_with,
}
use svc_resillience_rs.Eligibility as Eligibility

abbrev pub shadow_parts_per_million : ℕ
shadow_parts_per_million = 1_000_000

pub data ShadowSamplingError : Type 0 where
  parts_per_million_out_of_range draw_out_of_range : ShadowSamplingError

pub record ShadowSampling : Type 0 where
  pub parts_per_million : ℕ

-- `ShadowSampling::new`.
unfoldable pub sampling_new : ℕ → Result ShadowSampling ShadowSamplingError
sampling_new parts =
    if ltb shadow_parts_per_million parts
    then err parts_per_million_out_of_range
    else ok (record { parts_per_million = parts })

unfoldable pub disabled : ShadowSampling
disabled = record { parts_per_million = 0 }

unfoldable pub always : ShadowSampling
always = record { parts_per_million = shadow_parts_per_million }

unfoldable pub sample_with : ShadowSampling → (ℕ → ℕ) → Result Bool ShadowSamplingError
sample_with s draw =
    let selected = draw shadow_parts_per_million in
    if s.parts_per_million == 0
    then ok false
    else if s.parts_per_million == shadow_parts_per_million
    then ok true
    else if leb shadow_parts_per_million selected
    then err draw_out_of_range
    else ok (ltb selected s.parts_per_million)

-- `expect` on the result; the draw is `fastrand::u32`.
unfoldable pub expect_sample : Result Bool ShadowSamplingError → Exec Bool
expect_sample (ok b) = done b
expect_sample (err e) = panicked

unfoldable pub sample : ShadowSampling → (ℕ → ℕ) → Exec Bool
unfolding sample_with expect_sample
sample s draw = expect_sample (sample_with s draw)

pub record RoutePlan : Type 0 where
  pub generation : ℕ
  pub primary : RouteId
  pub shadow : Option RouteId
  pub shadow_sampled : Bool

pub data RoutePlanError : Type 0 where
  primary_selection : RouteTableError → RoutePlanError
  eligibility : RouteEligibilityError → RoutePlanError
  no_eligible_primary : RoutePlanError

-- `Option::map` with the route's identifier.
unfoldable pub shadow_id : Option Route → Option RouteId
shadow_id none = none
shadow_id (some r) = some r.id

unfoldable pub build_plan : RouteTable → Route → Bool → Option Route → RoutePlan
unfolding shadow_id
build_plan t primary sampled shadow = record {
  generation = t.generation;
  primary = primary.id;
  shadow = shadow_id shadow;
  shadow_sampled = sampled;
}

-- The filter of `select_shadow`.
abbrev pub is_shadow : Route → Route → Bool
is_shadow primary r = not (same_id r.id primary.id) && is_weighted r

-- The loop of `select_shadow`, which passes over the primary and the routes without weight, and
-- gives `None` when the routes run out.
unfoldable pub walk_shadow : Route → ℕ → List Route → Option Route
walk_shadow primary cursor [] = none
walk_shadow primary cursor (r ∷ rs) =
    let skip = walk_shadow primary cursor rs in
    let rest = walk_shadow primary (cursor - r.weight) rs in
    if same_id r.id primary.id || (not r.enabled || (r.weight == 0))
    then skip
    else if ltb cursor r.weight
    then some r
    else rest

-- The rest of `select_shadow`, once the total is known.
unfoldable pub draw_shadow : RouteTable → Route → (ℕ → ℕ) → ℕ → Option Route
draw_shadow t primary draw total =
    if total == 0
    then none
    else if leb total (draw total)
    then none
    else walk_shadow primary (draw total) t.routes

unfoldable pub select_shadow : RouteTable → Route → (ℕ → ℕ) → Option Route
select_shadow t primary draw = elim (checked_total 0 (filter_by (is_shadow primary) t.routes)) [
  | none ↦ none
  | some total ↦ draw_shadow t primary draw total
]

-- `sampled.then(..).flatten()`.
unfoldable pub shadow_of : RouteTable → Route → Bool → (ℕ → ℕ) → Option Route
shadow_of t primary sampled draw = if sampled then select_shadow t primary draw else none

-- `unwrap_or(false)` on the sample.
unfoldable pub sampled_or_not : Result Bool ShadowSamplingError → Bool
sampled_or_not (ok b) = b
sampled_or_not (err e) = false

-- `RoutePlanner::plan`, with what `fastrand` draws for the primary, the sample and the shadow.
unfoldable pub plan : RouteTable → ShadowSampling → (ℕ → ℕ) → (ℕ → ℕ) → (ℕ → ℕ) → Exec RoutePlan
plan t s primary_draw sample_draw shadow_draw = elim (select t primary_draw) [
  | panicked ↦ panicked
  | done primary ↦ elim (sample s sample_draw) [
    | panicked ↦ panicked
    | done sampled ↦ done (build_plan t primary sampled (shadow_of t primary sampled shadow_draw))
  ]
]

-- `RoutePlanner::plan_with`.
unfoldable pub plan_with :
    RouteTable
    → ShadowSampling
    → (ℕ → ℕ)
    → (ℕ → ℕ)
    → (ℕ → ℕ)
    → Exec (Result RoutePlan RoutePlanError)
plan_with t s primary_draw sample_draw shadow_draw = elim (select_with t primary_draw) [
  | panicked ↦ panicked
  | done (err e) ↦ done (err (primary_selection e))
  | done (ok primary) ↦
      let sampled = sampled_or_not (sample_with s sample_draw) in
      done (ok (build_plan t primary sampled (shadow_of t primary sampled shadow_draw)))
]

-- The shadow of `plan_eligible_with`: `.ok().flatten()`, and a panic inside is a panic.
unfoldable pub shadow_or_none :
    Exec (Result (Option Route) RouteEligibilityError) → Exec (Option Route)
shadow_or_none panicked = panicked
shadow_or_none (done (ok r)) = done r
shadow_or_none (done (err e)) = done none

unfoldable pub eligible_shadow :
    RouteTable → RouteEligibility → Route → Bool → (ℕ → ℕ) → Exec (Option Route)
eligible_shadow t e primary sampled draw =
    if sampled
    then shadow_or_none (select_weighted_with t e (λ r. same_id r.id primary.id) draw)
    else done none

unfoldable pub finish_plan :
    RouteTable → Route → Bool → Exec (Option Route) → Exec (Result RoutePlan RoutePlanError)
finish_plan t primary sampled panicked = panicked
finish_plan t primary sampled (done shadow) = done (ok (build_plan t primary sampled shadow))

-- `RoutePlanner::plan_eligible_with`; `plan_eligible` is this with what `fastrand` draws.
unfoldable pub plan_eligible_with :
    RouteTable
    → RouteEligibility
    → ShadowSampling
    → (ℕ → ℕ)
    → (ℕ → ℕ)
    → (ℕ → ℕ)
    → Exec (Result RoutePlan RoutePlanError)
plan_eligible_with t e s primary_draw sample_draw shadow_draw =
    elim (Eligibility.select_with e t primary_draw) [
      | panicked ↦ panicked
      | done (err x) ↦ done (err (eligibility x))
      | done (ok none) ↦ done (err no_eligible_primary)
      | done (ok (some primary)) ↦
          let sampled = sampled_or_not (sample_with s sample_draw) in
          finish_plan t primary sampled (eligible_shadow t e primary sampled shadow_draw)
    ]
