-- ===== src/Shadow/Plan.antt =====
-- src/shadow.rs: what a plan contains, whatever is drawn for its shadow.
use svc_resillience_rs.Prelude.{
  ℕ, ◌+◌, ◌-◌, ◌≤◌, ◌<◌, ◌≡◌, refl, sym, subst, ◌∙◌, ◌⊎◌, inl, inr, Bool, true, false, Option, none,
  some, List, [], ◌∷◌, arith, filter_by, ok, err, Exec, done, panicked, count_below, In, In-append,
  In-filter_by, dec_lt, u64_max, lt→leb_false, le→leb, ltb, ◌==◌, ◌&&◌, ◌||◌,
}
use svc_resillience_rs.Route.{RouteId, Route, draw_out_of_range, same_id, is_weighted}
use svc_resillience_rs.Weighted.{
  total, walk, Lands, walk-Lands, checked_total-eq, picks, walk-weight, count_below-ext,
}
use svc_resillience_rs.Weighted.Filtered.{weight_of-Distinct, total-filter_by-le}
use svc_resillience_rs.Routing.{RouteTable, select_with}
use svc_resillience_rs.Routing.Table.{IsTable}
use svc_resillience_rs.Routing.Selection.{select_with-safe}
use svc_resillience_rs.Shadow.{
  ShadowSampling, shadow_parts_per_million, sample_with, sampled_or_not, RoutePlan,
  primary_selection, build_plan, is_shadow, walk_shadow, draw_shadow, select_shadow, shadow_of,
  plan_with, shadow_id,
}

abbrev pub shadows : Route → List Route → List Route
shadows primary = filter_by (is_shadow primary)

abbrev pub to_option : Exec Route → Option Route
to_option panicked = none
to_option (done r) = some r

walk_shadow-walk :
    (primary : Route) (cursor : ℕ) (rs : List Route)
    → walk_shadow primary cursor rs ≡ to_option (walk cursor (shadows primary rs))
unfolding walk_shadow walk
walk_shadow-walk primary cursor [] = refl
walk_shadow-walk primary cursor (r ∷ rs) =
    ground
      (arith, walk_shadow-walk primary cursor rs, walk_shadow-walk primary (cursor - r.weight) rs)

shadows-fit :
    (t : RouteTable) (primary : Route) → IsTable t → total (shadows primary t.routes) ≤ u64_max
shadows-fit t primary v = omega (
  arith,
  v.weight,
  v.fits,
  total-filter_by-le is_weighted (is_shadow primary) t.routes (λ r m h. ground arith),
)

select_shadow-draw :
    (t : RouteTable) (primary : Route) (draw : ℕ → ℕ)
    → IsTable t
    → select_shadow t primary draw ≡ draw_shadow t primary draw (total (shadows primary t.routes))
unfolding select_shadow
select_shadow-draw t primary draw v =
    let fits : 0 + total (shadows primary t.routes) ≤ u64_max =
      omega (arith, shadows-fit t primary v) in
    ground (arith, checked_total-eq 0 (shadows primary t.routes) fits)

-- A shadow for a primary: none, or a weighted route of the table that is not the primary.
pub data Shadowed (t : RouteTable) (primary : Route) : Option Route → Type 0 where
  unshadowed : Shadowed t primary none
  shadowed :
      (r : Route)
      → In r t.routes
      → is_weighted r ≡ true
      → same_id r.id primary.id ≡ false
      → Shadowed t primary (some r)

draw_shadow_in_range :
    (t : RouteTable) (primary : Route) (draw : ℕ → ℕ)
    → (l : Lands (draw (total (shadows primary t.routes))) (shadows primary t.routes))
    → draw (total (shadows primary t.routes)) < total (shadows primary t.routes)
    → draw_shadow t primary draw (total (shadows primary t.routes)) ≡ some l.route
unfolding draw_shadow
draw_shadow_in_range t primary draw l below = ground (
  arith,
  lt→leb_false (total (shadows primary t.routes)) (draw (total (shadows primary t.routes))) below,
  walk_shadow-walk primary (draw (total (shadows primary t.routes))) t.routes,
  l.reached,
)

Lands-Shadowed :
    (t : RouteTable) (primary : Route) (cursor : ℕ) (l : Lands cursor (shadows primary t.routes))
    → Shadowed t primary (some l.route)
Lands-Shadowed t primary cursor l =
    let m =
      In-filter_by (is_shadow primary) l.route t.routes
        (rw l.splits (In-append l.before l.route l.after)) in
    shadowed l.route m.0 (ground arith) (ground arith)

draw_shadow_beyond :
    (t : RouteTable) (primary : Route) (draw : ℕ → ℕ) (n : ℕ)
    → n ≤ draw n
    → draw_shadow t primary draw n ≡ none
unfolding draw_shadow
draw_shadow_beyond t primary draw n h = ground (arith, le→leb n (draw n) h)

pub select_shadow-Shadowed :
    (t : RouteTable) (primary : Route) (draw : ℕ → ℕ)
    → IsTable t
    → Shadowed t primary (select_shadow t primary draw)
select_shadow-Shadowed t primary draw v =
    let n = total (shadows primary t.routes) in
    let e = select_shadow-draw t primary draw v in
    elim (dec_lt (draw n) n) [
      | yes below ↦
          let l = walk-Lands (draw n) (shadows primary t.routes) below in
          subst (Shadowed t primary) (sym (e ∙ draw_shadow_in_range t primary draw l below))
            (Lands-Shadowed t primary (draw n) l)
      | no beyond ↦
          subst (Shadowed t primary) (sym (e ∙ draw_shadow_beyond t primary draw n (omega arith)))
            unshadowed
    ]

abbrev pub shadows_as : RouteId → Option Route → Bool
shadows_as i none = false
shadows_as i (some r) = same_id r.id i

shadows_as-picks :
    (t : RouteTable) (primary : Route) (i : RouteId) (c : ℕ)
    → IsTable t
    → c < total (shadows primary t.routes)
    → shadows_as i (select_shadow t primary (λ n. c)) ≡ picks i (walk c (shadows primary t.routes))
unfolding draw_shadow
shadows_as-picks t primary i c v l = ground (
  arith,
  select_shadow-draw t primary (λ n. c) v,
  lt→leb_false (total (shadows primary t.routes)) c l,
  walk_shadow-walk primary c t.routes,
)

-- The shadow is chosen by weight among the other routes of a valid table, exactly: of the draws
-- below the total weight of the weighted routes other than the primary, such a route is the shadow
-- for exactly as many as its weight.
pub select_shadow-exact :
    (t : RouteTable) (primary r : Route)
    → IsTable t
    → In r t.routes
    → is_shadow primary r ≡ true
    → count_below
        (total (shadows primary t.routes))
        (λ c. shadows_as r.id (select_shadow t primary (λ n. c)))
      ≡ r.weight
select_shadow-exact t primary r v m w =
    count_below-ext (total (shadows primary t.routes)) _ _
      (λ c l. shadows_as-picks t primary r.id c v l)
    ∙ walk-weight r.id (shadows primary t.routes)
    ∙ weight_of-Distinct (is_shadow primary) r t.routes v.distinct m w

shadow_of-Shadowed :
    (t : RouteTable) (primary : Route) (sampled : Bool) (draw : ℕ → ℕ)
    → IsTable t
    → Shadowed t primary (shadow_of t primary sampled draw)
unfolding shadow_of
shadow_of-Shadowed t primary true draw v = select_shadow-Shadowed t primary draw v
shadow_of-Shadowed t primary false draw v = unshadowed

shadow_of_cases :
    (t : RouteTable) (primary : Route) (sampled : Bool) (draw : ℕ → ℕ)
    → sampled ≡ true ⊎ (shadow_id (shadow_of t primary sampled draw) ≡ none)
unfolding shadow_of shadow_id
shadow_of_cases t primary true draw = inl refl
shadow_of_cases t primary false draw = inr refl

shadow_of-chosen :
    (t : RouteTable) (primary : Route) (sampled : Bool) (draw : ℕ → ℕ)
    → sampled ≡ false ⊎ (shadow_of t primary sampled draw ≡ select_shadow t primary draw)
unfolding shadow_of
shadow_of-chosen t primary true draw = inr refl
shadow_of-chosen t primary false draw = inl refl

-- Whether a draw samples a request: always at the full rate, and otherwise if it lies within the range
-- and below the rate.
abbrev pub is_sampled : ShadowSampling → ℕ → Bool
is_sampled s n =
    (s.parts_per_million == shadow_parts_per_million)
    || (ltb n shadow_parts_per_million && ltb n s.parts_per_million)

sampled-eq :
    (s : ShadowSampling) (draw : ℕ → ℕ)
    → sampled_or_not (sample_with s draw) ≡ is_sampled s (draw shadow_parts_per_million)
unfolding sample_with sampled_or_not
sampled-eq s draw = ground arith

-- What a plan for a primary holds, for a request that is sampled or not: a shadow that is sampled for
-- is the one that is chosen for the primary.
pub record IsPlan (t : RouteTable) (primary : Route) (sampled : Bool) (shadow_draw : ℕ → ℕ)
    (p : RoutePlan) : Type 0 where
  pub shadow : Option Route
  pub is_shadow : Shadowed t primary shadow
  pub generation : p.generation ≡ t.generation
  pub primary_id : p.primary ≡ primary.id
  pub shadow_is : p.shadow ≡ shadow_id shadow
  pub sampled_is : p.shadow_sampled ≡ sampled
  pub unsampled : sampled ≡ true ⊎ (p.shadow ≡ none)
  pub chosen : sampled ≡ false ⊎ (shadow ≡ select_shadow t primary shadow_draw)

build_plan-IsPlan :
    (t : RouteTable) (primary : Route) (sampled : Bool) (draw : ℕ → ℕ)
    → IsTable t
    → IsPlan t primary sampled draw
        (build_plan t primary sampled (shadow_of t primary sampled draw))
unfolding build_plan
build_plan-IsPlan t primary sampled draw v = record {
  shadow = shadow_of t primary sampled draw;
  is_shadow = shadow_of-Shadowed t primary sampled draw v;
  generation = refl;
  primary_id = refl;
  shadow_is = refl;
  sampled_is = refl;
  unsampled = shadow_of_cases t primary sampled draw;
  chosen = shadow_of-chosen t primary sampled draw;
}

-- Shadowing never disturbs the primary, and only a sampled request has a shadow. Whatever the sampling
-- and whatever is drawn for the sample and the shadow, in range or not, a plan from a valid table
-- fails only as primary selection does, with its error; otherwise it has the table's generation and
-- the primary that selection alone would pick. The request counts as sampled exactly if the rate is
-- the full one, or its draw lies in range and below the rate; so never if sampling is disabled. If it
-- is sampled its shadow is what shadow selection picks, which is nothing or a weighted route of the
-- table other than the primary; if not, it has none.
pub plan_with-safe :
    (t : RouteTable) (s : ShadowSampling) (primary_draw sample_draw shadow_draw : ℕ → ℕ)
    → IsTable t
    → ((primary : Route) × (p : RoutePlan) × (select_with t primary_draw ≡ done (ok primary))
        × (plan_with t s primary_draw sample_draw shadow_draw ≡ done (ok p))
        × IsPlan t primary (is_sampled s (sample_draw shadow_parts_per_million)) shadow_draw p)
      ⊎ ((select_with t primary_draw ≡ done (err draw_out_of_range))
          × (plan_with t s primary_draw sample_draw shadow_draw
              ≡ done (err (primary_selection draw_out_of_range))))
unfolding plan_with
plan_with-safe t s primary_draw sample_draw shadow_draw v =
    elim (select_with-safe t primary_draw v) [
      | inl (primary, m, w, l, e) ↦
          let sampled = sampled_or_not (sample_with s sample_draw) in
          inl (
            primary,
            build_plan t primary sampled (shadow_of t primary sampled shadow_draw),
            e,
            rw (e, plan_with) refl,
            subst
                (λ b.
                  IsPlan t primary b shadow_draw
                    (build_plan t primary sampled (shadow_of t primary sampled shadow_draw)))
                (sampled-eq s sample_draw) (build_plan-IsPlan t primary sampled shadow_draw v),
          )
      | inr (l, e) ↦ inr (e, rw (e, plan_with) refl)
    ]
