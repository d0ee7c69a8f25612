-- ===== src/Routing/Selection.antt =====
-- src/routing.rs: what weighted selection picks from a table, and for how many draws.
use svc_resillience_rs.Prelude.{
  ℕ, ◌-◌, ◌≤◌, ◌<◌, ◌≡◌, refl, ap, ◌∙◌, ◌⊎◌, inl, inr, Bool, true, false, List, [], ◌∷◌, arith,
  Result, ok, err, Exec, done, panicked, count_below, In, In-append, In-filter_by, lt→leb_false,
  le→leb, dec_lt,
}
use svc_resillience_rs.Route.{
  RouteId, Route, RouteTableError, draw_out_of_range, is_weighted, same_id,
}
use svc_resillience_rs.Weighted.{walk, Lands, walk-Lands, picks, walk-weight, count_below-ext}
use svc_resillience_rs.Weighted.Filtered.{weight_of-Distinct}
use svc_resillience_rs.Routing.{RouteTable, walk_enabled, select_with}
use svc_resillience_rs.Routing.Table.{eligible, IsTable}

-- The loop that skips routes is the walk down the eligible ones.
walk_enabled-walk :
    (cursor : ℕ) (rs : List Route) → walk_enabled cursor rs ≡ walk cursor (eligible rs)
unfolding walk_enabled walk
walk_enabled-walk cursor [] = refl
walk_enabled-walk cursor (r ∷ rs) =
    ground (arith, walk_enabled-walk cursor rs, walk_enabled-walk (cursor - r.weight) rs)

-- What a draw in range selects.
pub select_in_range :
    (t : RouteTable) (draw : ℕ → ℕ)
    → IsTable t
    → (below : draw t.eligible_weight < t.eligible_weight)
    → (l : Lands (draw t.eligible_weight) (eligible t.routes)) × (select_with t draw
        ≡ done (ok l.route))
unfolding select_with
select_in_range t draw v below =
    let l : Lands (draw t.eligible_weight) (eligible t.routes) =
      walk-Lands (draw t.eligible_weight) (eligible t.routes) (omega (arith, v.weight)) in
    (
      l,
      ground (
        arith,
        lt→leb_false t.eligible_weight (draw t.eligible_weight) below,
        walk_enabled-walk (draw t.eligible_weight) t.routes,
        l.reached,
      ),
    )

pub Lands-In :
    (cursor : ℕ) (rs : List Route) (l : Lands cursor (eligible rs))
    → In l.route rs × (is_weighted l.route ≡ true)
Lands-In cursor rs l =
    In-filter_by is_weighted l.route rs (rw l.splits (In-append l.before l.route l.after))

-- Selection from a valid table never panics: a draw in range gives a route of the table that is
-- enabled and has weight, any other draw the error `DrawOutOfRange`.
pub select_with-safe :
    (t : RouteTable) (draw : ℕ → ℕ)
    → IsTable t
    → ((r : Route) × In r t.routes
        × (is_weighted r ≡ true)
        × (draw t.eligible_weight < t.eligible_weight)
        × (select_with t draw ≡ done (ok r)))
      ⊎ ((t.eligible_weight ≤ draw t.eligible_weight)
          × (select_with t draw ≡ done (err draw_out_of_range)))
unfolding select_with
select_with-safe t draw v = elim (dec_lt (draw t.eligible_weight) t.eligible_weight) [
  | yes below ↦
      let s = select_in_range t draw v below in
      let m = Lands-In (draw t.eligible_weight) t.routes s.0 in
      inl (s.0.route, m.0, m.1, below, s.1)
  | no above ↦
      inr (omega arith, rw (le→leb t.eligible_weight (draw t.eligible_weight) (omega arith)) refl)
]

abbrev pub picked : RouteId → Exec (Result Route RouteTableError) → Bool
picked i panicked = false
picked i (done (err e)) = false
picked i (done (ok r)) = same_id r.id i

picked-picks :
    (t : RouteTable) (i : RouteId) (c : ℕ)
    → c < t.eligible_weight
    → picked i (select_with t (λ n. c)) ≡ picks i (walk c (eligible t.routes))
unfolding select_with
picked-picks t i c l =
    ground (arith, lt→leb_false t.eligible_weight c l, walk_enabled-walk c t.routes)

-- Weighted selection from a valid table is exact: of the draws below the total weight, a route of
-- the table that is enabled and has weight is selected by exactly as many as its weight.
pub select_with-exact :
    (t : RouteTable) (r : Route)
    → IsTable t
    → In r t.routes
    → is_weighted r ≡ true
    → count_below t.eligible_weight (λ c. picked r.id (select_with t (λ n. c))) ≡ r.weight
select_with-exact t r v m w =
    count_below-ext t.eligible_weight _ _ (picked-picks t r.id)
    ∙ ap (λ n. count_below n (λ c. picks r.id (walk c (eligible t.routes)))) v.weight
    ∙ walk-weight r.id (eligible t.routes)
    ∙ weight_of-Distinct is_weighted r t.routes v.distinct m w
