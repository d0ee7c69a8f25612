-- ===== src/Routing/Table.antt =====
-- src/routing.rs: which lists of routes make a table, and what a table guarantees.
use svc_resillience_rs.Prelude.{
  ℕ, ◌+◌, ◌≤◌, ◌<◌, ◌≡◌, ◌≢◌, refl, List, [], ◌∷◌, arith, u64_max, ok, >>=-eq-ok, All, filter_by,
}
use svc_resillience_rs.Route.{Route, is_weighted, IdSet}
use svc_resillience_rs.Route.Ids.{Distinct, NotIn, NotIn-cons, NotIn-cons_of, NotIn-nil}
use svc_resillience_rs.Weighted.{total}
use svc_resillience_rs.Routing.{RouteTable, scan, check_weight, table_new}

abbrev pub eligible : List Route → List Route
eligible = filter_by is_weighted

-- What every table that `RouteTable::new` returns is.
pub record IsTable (t : RouteTable) : Type 0 where
  pub nonempty : t.routes ≢ []
  pub distinct : Distinct t.routes
  pub weight : t.eligible_weight ≡ total (eligible t.routes)
  pub positive : 0 < t.eligible_weight
  pub fits : t.eligible_weight ≤ u64_max

-- A scan that ends well has seen no identifier twice, and has added up the eligible weight.
scan-ok :
    (seen : IdSet) (weight : ℕ) (rs : List Route) (w : ℕ)
    → weight ≤ u64_max
    → scan seen weight rs ≡ ok w
    → All (NotIn seen) rs × Distinct rs × (w ≡ weight + total (eligible rs)) × (w ≤ u64_max)
unfolding scan
scan-ok seen weight [] w b h = (tt, tt, ground arith, ground arith)
scan-ok seen weight (r ∷ rs) w b h = ground (
  arith,
  scan-ok (r.id ∷ seen) weight rs w b,
  scan-ok (r.id ∷ seen) (weight + r.weight) rs w,
  NotIn-cons r.id seen rs,
)

scan_of :
    (seen : IdSet) (weight : ℕ) (rs : List Route)
    → All (NotIn seen) rs
    → Distinct rs
    → weight + total (eligible rs) ≤ u64_max
    → scan seen weight rs ≡ ok (weight + total (eligible rs))
unfolding scan
scan_of seen weight [] n d b = ground arith
scan_of seen weight (r ∷ rs) n d b = ground (
  arith,
  scan_of (r.id ∷ seen) weight rs,
  scan_of (r.id ∷ seen) (weight + r.weight) rs,
  NotIn-cons_of r.id seen rs n.1 d.0,
)

IsTable-parts :
    (generation : ℕ) (r : Route) (rs : List Route) (w : ℕ) (t : RouteTable)
    → (scanned : All (NotIn []) (r ∷ rs)
        × Distinct (r ∷ rs)
        × (w ≡ 0 + total (eligible (r ∷ rs)))
        × (w ≤ u64_max))
    → 0 < w
    → t ≡ record { generation = generation; routes = r ∷ rs; eligible_weight = w }
    → IsTable t × (t.generation ≡ generation) × (t.routes ≡ r ∷ rs)
IsTable-parts generation r rs w t scanned positive e = rw e (
  record {
    nonempty = λ c. cc;
    distinct = scanned.1;
    weight = omega (arith, scanned.2);
    positive = positive;
    fits = scanned.3;
  },
  refl,
  refl,
)

new_of_routes :
    (t : RouteTable) (routes : List Route)
    → t.routes ≡ routes
    → IsTable t
    → table_new t.generation routes ≡ ok t
unfolding table_new
new_of_routes t [] e v = absurd (v.nonempty e)
new_of_routes t (r ∷ rs) e v = ground (arith, scan_of [] 0 (r ∷ rs) (NotIn-nil (r ∷ rs)))

-- A table that `RouteTable::new` returns has the generation and the routes that it was given, in
-- their order; at least one route; no identifier twice; and as its weight the sum of the weights of
-- the enabled routes, which is positive and fits into 64 bits.
pub table_new-IsTable :
    (generation : ℕ) (routes : List Route) (t : RouteTable)
    → table_new generation routes ≡ ok t
    → IsTable t × (t.generation ≡ generation) × (t.routes ≡ routes)
unfolding table_new
table_new-IsTable generation [] t h = cc
table_new-IsTable generation (r ∷ rs) t h =
    let (w, scanned, checked) = >>=-eq-ok (scan [] 0 (r ∷ rs)) _ h in
    let (v, positive, built) = >>=-eq-ok (check_weight w) _ checked in
    IsTable-parts generation r rs w t (scan-ok [] 0 (r ∷ rs) w (omega arith) scanned) (ground arith)
      (ground arith)

-- `RouteTable::new` refuses no more than it must: the routes of every table that has at least one
-- route, no identifier twice, and a positive eligible weight that is the sum over the enabled
-- routes and fits into 64 bits, make that very table again.
pub table_new_of : (t : RouteTable) → IsTable t → table_new t.generation t.routes ≡ ok t
unfolding table_new
table_new_of t v = new_of_routes t t.routes refl v
