-- ===== src/Weighted/Filtered.antt =====
-- Weights in a filtered list of routes with distinct identifiers (the candidates of src/routing.rs,
-- src/eligibility.rs and src/shadow.rs).
use svc_resillience_rs.Prelude.{
  ◌≤◌, ◌≡◌, refl, Bool, true, false, List, [], ◌∷◌, map, arith, filter_by, In, here, there,
}
use svc_resillience_rs.Route.{RouteId, Route, same_id, contains}
use svc_resillience_rs.Route.Ids.{Distinct, same_id_refl, same_id_comm}
use svc_resillience_rs.Weighted.{total, weight_of}

abbrev pub ids : List Route → List RouteId
ids = map λ q. q.id

pub same_id_absent :
    (r : Route) (i : RouteId) (rs : List Route)
    → In r rs
    → contains (ids rs) i ≡ false
    → same_id r.id i ≡ false
unfolding contains
same_id_absent r i [] m h = elim m [ ]
same_id_absent r i (q ∷ rs) (here e) h = rw e (ground arith)
same_id_absent r i (q ∷ rs) (there m) h = same_id_absent r i rs m (ground arith)

pub contains_self : (r : Route) (rs : List Route) → In r rs → contains (ids rs) r.id ≡ true
unfolding contains
contains_self r [] m = elim m [ ]
contains_self r (q ∷ rs) (here e) = rw e (ground (arith, same_id_refl q.id))
contains_self r (q ∷ rs) (there m) = ground (arith, contains_self r rs m)

module _ (p : Route → Bool) where
  contains_absent :
      (i : RouteId) (rs : List Route)
      → contains (ids rs) i ≡ false
      → contains (ids (filter_by p rs)) i ≡ false
  unfolding contains
  contains_absent i [] h = h
  contains_absent i (r ∷ rs) h = ground (arith, contains_absent i rs)

  -- The identifiers of the routes that pass a filter contain a route's exactly if it passes.
  pub contains-filter_by :
      (r : Route) (rs : List Route)
      → Distinct rs
      → In r rs
      → contains (ids (filter_by p rs)) r.id ≡ p r
  unfolding contains
  contains-filter_by r [] d m = elim m [ ]
  contains-filter_by r (q ∷ rs) d (here e) =
      rw e (ground (arith, same_id_refl q.id, contains_absent q.id rs d.0))
  contains-filter_by r (q ∷ rs) d (there m) =
      ground (
        arith,
        same_id_absent r q.id rs m d.0,
        same_id_comm q.id r.id,
        contains-filter_by r rs d.1 m,
      )

  weight_of_absent :
      (i : RouteId) (rs : List Route)
      → contains (ids rs) i ≡ false
      → weight_of i (filter_by p rs) ≡ 0
  unfolding contains
  weight_of_absent i [] h = refl
  weight_of_absent i (r ∷ rs) h = ground (arith, weight_of_absent i rs)

  weight_of_first :
      (q : Route) (rs : List Route)
      → Distinct (q ∷ rs)
      → p q ≡ true
      → weight_of q.id (filter_by p (q ∷ rs)) ≡ q.weight
  weight_of_first q rs d w = ground (arith, same_id_refl q.id, weight_of_absent q.id rs d.0)

  -- Among distinct identifiers the weight of a route's identifier is the route's own.
  pub weight_of-Distinct :
      (r : Route) (rs : List Route)
      → Distinct rs
      → In r rs
      → p r ≡ true
      → weight_of r.id (filter_by p rs) ≡ r.weight
  weight_of-Distinct r [] d m w = elim m [ ]
  weight_of-Distinct r (q ∷ rs) d (here e) w = rw e (weight_of_first q rs d (rw (← e) w))
  weight_of-Distinct r (q ∷ rs) d (there m) w = ground (
    arith,
    same_id_absent r q.id rs m d.0,
    same_id_comm q.id r.id,
    weight_of-Distinct r rs d.1 m w,
  )

  pub total-filter_by-le :
      (q : Route → Bool) (rs : List Route)
      → ((r : Route) → In r rs → q r ≡ true → p r ≡ true)
      → total (filter_by q rs) ≤ total (filter_by p rs)
  total-filter_by-le q [] h = omega arith
  total-filter_by-le q (r ∷ rs) h =
      ground (arith, h r (here refl), total-filter_by-le q rs (λ s m. h s (there m)))

  pub filter_by-ext :
      (q : Route → Bool) (rs : List Route)
      → ((r : Route) → In r rs → p r ≡ q r)
      → filter_by p rs ≡ filter_by q rs
  filter_by-ext q [] h = refl
  filter_by-ext q (r ∷ rs) h =
      ground (arith, h r (here refl), filter_by-ext q rs (λ s m. h s (there m)))
