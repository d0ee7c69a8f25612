-- ===== src/Route/Ids.antt =====
-- Laws of identifiers and of sets of them (src/routing.rs).
use text.Mathlib.TextEquality.{eq_iff}
use svc_resillience_rs.Prelude.{◌≡◌, refl, ap, ◌↔◌, true, false, List, [], ◌∷◌, map, arith, All}
use svc_resillience_rs.Route.{RouteId, Route, same_id, IdSet, contains}

pub same_id_iff : (a b : RouteId) → (same_id a b ≡ true) ↔ (a ≡ b)
unfolding same_id
same_id_iff a b = (
  λ h. ap (λ s. record { id = s }) ((eq_iff a.id b.id).0 h),
  λ e. (eq_iff a.id b.id).1 (ap (λ r. r.id) e),
)

pub same_id_refl : (a : RouteId) → same_id a a ≡ true
same_id_refl a = (same_id_iff a a).1 refl

pub same_id_comm : (a b : RouteId) → same_id a b ≡ same_id b a
same_id_comm a b = ground (arith, same_id_iff a b, same_id_iff b a)

-- No two routes of the list have one identifier.
abbrev pub Distinct : List Route → Type 0
Distinct [] = Unit
Distinct (r ∷ rs) = (contains (map (λ q. q.id) rs) r.id ≡ false) × Distinct rs

abbrev pub NotIn : IdSet → Route → Type 0
NotIn seen r = contains seen r.id ≡ false

pub NotIn-cons :
    (i : RouteId) (seen : IdSet) (rs : List Route)
    → All (NotIn (i ∷ seen)) rs
    → All (NotIn seen) rs × (contains (map (λ q. q.id) rs) i ≡ false)
unfolding contains
NotIn-cons i seen [] h = (tt, refl)
NotIn-cons i seen (r ∷ rs) h = ground (arith, NotIn-cons i seen rs h.1, same_id_comm i r.id)

pub NotIn-cons_of :
    (i : RouteId) (seen : IdSet) (rs : List Route)
    → All (NotIn seen) rs
    → contains (map (λ q. q.id) rs) i ≡ false
    → All (NotIn (i ∷ seen)) rs
unfolding contains
NotIn-cons_of i seen [] h n = tt
NotIn-cons_of i seen (r ∷ rs) h n = ground (arith, NotIn-cons_of i seen rs h.1, same_id_comm i r.id)

pub NotIn-nil : (rs : List Route) → All (NotIn []) rs
unfolding contains
NotIn-nil [] = tt
NotIn-nil (r ∷ rs) = (refl, NotIn-nil rs)
