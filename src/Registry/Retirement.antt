-- ===== src/Registry/Retirement.antt =====
-- src/resource_registry.rs: the handles that the map holds, and sets whose route is retired.
use svc_resillience_rs.Prelude.{
  ℕ, ◌≤◌, ◌<◌, ◌≡◌, ◌≢◌, ap, inl, inr, some, List, [], ◌∷◌, ◌++◌, arith, length, length-append,
  Option-cases,
}
use svc_resillience_rs.Route.{RouteId}
use svc_resillience_rs.Registry.{
  RouteResourcePolicy, RouteResources, RouteResourceRegistry, resources_new, registry_new, lookup,
  remove, get, insert_new, or_insert, get_or_create, retire, Step, creating, retiring, primary_call,
  shadow_call, perform, perform_all,
}
use svc_resillience_rs.Registry.Laws.{use_primary-map, use_shadow-map}

-- The handles of the map lie in the heap, and no two pairs share one.
abbrev Absent : ℕ → List (RouteId × ℕ) → Type 0
Absent a [] = Unit
Absent a ((key, handle) ∷ rest) = (handle ≢ a) × Absent a rest

abbrev IsWell : ℕ → List (RouteId × ℕ) → Type 0
IsWell n [] = Unit
IsWell n ((key, handle) ∷ rest) = (handle < n) × Absent handle rest × IsWell n rest

Absent-remove :
    (a : ℕ) (rs : List (RouteId × ℕ)) (id : RouteId) → Absent a rs → Absent a (remove rs id)
unfolding remove
Absent-remove a [] id h = tt
Absent-remove a ((key, handle) ∷ rest) id h = ground (arith, Absent-remove a rest id h.1)

IsWell-remove :
    (n : ℕ) (rs : List (RouteId × ℕ)) (id : RouteId) → IsWell n rs → IsWell n (remove rs id)
unfolding remove
IsWell-remove n [] id h = tt
IsWell-remove n ((key, handle) ∷ rest) id h =
    ground (arith, IsWell-remove n rest id h.2, Absent-remove handle rest id h.1)

Absent-beyond : (n m : ℕ) (rs : List (RouteId × ℕ)) → n ≤ m → IsWell n rs → Absent m rs
Absent-beyond n m [] l h = tt
Absent-beyond n m ((key, handle) ∷ rest) l h =
    ((λ e. omega (arith, e, h.0)), Absent-beyond n m rest l h.2)

IsWell-grows : (n m : ℕ) (rs : List (RouteId × ℕ)) → n ≤ m → IsWell n rs → IsWell m rs
IsWell-grows n m [] l h = tt
IsWell-grows n m ((key, handle) ∷ rest) l h = (omega (arith, h.0), h.1, IsWell-grows n m rest l h.2)

or_insert-IsWell :
    (r : RouteResourceRegistry) (id : RouteId)
    → IsWell (length r.heap) r.routes
    → IsWell (length (or_insert r id).0.heap) (or_insert r id).0.routes
unfolding or_insert
or_insert-IsWell r id w = elim (Option-cases (get r id)) [
  | inr (a, e) ↦ rw (e, or_insert) w
  | inl e ↦
      let one : List RouteResources =
        (resources_new r.primary_policy r.shadow_policy r.memory).0 ∷ [] in
      rw (e, or_insert, insert_new)
        (
          omega (arith, length-append r.heap one),
          Absent-beyond (length r.heap) (length r.heap) r.routes (omega arith) w,
          IsWell-grows (length r.heap) (length (r.heap ++ one)) r.routes
              (omega (arith, length-append r.heap one)) w,
        )
]

perform-IsWell :
    (r : RouteResourceRegistry) (s : Step)
    → IsWell (length r.heap) r.routes
    → IsWell (length (perform r s).heap) (perform r s).routes
unfolding perform retire
perform-IsWell r (creating id) w = or_insert-IsWell r id w
perform-IsWell r (retiring id) w = IsWell-remove (length r.heap) r.routes id w
perform-IsWell r (primary_call i part change) w =
    let same = use_primary-map r i part change in rw (same.1, same.0) w
perform-IsWell r (shadow_call i part change) w =
    let same = use_shadow-map r i part change in rw (same.1, same.0) w

perform_all-IsWell :
    (r : RouteResourceRegistry) (steps : List Step)
    → IsWell (length r.heap) r.routes
    → IsWell (length (perform_all r steps).heap) (perform_all r steps).routes
unfolding perform_all
perform_all-IsWell r [] w = w
perform_all-IsWell r (s ∷ rest) w = perform_all-IsWell (perform r s) rest (perform-IsWell r s w)

lookup-Absent :
    (rs : List (RouteId × ℕ)) (id : RouteId) (a : ℕ) → Absent a rs → lookup rs id ≢ some a
unfolding lookup
lookup-Absent [] id a h e = cc
lookup-Absent ((key, handle) ∷ rest) id a h e = ground (arith, lookup-Absent rest id a h.1)

-- A handle that the map gave out is in the heap, and no pair has it once it is removed.
lookup-some :
    (n : ℕ) (rs : List (RouteId × ℕ)) (id : RouteId) (a : ℕ)
    → IsWell n rs
    → lookup rs id ≡ some a
    → (a < n) × Absent a (remove rs id)
unfolding lookup remove
lookup-some n [] id a w h = cc
lookup-some n ((key, handle) ∷ rest) id a w h =
    ground (
      arith,
      lookup-some n rest id a w.2,
      Absent-remove a rest id,
      lookup-Absent rest id handle w.1,
    )

or_insert-Absent :
    (r : RouteResourceRegistry) (id : RouteId) (a : ℕ)
    → a < length r.heap
    → Absent a r.routes
    → Absent a (or_insert r id).0.routes
unfolding or_insert
or_insert-Absent r id a l h = ground arith

perform-Absent :
    (r : RouteResourceRegistry) (s : Step) (a : ℕ)
    → a < length r.heap
    → Absent a r.routes
    → Absent a (perform r s).routes
unfolding perform retire
perform-Absent r (creating id) a l h = or_insert-Absent r id a l h
perform-Absent r (retiring id) a l h = Absent-remove a r.routes id h
perform-Absent r (primary_call i part change) a l h = rw ((use_primary-map r i part change).0) h
perform-Absent r (shadow_call i part change) a l h = rw ((use_shadow-map r i part change).0) h

perform-length : (r : RouteResourceRegistry) (s : Step) → length r.heap ≤ length (perform r s).heap
unfolding perform or_insert retire
perform-length r (creating id) =
    let one : List RouteResources =
      (resources_new r.primary_policy r.shadow_policy r.memory).0 ∷ [] in
    ground (arith, length-append r.heap one)
perform-length r (retiring id) = omega arith
perform-length r (primary_call i part change) =
    omega (arith, ap length (use_primary-map r i part change).1)
perform-length r (shadow_call i part change) =
    omega (arith, ap length (use_shadow-map r i part change).1)

-- A set that is not in the map, nor the next one to be made.
abbrev IsRetired : ℕ → RouteResourceRegistry → Type 0
IsRetired a r = (a < length r.heap) × Absent a r.routes

perform_all-IsRetired :
    (a : ℕ) (r : RouteResourceRegistry) (steps : List Step)
    → IsRetired a r
    → IsRetired a (perform_all r steps)
unfolding perform_all
perform_all-IsRetired a r [] h = h
perform_all-IsRetired a r (s ∷ rest) h =
    perform_all-IsRetired a (perform r s) rest
      (omega (arith, h.0, perform-length r s), perform-Absent r s a h.0 h.1)

IsRetired-or_insert :
    (a : ℕ) (r : RouteResourceRegistry) (id : RouteId) → IsRetired a r → (or_insert r id).1 ≢ a
unfolding or_insert get insert_new
IsRetired-or_insert a r id h = ground (arith, lookup-Absent r.routes id a h.1)

IsRetired-get_or_create :
    (a : ℕ) (during : List Step) (r : RouteResourceRegistry) (id : RouteId)
    → IsRetired a r
    → (get_or_create (λ q. perform_all q during) r id).1 ≢ a
unfolding get_or_create get
IsRetired-get_or_create a during r id h = ground (
  arith,
  lookup-Absent r.routes id a h.1,
  IsRetired-or_insert a (perform_all r during) id (perform_all-IsRetired a r during h),
)

retired_facts :
    (r r' : RouteResourceRegistry) (id : RouteId) (a : ℕ)
    → IsWell (length r.heap) r.routes
    → retire r id ≡ (r', some a)
    → (r'.heap ≡ r.heap) × (a < length r'.heap) × Absent a r'.routes
unfolding retire get
retired_facts r r' id a w h = ground (arith, lookup-some (length r.heap) r.routes id a w)

history-IsWell :
    (primary shadow : RouteResourcePolicy) (before : List Step)
    → let r = perform_all (registry_new primary shadow) before in IsWell (length r.heap) r.routes
history-IsWell primary shadow before =
    perform_all-IsWell (registry_new primary shadow) before (unfold registry_new in tt)

-- A retired set is never given out again. After a route is retired in any history of a registry, and
-- whatever is created, retired or called after that, calls on the retired set included: no lookup of
-- any route finds its set, and no `get_or_create` of any route returns it, whatever others do between
-- its read and its write.
pub retired_for_good :
    (primary shadow : RouteResourcePolicy) (before after during : List Step)
    (r' : RouteResourceRegistry) (id other : RouteId) (a : ℕ)
    → retire (perform_all (registry_new primary shadow) before) id ≡ (r', some a)
    → (get (perform_all r' after) other ≢ some a)
      × ((get_or_create (λ q. perform_all q during) (perform_all r' after) other).1 ≢ a)
unfolding get
retired_for_good primary shadow before after during r' id other a h =
    let f =
      retired_facts (perform_all (registry_new primary shadow) before) r' id a
        (history-IsWell primary shadow before) h in
    let gone = perform_all-IsRetired a r' after (f.1, f.2) in
    (
      lookup-Absent (perform_all r' after).routes other a gone.1,
      IsRetired-get_or_create a during (perform_all r' after) other gone,
    )
