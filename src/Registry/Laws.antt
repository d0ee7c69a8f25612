-- ===== src/Registry/Laws.antt =====
-- src/resource_registry.rs: the lookups of one route in any history.
use svc_resillience_rs.Prelude.{
  ℕ, ◌≡◌, refl, ap, ◌∙◌, inl, inr, false, some, List, [], ◌∷◌, arith, All, Option-cases,
}
use svc_resillience_rs.Route.{RouteId, same_id}
use svc_resillience_rs.Route.Ids.{same_id_refl, same_id_iff}
use svc_resillience_rs.Registry.{
  RouteResourceRegistry, lookup, remove, get, or_insert, get_or_create, retire, Cell, Part,
  use_primary, use_shadow, Step, creating, retiring, primary_call, shadow_call, perform,
  perform_all,
}

abbrev pub IsKept : RouteId → Step → Type 0
IsKept id (retiring i) = same_id i id ≡ false
IsKept id _ = Unit

pub lookup-remove_other :
    (rs : List (RouteId × ℕ)) (i id : RouteId)
    → same_id i id ≡ false
    → lookup (remove rs i) id ≡ lookup rs id
unfolding lookup remove
lookup-remove_other [] i id h = refl
lookup-remove_other ((key, handle) ∷ rest) i id h =
    ground (arith, lookup-remove_other rest i id h, same_id_iff key i, same_id_iff key id)

or_insert-lookup :
    (r : RouteResourceRegistry) (id : RouteId)
    → lookup (or_insert r id).0.routes id ≡ some (or_insert r id).1
unfolding or_insert lookup
or_insert-lookup r id = ground (arith, same_id_refl id)

or_insert-keeps :
    (r : RouteResourceRegistry) (i id : RouteId) (a : ℕ)
    → lookup r.routes id ≡ some a
    → lookup (or_insert r i).0.routes id ≡ some a
unfolding or_insert lookup
or_insert-keeps r i id a h = ground (arith, same_id_iff i id)

-- Calls on a set change what its `Arc`s point to, and neither the map nor the sets.
pub use_primary-map :
    (r : RouteResourceRegistry) (i : ℕ) (part : Part) (change : Cell → Cell)
    → ((use_primary r i part change).routes ≡ r.routes)
      × ((use_primary r i part change).heap ≡ r.heap)
unfolding use_primary
use_primary-map r i part change = ground arith

pub use_shadow-map :
    (r : RouteResourceRegistry) (i : ℕ) (part : Part) (change : Cell → Cell)
    → ((use_shadow r i part change).routes ≡ r.routes)
      × ((use_shadow r i part change).heap ≡ r.heap)
unfolding use_shadow
use_shadow-map r i part change = ground arith

perform-keeps :
    (r : RouteResourceRegistry) (id : RouteId) (a : ℕ) (s : Step)
    → IsKept id s
    → lookup r.routes id ≡ some a
    → lookup (perform r s).routes id ≡ some a
unfolding perform retire
perform-keeps r id a (creating i) k h = or_insert-keeps r i id a h
perform-keeps r id a (retiring i) k h = lookup-remove_other r.routes i id k ∙ h
perform-keeps r id a (primary_call i part change) k h =
    ap (λ rs. lookup rs id) (use_primary-map r i part change).0 ∙ h
perform-keeps r id a (shadow_call i part change) k h =
    ap (λ rs. lookup rs id) (use_shadow-map r i part change).0 ∙ h

perform_all-keeps :
    (r : RouteResourceRegistry) (id : RouteId) (a : ℕ) (steps : List Step)
    → All (IsKept id) steps
    → lookup r.routes id ≡ some a
    → lookup (perform_all r steps).routes id ≡ some a
unfolding perform_all
perform_all-keeps r id a [] k h = h
perform_all-keeps r id a (s ∷ rest) k h =
    perform_all-keeps (perform r s) id a rest k.1 (perform-keeps r id a s k.0 h)

get_or_create-lookup :
    (during : RouteResourceRegistry → RouteResourceRegistry) (r : RouteResourceRegistry)
    (id : RouteId)
    → lookup (get_or_create during r id).0.routes id ≡ some (get_or_create during r id).1
unfolding get_or_create get
get_or_create-lookup during r id = elim (Option-cases (lookup r.routes id)) [
  | inl e ↦ ground (arith, or_insert-lookup (during r) id)
  | inr (a, e) ↦ ground arith
]

found_again :
    (later : RouteResourceRegistry → RouteResourceRegistry) (r : RouteResourceRegistry)
    (id : RouteId) (a : ℕ)
    → lookup r.routes id ≡ some a
    → get_or_create later r id ≡ (r, a)
unfolding get_or_create get
found_again later r id a h = rw (h, get_or_create) refl

-- Lookups converge. Once a caller has got the set of a route, whatever others did between its read
-- and its write, every later lookup gets the same set and leaves the registry as it is, whatever
-- other calls come first, until the route is retired.
pub get_or_create_converges :
    (during later : RouteResourceRegistry → RouteResourceRegistry) (r : RouteResourceRegistry)
    (id : RouteId) (steps : List Step)
    → All (IsKept id) steps
    → let now = perform_all (get_or_create during r id).0 steps in
      get_or_create later now id ≡ (now, (get_or_create during r id).1)
get_or_create_converges during later r id steps k =
    found_again later _ id _ (perform_all-keeps _ id _ steps k (get_or_create-lookup during r id))
