-- ===== src/Tests/Registry.antt =====
-- Runs of src/resource_registry.rs.
use svc_resillience_rs.Prelude.{◌≡◌, ◌≢◌, refl, List, [], ◌∷◌, some, ◌<◌, arith, length}
use svc_resillience_rs.Route.{same_id}
use svc_resillience_rs.Registry.{
  RouteResourcePolicy, Cell, bulkhead_cell, bulkhead_part, insert_new, resources_new,
  RouteResourceRegistry, registry_new, lookup, get, or_insert, get_or_create, retire, len,
  use_primary, Step, creating, retiring, primary_call, shadow_call, perform, perform_all,
}
use svc_resillience_rs.Registry.Laws.{get_or_create_converges}
use svc_resillience_rs.Registry.Isolation.{primary_of, shadow_of, halves_isolated}
use svc_resillience_rs.Registry.Retirement.{retired_for_good}
use svc_resillience_rs.Bulkhead.{new}
use svc_resillience_rs.Tests.{id_a, route_b}
use svc_resillience_rs.Registry.Refinement.{direct_all, registry_refines}

abbrev some_policy : RouteResourcePolicy
some_policy = record {
  circuit_breaker = record {
    failure_threshold = 2;
    open_timeout = 10;
    half_open_success_threshold = 2;
  };
  bulkhead_capacity = 4;
  retry_budget = record { capacity = 2; replenish_per_success = 1 };
}

-- A call on the primary half that takes a slot of its bulkhead.
abbrev take_slot : Cell → Cell
take_slot c = bulkhead_cell (record { capacity = 4; in_flight = 1 })

abbrev before : List Step
before = creating id_a ∷ creating route_b.id ∷ primary_call 0 bulkhead_part take_slot ∷ []

-- A route is retired and comes back.
abbrev history : List Step
history = creating id_a ∷ creating route_b.id ∷ retiring id_a ∷ creating id_a ∷ []

abbrev after : List Step
after = creating id_a ∷ primary_call 0 bulkhead_part take_slot ∷ retiring route_b.id ∷ []

abbrev in_use : RouteResourceRegistry
in_use = perform_all (registry_new some_policy some_policy) before

abbrev retired : RouteResourceRegistry
retired = record in_use { routes = (route_b.id, 1) ∷ [] }

two_routes : len in_use ≡ 2
unfolding len perform_all perform registry_new or_insert use_primary same_id
two_routes = refl

retired_a : retire in_use id_a ≡ (retired, some 0)
unfolding retire get lookup perform_all perform registry_new or_insert use_primary same_id
retired_a = refl

get_or_create_converges_example :
    get_or_create
      (λ r. r)
      (perform_all
        (get_or_create (λ r. (or_insert r id_a).0) in_use id_a).0
        (creating route_b.id ∷ []))
      id_a
    ≡ (
      perform_all
          (get_or_create (λ r. (or_insert r id_a).0) in_use id_a).0
          (creating route_b.id ∷ []),
      (get_or_create (λ r. (or_insert r id_a).0) in_use id_a).1,
    )
get_or_create_converges_example =
    get_or_create_converges (λ r. (or_insert r id_a).0) (λ r. r) in_use id_a
      (creating route_b.id ∷ []) (tt, tt)

-- The call on the primary bulkhead of the first set shows there, and not in the shadow one.
bulkheads :
    (primary_of in_use 0 bulkhead_part
      ≡ some (bulkhead_cell (record { capacity = 4; in_flight = 1 })))
    × (shadow_of in_use 0 bulkhead_part
        ≡ some (bulkhead_cell (record { capacity = 4; in_flight = 0 })))
unfolding perform_all perform registry_new or_insert insert_new resources_new use_primary same_id
    new
bulkheads = (refl, refl)

there_is_one : 0 < length in_use.heap
there_is_one =
    unfold perform_all in
    unfold perform in
    unfold registry_new in unfold or_insert in unfold use_primary in unfold same_id in omega arith

halves_isolated_example :
    (primary_of
        (perform_all in_use (shadow_call 0 bulkhead_part (λ s. s) ∷ creating id_a ∷ []))
        0
        bulkhead_part
      ≡ primary_of in_use 0 bulkhead_part)
    × (shadow_of (perform_all in_use (primary_call 0 bulkhead_part take_slot ∷ [])) 0 bulkhead_part
        ≡ shadow_of in_use 0 bulkhead_part)
halves_isolated_example =
    halves_isolated some_policy some_policy before
      (shadow_call 0 bulkhead_part (λ s. s) ∷ creating id_a ∷ [])
      (primary_call 0 bulkhead_part take_slot ∷ []) 0 bulkhead_part there_is_one (tt, (tt, tt))
      (tt, tt)

retired_for_good_example :
    (get (perform_all retired after) id_a ≢ some 0)
    × ((get_or_create (λ q. perform_all q (retiring id_a ∷ [])) (perform_all retired after) id_a).1
        ≢ 0)
retired_for_good_example =
    retired_for_good some_policy some_policy before after (retiring id_a ∷ []) retired id_a id_a 0
      retired_a

registry_refines_example :
    (get (perform_all (registry_new some_policy some_policy) history) id_a ≡ some 2)
    × (length (perform_all (registry_new some_policy some_policy) history).heap ≡ 3)
    × (len (perform_all (registry_new some_policy some_policy) history) ≡ 2)
unfolding direct_all same_id
registry_refines_example = registry_refines some_policy some_policy history id_a
