-- ===== src/Registry.antt =====
-- src/resource_registry.rs: the resources of each route. An `Arc<RouteResources>` is the index of a
-- resource set in a heap that only grows; the registry maps identifiers to such handles. A set holds
-- the `Arc`s of its breakers, bulkheads and budgets; calls change what these point to.
pub mod Layout
pub mod Arranged
pub mod Laws
pub mod Isolation
pub mod Retirement
pub mod Refinement
use svc_resillience_rs.Prelude.{
  ℕ, Bool, Option, none, some, List, [], ◌∷◌, ◌++◌, if◌then◌else◌, get_elem?, set, length, ◌==◌,
}
use svc_resillience_rs.Route.{RouteId, same_id}
use svc_resillience_rs.Breaker.{CircuitBreakerConfig, Shared}
use svc_resillience_rs.Breaker as Breaker
use svc_resillience_rs.Bulkhead as Bulkhead
use svc_resillience_rs.RetryBudget as RetryBudget
use svc_resillience_rs.RetryBudget.{RetryBudgetConfig, SharedRetryBudget}

pub record RouteResourcePolicy : Type 0 where
  pub circuit_breaker : CircuitBreakerConfig
  pub bulkhead_capacity : ℕ
  pub retry_budget : RetryBudgetConfig

-- A breaker: its configuration and what its mutex guards.
pub record CircuitBreaker : Type 0 where
  pub config : CircuitBreakerConfig
  pub shared : Shared

-- What an `Arc` points to, and the memory of them all: an `Arc` is the index of a cell, so that two
-- of them may share one.
pub data Cell : Type 0 where
  breaker_cell : CircuitBreaker → Cell
  bulkhead_cell : Bulkhead.Inner → Cell
  budget_cell : SharedRetryBudget → Cell

abbrev pub Arc : Type 0
Arc = ℕ

abbrev pub Memory : Type 0
Memory = List Cell

-- `Arc::new`.
unfoldable pub arc_new : Memory → Cell → Arc × Memory
arc_new m c = (length m, m ++ c ∷ [])

pub record PrimaryRouteResources : Type 0 where
  pub circuit_breaker : Arc
  pub bulkhead : Arc
  pub retry_budget : Arc

pub record ShadowRouteResources : Type 0 where
  pub circuit_breaker : Arc
  pub bulkhead : Arc
  pub retry_budget : Arc

pub record RouteResources : Type 0 where
  pub primary : PrimaryRouteResources
  pub shadow : ShadowRouteResources

-- `CircuitBreaker::new`, `Bulkhead::new` and the `new` of a retry budget allocate.
unfoldable pub breaker_of : RouteResourcePolicy → Cell
breaker_of p = breaker_cell (record { config = p.circuit_breaker; shared = Breaker.new })

unfoldable pub bulkhead_of : RouteResourcePolicy → Cell
bulkhead_of p = bulkhead_cell (Bulkhead.new p.bulkhead_capacity)

unfoldable pub budget_of : RouteResourcePolicy → Cell
budget_of p = budget_cell (RetryBudget.new p.retry_budget)

unfoldable pub primary_new : RouteResourcePolicy → Memory → PrimaryRouteResources × Memory
unfolding arc_new breaker_of bulkhead_of budget_of
primary_new p m =
    let (breaker, m) = arc_new m (breaker_of p) in
    let (bulkhead, m) = arc_new m (bulkhead_of p) in
    let (budget, m) = arc_new m (budget_of p) in
    (record { circuit_breaker = breaker; bulkhead = bulkhead; retry_budget = budget }, m)

unfoldable pub shadow_new : RouteResourcePolicy → Memory → ShadowRouteResources × Memory
unfolding arc_new breaker_of bulkhead_of budget_of
shadow_new p m =
    let (breaker, m) = arc_new m (breaker_of p) in
    let (bulkhead, m) = arc_new m (bulkhead_of p) in
    let (budget, m) = arc_new m (budget_of p) in
    (record { circuit_breaker = breaker; bulkhead = bulkhead; retry_budget = budget }, m)

-- `RouteResources::new`.
unfoldable pub resources_new :
    RouteResourcePolicy → RouteResourcePolicy → Memory → RouteResources × Memory
unfolding primary_new shadow_new
resources_new primary shadow m =
    let (primary, m) = primary_new primary m in
    let (shadow, m) = shadow_new shadow m in (record { primary = primary; shadow = shadow }, m)

pub record RouteResourceRegistry : Type 0 where
  pub primary_policy : RouteResourcePolicy
  pub shadow_policy : RouteResourcePolicy
  pub routes : List (RouteId × ℕ)
  pub heap : List RouteResources
  pub memory : Memory

-- `RouteResourceRegistry::new`.
unfoldable pub registry_new : RouteResourcePolicy → RouteResourcePolicy → RouteResourceRegistry
registry_new primary shadow = record {
  primary_policy = primary;
  shadow_policy = shadow;
  routes = [];
  heap = [];
  memory = [];
}

-- `HashMap::get` and `HashMap::remove` on the pairs of the map.
unfoldable pub lookup : List (RouteId × ℕ) → RouteId → Option ℕ
lookup [] id = none
lookup ((key, handle) ∷ rest) id =
    let later = lookup rest id in if same_id key id then some handle else later

unfoldable pub remove : List (RouteId × ℕ) → RouteId → List (RouteId × ℕ)
remove [] id = []
remove ((key, handle) ∷ rest) id =
    let later = remove rest id in if same_id key id then later else (key, handle) ∷ later

-- `RouteResourceRegistry::get`, under the read lock.
unfoldable pub get : RouteResourceRegistry → RouteId → Option ℕ
unfolding lookup
get r id = lookup r.routes id

-- A new set, at the end of the heap, under a new pair of the map.
unfoldable pub insert_new : RouteResourceRegistry → RouteId → RouteResourceRegistry × ℕ
insert_new r id =
    let (resources, memory) = resources_new r.primary_policy r.shadow_policy r.memory in
    (
      record r {
        routes = (id, length r.heap) ∷ r.routes;
        heap = r.heap ++ (resources ∷ []);
        memory = memory;
      },
      length r.heap,
    )

-- `entry` and `or_insert_with`, under the write lock.
unfoldable pub or_insert : RouteResourceRegistry → RouteId → RouteResourceRegistry × ℕ
unfolding get insert_new
or_insert r id = elim (get r id) [ some handle ↦ (r, handle) | none ↦ insert_new r id ]

-- `get_or_create`. The read lock is released before the write lock is taken: `during` is what other
-- callers do in between.
unfoldable pub get_or_create :
    (RouteResourceRegistry → RouteResourceRegistry)
    → RouteResourceRegistry
    → RouteId
    → RouteResourceRegistry × ℕ
get_or_create during r id = elim (get r id) [
  | some handle ↦ (r, handle)
  | none ↦ or_insert (during r) id
]

-- `retire`.
unfoldable pub retire : RouteResourceRegistry → RouteId → RouteResourceRegistry × Option ℕ
unfolding remove
retire r id = (record r { routes = remove r.routes id }, get r id)

unfoldable pub len : RouteResourceRegistry → ℕ
len r = length r.routes

-- `is_empty`.
unfoldable pub no_routes : RouteResourceRegistry → Bool
unfolding len
no_routes r = len r == 0

-- The three resources of a half.
pub data Part : Type 0 where
  breaker_part bulkhead_part budget_part : Part

abbrev pub primary_arc : Part → PrimaryRouteResources → Arc
primary_arc breaker_part v = v.circuit_breaker
primary_arc bulkhead_part v = v.bulkhead
primary_arc budget_part v = v.retry_budget

abbrev pub shadow_arc : Part → ShadowRouteResources → Arc
shadow_arc breaker_part v = v.circuit_breaker
shadow_arc bulkhead_part v = v.bulkhead
shadow_arc budget_part v = v.retry_budget

-- A change of what an `Arc` points to.
unfoldable pub written : Memory → Arc → (Cell → Cell) → Memory
written m a change = elim (get_elem? m a) [ none ↦ m | some c ↦ set m a (change c) ]

-- A call on a resource of the primary, or the shadow, half of the set behind a handle.
unfoldable pub use_primary :
    RouteResourceRegistry → ℕ → Part → (Cell → Cell) → RouteResourceRegistry
unfolding written
use_primary r handle part change = elim (get_elem? r.heap handle) [
  | none ↦ r
  | some v ↦ record r { memory = written r.memory (primary_arc part v.primary) change }
]

unfoldable pub use_shadow : RouteResourceRegistry → ℕ → Part → (Cell → Cell) → RouteResourceRegistry
unfolding written
use_shadow r handle part change = elim (get_elem? r.heap handle) [
  | none ↦ r
  | some v ↦ record r { memory = written r.memory (shadow_arc part v.shadow) change }
]

-- What the callers do, in any order.
pub data Step : Type 0 where
  creating retiring : RouteId → Step
  primary_call shadow_call : ℕ → Part → (Cell → Cell) → Step

unfoldable pub perform : RouteResourceRegistry → Step → RouteResourceRegistry
perform r (creating id) = (or_insert r id).0
perform r (retiring id) = (retire r id).0
perform r (primary_call handle part change) = use_primary r handle part change
perform r (shadow_call handle part change) = use_shadow r handle part change

unfoldable pub perform_all : RouteResourceRegistry → List Step → RouteResourceRegistry
perform_all r [] = r
perform_all r (s ∷ rest) = perform_all (perform r s) rest
