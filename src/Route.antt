-- ===== src/Route.antt =====
-- src/routing.rs: route identifiers, routes, the errors of a table, and the `HashSet<RouteId>` that
-- the crate keeps identifiers in.
pub mod Ids
pub mod Sets
use text.Mathlib.Text.{◌==◌ as str_eq}
use svc_resillience_rs.Prelude.{
  ℕ, Bool, true, false, ◌&&◌, ◌||◌, List, [], ◌∷◌, String, ltb, if◌then◌else◌, Result, ok, err,
}

pub record RouteId : Type 0 where
  pub id : String

pub data RouteTableError : Type 0 where
  empty_route_table empty_route_id duplicate_route_id no_weighted_eligible_route : RouteTableError
  weight_overflow draw_out_of_range generation_exhausted : RouteTableError

unfoldable pub display_table_error : RouteTableError → String
display_table_error empty_route_table = "route table must contain at least one route"
display_table_error empty_route_id = "route id must not be empty"
display_table_error duplicate_route_id = "route table contains a duplicate route id"
display_table_error no_weighted_eligible_route =
    "route table has no enabled route with positive weight"
display_table_error weight_overflow = "total eligible route weight overflowed u64"
display_table_error draw_out_of_range = "weighted-selection draw was outside the requested range"
display_table_error generation_exhausted = "route-table generation exhausted u64"

-- `RouteId::new`.
unfoldable pub route_id_new : String → Result RouteId RouteTableError
route_id_new id = if str_eq id "" then err empty_route_id else ok (record { id = id })

-- `PartialEq for RouteId`.
unfoldable pub same_id : RouteId → RouteId → Bool
same_id a b = str_eq a.id b.id

pub record Route : Type 0 where
  pub id : RouteId
  pub weight : ℕ
  pub enabled : Bool

-- `Route::new`.
unfoldable pub route_new : RouteId → ℕ → Route
route_new id weight = record { id = id; weight = weight; enabled = true }

unfoldable pub disabled : Route → Route
disabled r = record r { enabled = false }

-- The test of `RouteTable::new` and of the eligibility filters on a route.
abbrev pub is_weighted : Route → Bool
is_weighted r = r.enabled && ltb 0 r.weight

-- A set of identifiers: a list without duplicates. `insert` also says whether the value was new.
abbrev pub IdSet : Type 0
IdSet = List RouteId

unfoldable pub contains : IdSet → RouteId → Bool
contains [] i = false
contains (j ∷ s) i = same_id j i || contains s i

unfoldable pub insert : IdSet → RouteId → IdSet × Bool
unfolding contains
insert s i = if contains s i then (s, false) else (i ∷ s, true)
