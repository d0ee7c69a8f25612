-- ===== src/Tests.antt =====
-- Runs of the models on concrete inputs: the routing table that the tests share, one module of runs
-- for each part, and in each the instances of its theorems.
pub mod Routing
pub mod Eligibility
pub mod Failover
pub mod Shadow
pub mod Breaker
pub mod Bulkhead
pub mod Retry
pub mod Registry
pub mod Tokio
pub mod Tower
pub mod Observability
use svc_resillience_rs.Prelude.{ℕ, ◌≡◌, refl, ok, true, false, List, [], ◌∷◌}
use svc_resillience_rs.Route.{RouteId, Route, route_new, disabled, contains, same_id}
use svc_resillience_rs.Routing.{RouteTable, scan, table_new}
use svc_resillience_rs.Routing.Table.{IsTable, table_new-IsTable}

abbrev pub id_a : RouteId
id_a = record { id = "primary-a" }

abbrev pub route_a : Route
route_a = record { id = id_a; weight = 2; enabled = true }

abbrev pub route_b : Route
route_b = record { id = record { id = "shadow-b" }; weight = 3; enabled = true }

abbrev pub route_c : Route
route_c = record { id = record { id = "shadow-c" }; weight = 5; enabled = true }

abbrev pub route_off : Route
route_off = record { id = record { id = "disabled" }; weight = 100; enabled = false }

abbrev pub some_routes : List Route
some_routes = route_a ∷ route_b ∷ route_c ∷ route_off ∷ []

abbrev pub some_table : RouteTable
some_table = record { generation = 17; routes = some_routes; eligible_weight = 10 }

some_table_built : table_new 17 some_routes ≡ ok some_table
unfolding table_new scan contains same_id
some_table_built = refl

pub some_table-IsTable : IsTable some_table
some_table-IsTable = (table_new-IsTable 17 some_routes some_table some_table_built).0

table_new-IsTable_example :
    IsTable some_table × (some_table.generation ≡ 17) × (some_table.routes ≡ some_routes)
table_new-IsTable_example = table_new-IsTable 17 some_routes some_table some_table_built

route_off_built : disabled (route_new route_off.id 100) ≡ route_off
unfolding disabled route_new
route_off_built = refl
