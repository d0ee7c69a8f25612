-- ===== src/Tests/Routing.antt =====
-- Runs of src/routing.rs.
use svc_resillience_rs.Prelude.{
  ◌≡◌, refl, [], ◌∷◌, true, ok, err, done, panicked, u64_max, count_below, here, there, All, List,
}
use svc_resillience_rs.Route.{
  empty_route_id, empty_route_table, duplicate_route_id, no_weighted_eligible_route,
  weight_overflow, generation_exhausted, display_table_error, route_id_new, contains, same_id,
}
use svc_resillience_rs.Routing.{
  RouteTableStore, scan, table_new, select_with, select, replace, store_new,
}
use svc_resillience_rs.Routing.Table.{IsTable, table_new_of}
use svc_resillience_rs.Routing.Selection.{picked, select_with-exact}
use svc_resillience_rs.Routing.Snapshots.{
  StoreCall, reading, replacing, given, InOrder, given-consistent,
}
use svc_resillience_rs.Tests.{
  route_a, route_b, route_c, route_off, some_routes, some_table, some_table-IsTable,
}

abbrev some_store : RouteTableStore
some_store = record { current = some_table }

empty_id : route_id_new "" ≡ err empty_route_id
unfolding route_id_new
empty_id = refl

no_routes : table_new 1 [] ≡ err empty_route_table
unfolding table_new
no_routes = refl

twice : table_new 1 (route_a ∷ route_a ∷ []) ≡ err duplicate_route_id
unfolding table_new scan contains same_id
twice = refl

only_disabled : table_new 1 (route_off ∷ []) ≡ err no_weighted_eligible_route
unfolding table_new scan contains
only_disabled = refl

too_heavy :
    table_new 1 (route_a ∷ record { id = route_b.id; weight = u64_max; enabled = true } ∷ [])
    ≡ err weight_overflow
unfolding table_new scan contains same_id
too_heavy = refl

exhausted_text : display_table_error generation_exhausted ≡ "route-table generation exhausted u64"
unfolding display_table_error
exhausted_text = refl

boundaries :
    (select some_table (λ n. 1) ≡ done route_a)
    × (select some_table (λ n. 2) ≡ done route_b)
    × (select some_table (λ n. 9) ≡ done route_c)
    × (select some_table (λ n. 10) ≡ panicked)
unfolding select
boundaries = (refl, refl, refl, refl)

exhausted :
    (replace (record { current = record some_table { generation = u64_max } }) some_routes).1
    ≡ err generation_exhausted
unfolding replace
exhausted = refl

table_new_of_example : table_new 17 some_routes ≡ ok some_table
table_new_of_example = table_new_of some_table some_table-IsTable

select_with-exact_example :
    count_below 10 (λ c. picked route_b.id (select_with some_table (λ n. c))) ≡ 3
select_with-exact_example =
    select_with-exact some_table route_b some_table-IsTable (there (here refl)) refl

abbrev calls : List StoreCall
calls = reading ∷ replacing (route_b ∷ []) ∷ replacing [] ∷ reading ∷ []

given-consistent_example :
    All IsTable (given (store_new some_table) calls) × InOrder (given (store_new some_table) calls)
given-consistent_example = given-consistent some_table calls some_table-IsTable
