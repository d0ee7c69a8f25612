-- ===== src/Tests/Eligibility.antt =====
-- Runs of src/eligibility.rs.
use svc_resillience_rs.Prelude.{
  ℕ, ◌≡◌, ◌≢◌, ◌⊎◌, List, refl, [], ◌∷◌, Bool, true, false, not, some, ok, err, done, panicked,
  u64_max, count_below, In, here, there, ◌≤◌, ◌<◌, arith,
}
use svc_resillience_rs.Route.{Route, contains, insert, same_id}
use svc_resillience_rs.Weighted.{total}
use svc_resillience_rs.Routing.{RouteTable, scan, table_new, store_new, snapshot, replace}
use svc_resillience_rs.Eligibility.{
  generation_mismatch, from_predicate, collect, all, is_empty, display_eligibility_error,
  select_weighted_with, select_with,
}
use svc_resillience_rs.Eligibility.Laws.{offered}
use svc_resillience_rs.Eligibility.Selection.{Drawn, chosen, select_weighted-exact}
use svc_resillience_rs.Eligibility.Foreign.{
  candidates, foreign_overflow_panics, foreign_chooses_disabled,
}
use svc_resillience_rs.Routing.Snapshots.{StoreCall, reading, replacing, given}
use svc_resillience_rs.Eligibility.Snapshots.{decision_within_store}
use svc_resillience_rs.Tests.{
  id_a, route_a, route_b, route_c, some_routes, some_table, some_table-IsTable,
}

-- A health predicate that holds `shadow-b` back.
abbrev healthy : Route → Bool
healthy r = not (same_id r.id route_b.id)

abbrev is_first : Route → Bool
is_first r = same_id r.id id_a

empty_decision : is_empty (from_predicate some_table (λ r. false)) ≡ true
unfolding is_empty from_predicate
empty_decision = refl

mismatch :
    (select_with (all some_table) (record some_table { generation = 18 }) (λ n. 0)
      ≡ done (err generation_mismatch))
    × (display_eligibility_error generation_mismatch
        ≡ "route eligibility was derived from a different routing generation")
unfolding select_with all display_eligibility_error
mismatch = (refl, refl)

select_weighted-exact_example :
    count_below (total (offered healthy is_first some_routes)) (λ c.
      chosen route_c.id
        (select_weighted_with some_table (from_predicate some_table healthy) is_first (λ n. c)))
    ≡ 5
unfolding same_id
select_weighted-exact_example =
    select_weighted-exact some_table healthy is_first route_c some_table-IsTable
      (there (there (here refl))) refl

-- Another table of the same generation: its weights for the routes of `some_table` together do not
-- fit into 64 bits, and it has the first of them disabled.
abbrev heavy_table : RouteTable
heavy_table = record {
  generation = 17;
  routes =
      record { id = id_a; weight = u64_max; enabled = false }
      ∷ record { id = route_b.id; weight = 1; enabled = true }
      ∷ [];
  eligible_weight = 1;
}

heavy_table_built : table_new 17 heavy_table.routes ≡ ok heavy_table
unfolding table_new scan contains same_id
heavy_table_built = refl

overflows : u64_max < total (candidates (all some_table) heavy_table)
unfolding all from_predicate collect insert contains same_id
overflows = omega arith

foreign_overflow_panics_example : select_with (all some_table) heavy_table (λ n. 0) ≡ panicked
unfolding all
foreign_overflow_panics_example =
    foreign_overflow_panics heavy_table (all some_table) (λ n. 0) refl overflows

abbrev swapped_table : RouteTable
swapped_table = record {
  generation = 17;
  routes =
      record { id = id_a; weight = 2; enabled = false }
      ∷ record { id = route_b.id; weight = 1; enabled = true }
      ∷ [];
  eligible_weight = 1;
}

fits : total (candidates (all some_table) swapped_table) ≤ u64_max
unfolding all from_predicate collect insert contains same_id
fits = omega arith

foreign_chooses_disabled_example :
    (c : ℕ) × (select_with (all some_table) swapped_table (λ n. c)
      ≡ done (ok (some (record { id = id_a; weight = 2; enabled = false }))))
foreign_chooses_disabled_example =
    foreign_chooses_disabled swapped_table some_table
      (record { id = id_a; weight = 2; enabled = false }) route_a some_table-IsTable refl
      (here refl) refl (omega arith) (here refl) refl refl fits

-- A decision made before a replacement, used after it.
abbrev replaced : RouteTable
replaced = record { generation = 18; routes = route_b ∷ []; eligible_weight = 3 }

abbrev calls : List StoreCall
calls = reading ∷ replacing (route_b ∷ []) ∷ []

handed_out : given (store_new some_table) calls ≡ some_table ∷ replaced ∷ []
unfolding given store_new snapshot replace table_new scan contains
handed_out = refl

old : In some_table (given (store_new some_table) calls)
old = rw handed_out (here refl)

new : In replaced (given (store_new some_table) calls)
new = rw handed_out (there (here refl))

decision_within_store_example :
    ((some_table.generation ≢ replaced.generation)
      × (select_weighted_with replaced (from_predicate some_table healthy) is_first (λ n. 0)
          ≡ done (err generation_mismatch)))
    ⊎ ((some_table ≡ replaced)
        × Drawn
            (offered healthy is_first (route_b ∷ []))
            (λ n. 0)
            (select_weighted_with replaced (from_predicate some_table healthy) is_first (λ n. 0)))
decision_within_store_example =
    decision_within_store some_table calls some_table replaced healthy is_first (λ n. 0)
      some_table-IsTable old new
