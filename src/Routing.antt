-- ===== src/Routing.antt =====
-- src/routing.rs: the validated table, weighted selection from it, and the store of the current one.
pub mod Table
pub mod Selection
pub mod Store
pub mod Snapshots
use svc_resillience_rs.Prelude.{
  ℕ, ◌+◌, ◌-◌, Bool, true, false, not, ◌||◌, Option, none, some, List, [], ◌∷◌, ◌==◌, ltb, leb,
  if◌then◌else◌, checked_add_u64, Result, ok, err, ◌>>=◌, ok_or, Exec, done, panicked,
}
use svc_resillience_rs.Route.{
  RouteId, Route, RouteTableError, empty_route_table, duplicate_route_id,
  no_weighted_eligible_route, weight_overflow, draw_out_of_range, generation_exhausted, is_weighted,
  IdSet, contains,
}

pub record RouteTable : Type 0 where
  pub generation : ℕ
  pub routes : List Route
  pub eligible_weight : ℕ

-- The loop of `RouteTable::new`: the identifiers seen, and the weight so far.
unfoldable pub scan : IdSet → ℕ → List Route → Result ℕ RouteTableError
scan seen weight [] = ok weight
scan seen weight (r ∷ rs) =
    let rest = do
      weight' ←
          if is_weighted r
          then ok_or (checked_add_u64 weight r.weight) weight_overflow
          else ok weight
      scan (r.id ∷ seen) weight' rs
    in if contains seen r.id then err duplicate_route_id else rest

unfoldable pub check_weight : ℕ → Result ℕ RouteTableError
check_weight weight = if weight == 0 then err no_weighted_eligible_route else ok weight

-- `RouteTable::new`.
unfoldable pub table_new : ℕ → List Route → Result RouteTable RouteTableError
unfolding check_weight
table_new generation [] = err empty_route_table
table_new generation (r ∷ rs) = do
  eligible_weight ← scan [] 0 (r ∷ rs)
  eligible_weight' ← check_weight eligible_weight
  ok (record { generation = generation; routes = r ∷ rs; eligible_weight = eligible_weight' })

-- The loop of `select_with`, which passes over the routes that carry no weight.
unfoldable pub walk_enabled : ℕ → List Route → Exec Route
walk_enabled cursor [] = panicked
walk_enabled cursor (r ∷ rs) =
    let skip = walk_enabled cursor rs in
    let rest = walk_enabled (cursor - r.weight) rs in
    if not r.enabled || (r.weight == 0) then skip else if ltb cursor r.weight then done r else rest

-- `RouteTable::select_with`; `draw n` is what the caller's source draws from the range `0..n`.
unfoldable pub select_with : RouteTable → (ℕ → ℕ) → Exec (Result Route RouteTableError)
unfolding walk_enabled
select_with t draw =
    let selected = draw t.eligible_weight in
    if leb t.eligible_weight selected
    then done (err draw_out_of_range)
    else elim (walk_enabled selected t.routes) [ panicked ↦ panicked | done r ↦ done (ok r) ]

-- `RouteTable::select`: `expect` panics on an error. The draw is `fastrand::u64`.
unfoldable pub expect {ℓ κ} : {A : Type ℓ} {E : Type κ} → Exec (Result A E) → Exec A
expect panicked = panicked
expect (done (ok a)) = done a
expect (done (err e)) = panicked

unfoldable pub select : RouteTable → (ℕ → ℕ) → Exec Route
unfolding select_with expect
select t draw = expect (select_with t draw)

pub record RouteTableStore : Type 0 where
  pub current : RouteTable

-- `RouteTableStore::new`.
unfoldable pub store_new : RouteTable → RouteTableStore
store_new initial = record { current = initial }

-- `RouteTableStore::snapshot`, under the read lock. A table is never changed, so that sharing it is
-- having it.
unfoldable pub snapshot : RouteTableStore → RouteTable
snapshot store = store.current

unfoldable pub next_generation : RouteTable → Result ℕ RouteTableError
next_generation t = ok_or (checked_add_u64 t.generation 1) generation_exhausted

unfoldable pub publish :
    RouteTableStore
    → Result RouteTable RouteTableError
    → RouteTableStore × Result RouteTable RouteTableError
publish store (ok next) = (record { current = next }, ok next)
publish store (err e) = (store, err e)

-- `RouteTableStore::replace`, all of it under the write lock.
unfoldable pub replace :
    RouteTableStore → List Route → RouteTableStore × Result RouteTable RouteTableError
unfolding next_generation publish
replace store routes =
    publish store (next_generation store.current >>= λ generation. table_new generation routes)
