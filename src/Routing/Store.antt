-- ===== src/Routing/Store.antt =====
-- src/routing.rs: the store under any sequence of replacements.
use svc_resillience_rs.Prelude.{
  ℕ, ◌+◌, ◌≤◌, ◌≡◌, refl, ◌⊎◌, inl, inr, List, [], ◌∷◌, arith, if◌then◌else◌, u64_max, ok, err,
  ◌>>=◌, >>=-eq-ok, Result-cases, is_ok,
}
use svc_resillience_rs.Route.{Route, RouteTableError, generation_exhausted}
use svc_resillience_rs.Routing.{
  RouteTable, RouteTableStore, table_new, next_generation, publish, replace,
}
use svc_resillience_rs.Routing.Table.{IsTable, table_new-IsTable}

next_generation-ok :
    (t : RouteTable) (g : ℕ) → next_generation t ≡ ok g → (g ≡ t.generation + 1) × (g ≤ u64_max)
unfolding next_generation
next_generation-ok t g h = ground arith

replaced :
    (store : RouteTableStore) (routes : List Route) (g : ℕ) (next : RouteTable)
    → (g ≡ store.current.generation + 1) × (g ≤ u64_max)
    → IsTable next × (next.generation ≡ g) × (next.routes ≡ routes)
    → IsTable next
      × (next.generation ≡ store.current.generation + 1)
      × (next.generation ≤ u64_max)
      × (next.routes ≡ routes)
replaced store routes g next h v = (v.0, omega arith, omega arith, v.2)

-- Why a replacement is refused.
abbrev pub IsRefusal : RouteTableStore → List Route → RouteTableError → Type 0
IsRefusal store routes e =
    ((u64_max ≤ store.current.generation) × (e ≡ generation_exhausted))
    ⊎ (table_new (store.current.generation + 1) routes ≡ err e)

refused :
    (store : RouteTableStore) (routes : List Route) (e : RouteTableError)
    → (next_generation store.current >>= λ g. table_new g routes) ≡ err e
    → IsRefusal store routes e
unfolding next_generation
refused store routes e h = ground arith

-- A replacement publishes a valid table of the given routes, exactly one generation on, and returns
-- it; or it leaves the store as it was and returns an error, `GenerationExhausted` if the generation
-- cannot go up and otherwise the error of `RouteTable::new` on these routes.
pub replace_cases :
    (store : RouteTableStore) (routes : List Route)
    → ((next : RouteTable) × (replace store routes ≡ (record { current = next }, ok next))
        × IsTable next
        × (next.generation ≡ store.current.generation + 1)
        × (next.generation ≤ u64_max)
        × (next.routes ≡ routes))
      ⊎ ((e : RouteTableError) × (replace store routes ≡ (store, err e)) × IsRefusal store routes e)
unfolding replace
replace_cases store routes =
    elim (Result-cases (next_generation store.current >>= λ g. table_new g routes)) [
      | inl (next, e) ↦
          let (g, moved, made) = >>=-eq-ok (next_generation store.current) _ e in
          let facts =
            replaced store routes g next (next_generation-ok store.current g moved)
              (table_new-IsTable g routes next made) in
          inl (next, rw (e, publish) refl, facts.0, facts.1, facts.2, facts.3)
      | inr (err_e, e) ↦ inr (err_e, rw (e, publish) refl, refused store routes err_e e)
    ]

-- A sequence of replacements, in the order in which they take the write lock.
unfoldable replace_all : RouteTableStore → List (List Route) → RouteTableStore
replace_all store [] = store
replace_all store (routes ∷ rest) = replace_all (replace store routes).0 rest

-- How many of them publish a table.
unfoldable published : RouteTableStore → List (List Route) → ℕ
published store [] = 0
published store (routes ∷ rest) =
    let (store', result) = replace store routes in
    (if is_ok result then 1 else 0) + published store' rest

replace-current :
    (store : RouteTableStore) (routes : List Route)
    → IsTable store.current
    → IsTable (replace store routes).0.current
      × ((replace store routes).0.current.generation
          ≡ store.current.generation + (if is_ok (replace store routes).1 then 1 else 0))
replace-current store routes v = elim (replace_cases store routes) [
  | inl (next, e, valid, moved, _, _) ↦ rw e (valid, moved)
  | inr (_, e, why) ↦ rw e (v, omega arith)
]

-- However many writers replace the table, the current one stays valid, and its generation has gone up
-- by exactly one for each replacement that was published.
replace_all-current :
    (store : RouteTableStore) (rest : List (List Route))
    → IsTable store.current
    → IsTable (replace_all store rest).current
      × ((replace_all store rest).current.generation
          ≡ store.current.generation + published store rest)
unfolding replace_all published
replace_all-current store [] v = (v, omega arith)
replace_all-current store (routes ∷ rest) v =
    let one = replace-current store routes v in
    let ih = replace_all-current (replace store routes).0 rest one.0 in
    (ih.0, omega (arith, ih.1, one.1))
