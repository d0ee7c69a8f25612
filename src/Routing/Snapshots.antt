-- ===== src/Routing/Snapshots.antt =====
-- src/routing.rs: the tables that a store hands out to readers and writers, in the order in which
-- their calls take the lock.
use svc_resillience_rs.Prelude.{
  ◌+◌, ◌≤◌, ◌≡◌, refl, inl, inr, List, [], ◌∷◌, arith, Result, ok, err, All, All-map,
}
use svc_resillience_rs.Route.{Route, RouteTableError}
use svc_resillience_rs.Routing.{RouteTable, RouteTableStore, store_new, snapshot, replace}
use svc_resillience_rs.Routing.Table.{IsTable}
use svc_resillience_rs.Routing.Store.{replace_cases}

pub data StoreCall : Type 0 where
  reading : StoreCall
  replacing : List Route → StoreCall

abbrev handed : Result RouteTable RouteTableError → List RouteTable → List RouteTable
handed (ok next) ts = next ∷ ts
handed (err e) ts = ts

-- What calls on a store hand out: a snapshot, or the table that a replacement publishes.
unfoldable pub given : RouteTableStore → List StoreCall → List RouteTable
given store [] = []
given store (reading ∷ rest) = snapshot store ∷ given store rest
given store (replacing routes ∷ rest) =
    let (store', result) = replace store routes in handed result (given store' rest)

-- A table handed out after another: its generation is no lower, and if it is the same then so is the
-- table.
abbrev pub Follows : RouteTable → RouteTable → Type 0
Follows t u = (t.generation ≤ u.generation) × (u.generation ≡ t.generation → u ≡ t)

abbrev IsLater : RouteTable → RouteTable → Type 0
IsLater t u = IsTable u × Follows t u

abbrev pub InOrder : List RouteTable → Type 0
InOrder [] = Unit
InOrder (t ∷ ts) = All (Follows t) ts × InOrder ts

IsLater-next :
    (t next u : RouteTable) → next.generation ≡ t.generation + 1 → IsLater next u → IsLater t u
IsLater-next t next u moved c = (c.0, (omega (arith, c.1.0), λ e. absurd (omega (arith, c.1.0))))

given-IsLater :
    (store : RouteTableStore) (calls : List StoreCall)
    → IsTable store.current
    → All (IsLater store.current) (given store calls)
unfolding given snapshot
given-IsLater store [] v = tt
given-IsLater store (reading ∷ rest) v = ((v, (omega arith, λ e. refl)), given-IsLater store rest v)
given-IsLater store (replacing routes ∷ rest) v = elim (replace_cases store routes) [
  | inl (next, e, valid, moved, _, _) ↦
      let after : All (IsLater next) (given (record { current = next }) rest) =
        given-IsLater (record { current = next }) rest valid in
      rw e (
        IsLater-next store.current next next moved (valid, (omega arith, λ same. refl)),
        All-map _ _ (λ u. IsLater-next store.current next u moved) _ after,
      )
  | inr (_, e, why) ↦ rw e (given-IsLater store rest v)
]

given-InOrder :
    (store : RouteTableStore) (calls : List StoreCall)
    → IsTable store.current
    → InOrder (given store calls)
unfolding given snapshot
given-InOrder store [] v = tt
given-InOrder store (reading ∷ rest) v =
    (All-map _ _ (λ u c. c.1) _ (given-IsLater store rest v), given-InOrder store rest v)
given-InOrder store (replacing routes ∷ rest) v = elim (replace_cases store routes) [
  | inl (next, e, valid, moved, _, _) ↦
      let store' : RouteTableStore = record { current = next } in
      rw e (
        All-map _ _ (λ u c. c.1) _ (given-IsLater store' rest valid),
        given-InOrder store' rest valid,
      )
  | inr (_, e, why) ↦ rw e (given-InOrder store rest v)
]

-- However many readers and writers share a store that starts with a valid table: every table that it
-- hands out is valid; in the order of the calls the generations never go down; and a generation names
-- one table, so that whoever sees a generation twice has the very same routes.
pub given-consistent :
    (initial : RouteTable) (calls : List StoreCall)
    → IsTable initial
    → All IsTable (given (store_new initial) calls) × InOrder (given (store_new initial) calls)
unfolding store_new
given-consistent initial calls v = (
  All-map _ _ (λ u c. c.0) _ (given-IsLater (record { current = initial }) calls v),
  given-InOrder (record { current = initial }) calls v,
)
