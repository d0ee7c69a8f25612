-- ===== src/Eligibility/Snapshots.antt =====
-- src/eligibility.rs with src/routing.rs: decisions made from one table that a store handed out and
-- used on another.
use svc_resillience_rs.Prelude.{
  ℕ, ◌≡◌, ◌≢◌, ap, sym, ◌∙◌, subst, ◌⊎◌, inl, inr, Bool, List, [], ◌∷◌, arith, All-In, In, here,
  there, err, done, ℕ_discrete,
}
use svc_resillience_rs.Route.{Route}
use svc_resillience_rs.Routing.{RouteTable, store_new}
use svc_resillience_rs.Routing.Table.{IsTable}
use svc_resillience_rs.Routing.Snapshots.{StoreCall, given, Follows, InOrder, given-consistent}
use svc_resillience_rs.Eligibility.{generation_mismatch, from_predicate, select_weighted_with}
use svc_resillience_rs.Eligibility.Laws.{offered}
use svc_resillience_rs.Eligibility.Selection.{Drawn, select_weighted-safe}

-- Two tables of a store with one generation are one.
same_generation :
    (ts : List RouteTable) (t u : RouteTable)
    → InOrder ts
    → In t ts
    → In u ts
    → t.generation ≡ u.generation
    → t ≡ u
same_generation [] t u o m n g = elim m [ ]
same_generation (x ∷ ts) t u o (here e) (here f) g = cc
same_generation (x ∷ ts) t u o (here e) (there n) g =
    e ∙ sym ((All-In (Follows x) u ts o.0 n).1 (sym g ∙ ap (λ q. q.generation) e))
same_generation (x ∷ ts) t u o (there m) (here f) g =
    (All-In (Follows x) t ts o.0 m).1 (g ∙ ap (λ q. q.generation) f) ∙ sym f
same_generation (x ∷ ts) t u o (there m) (there n) g = same_generation ts t u o.1 m n g

mismatch :
    (t u : RouteTable) (predicate excluded : Route → Bool) (draw : ℕ → ℕ)
    → t.generation ≢ u.generation
    → select_weighted_with u (from_predicate t predicate) excluded draw
      ≡ done (err generation_mismatch)
unfolding select_weighted_with from_predicate
mismatch t u predicate excluded draw n = ground (arith, n)

-- Within one store that starts with a valid table, the check of generations is enough. A decision made
-- from any table that the store hands out and used on any other, older or newer, is refused with
-- `GenerationMismatch` if their generations differ; otherwise the two are one table, and the choice does
-- not panic: it is a draw from the routes on offer in that table.
pub decision_within_store :
    (initial : RouteTable) (calls : List StoreCall) (t u : RouteTable)
    (predicate excluded : Route → Bool) (draw : ℕ → ℕ)
    → IsTable initial
    → In t (given (store_new initial) calls)
    → In u (given (store_new initial) calls)
    → ((t.generation ≢ u.generation)
        × (select_weighted_with u (from_predicate t predicate) excluded draw
            ≡ done (err generation_mismatch)))
      ⊎ ((t ≡ u)
          × Drawn
              (offered predicate excluded u.routes)
              draw
              (select_weighted_with u (from_predicate t predicate) excluded draw))
decision_within_store initial calls t u predicate excluded draw v m n =
    let facts = given-consistent initial calls v in
    elim (ℕ_discrete t.generation u.generation) [
      | no differ ↦ inl (differ, mismatch t u predicate excluded draw differ)
      | yes g ↦
          let same = same_generation _ t u facts.1 m n g in
          inr (
            same,
            subst
                (λ s.
                  Drawn (offered predicate excluded u.routes) draw
                    (select_weighted_with u (from_predicate s predicate) excluded draw))
                (sym same)
                (select_weighted-safe u predicate excluded draw (All-In IsTable u _ facts.0 n)),
          )
    ]
