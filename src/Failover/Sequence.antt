-- ===== src/Failover/Sequence.antt =====
-- src/failover.rs: what any sequence of classifications comes to.
use svc_resillience_rs.Prelude.{
  ℕ, ◌+◌, ◌≡◌, refl, ap, sym, ◌∙◌, subst, Bool, some, List, [], ◌∷◌, arith, length, Result, ok,
  Exec, done,
}
use svc_resillience_rs.Route.{Route, contains}
use svc_resillience_rs.Route.Ids.{same_id_refl}
use svc_resillience_rs.Routing.Table.{IsTable}
use svc_resillience_rs.Eligibility.{from_predicate}
use svc_resillience_rs.Failover.{
  RouteOutcome, RouteDecision, RouteFailoverError, RouteFailover, classify_with,
}
use svc_resillience_rs.Failover.Bounds.{
  IsFailover, settled, Classified, kept, exhausted, no_route, failed, moved,
  classify_with-Classified,
}

-- What a classification leaves alone.
abbrev pub SameRequest : RouteFailover → RouteFailover → Type 0
SameRequest f g =
    (g.snapshot ≡ f.snapshot) × (g.eligibility ≡ f.eligibility) × (g.budget ≡ f.budget)

abbrev pub failovers : Exec (Result RouteDecision RouteFailoverError) → ℕ
failovers (done (ok (RouteDecision.failover a))) = 1
failovers _ = 0

settled-failovers :
    (outcome : RouteOutcome) (d : RouteDecision)
    → settled outcome ≡ some d
    → failovers (done (ok d)) ≡ 0
settled-failovers RouteOutcome.succeeded d h = ground arith
settled-failovers RouteOutcome.retry_same_route d h = ground arith
settled-failovers RouteOutcome.stop d h = ground arith
settled-failovers RouteOutcome.failover d h = cc

Classified-step :
    (predicate : Route → Bool) (f : RouteFailover) (outcome : RouteOutcome) (draw : ℕ → ℕ)
    (c : RouteFailover × Exec (Result RouteDecision RouteFailoverError))
    → Classified predicate f outcome draw c
    → IsFailover f
    → IsFailover c.0
      × SameRequest f c.0
      × (length c.0.attempted ≡ failovers c.1 + length f.attempted)
unfolding contains
Classified-step predicate f outcome draw _ (kept d h) v =
    (v, (refl, refl, refl), omega (arith, settled-failovers outcome d h))
Classified-step predicate f outcome draw _ (exhausted h full) v =
    (v, (refl, refl, refl), omega arith)
Classified-step predicate f outcome draw _ (no_route h room z) v =
    (v, (refl, refl, refl), omega arith)
Classified-step predicate f outcome draw _ (failed h room p l) v =
    (v, (refl, refl, refl), omega arith)
Classified-step predicate f outcome draw _ (moved r h m w p fresh room) v =
    (ground (arith, same_id_refl r.id), (refl, refl, refl), omega arith)

-- A request classifies one outcome after the other, each with a draw of its own.
unfoldable pub classify_all : RouteFailover → List (RouteOutcome × (ℕ → ℕ)) → RouteFailover
classify_all f [] = f
classify_all f ((outcome, draw) ∷ rest) = classify_all (classify_with f outcome draw).0 rest

unfoldable pub count_failovers : RouteFailover → List (RouteOutcome × (ℕ → ℕ)) → ℕ
count_failovers f [] = 0
count_failovers f ((outcome, draw) ∷ rest) =
    let (f', answer) = classify_with f outcome draw in failovers answer + count_failovers f' rest

pub classify_all-IsFailover :
    (predicate : Route → Bool) (f : RouteFailover) (rest : List (RouteOutcome × (ℕ → ℕ)))
    → IsTable f.snapshot
    → f.eligibility ≡ from_predicate f.snapshot predicate
    → IsFailover f
    → IsFailover (classify_all f rest)
      × SameRequest f (classify_all f rest)
      × (length (classify_all f rest).attempted ≡ count_failovers f rest + length f.attempted)
unfolding classify_all count_failovers
classify_all-IsFailover predicate f [] v e i = (i, (refl, refl, refl), omega arith)
classify_all-IsFailover predicate f ((outcome, draw) ∷ rest) v e i =
    let one =
      Classified-step predicate f outcome draw (classify_with f outcome draw)
        (classify_with-Classified predicate f outcome draw v e) i in
    let same = one.1 in
    let ih =
      classify_all-IsFailover predicate (classify_with f outcome draw).0 rest
        (subst IsTable (sym same.0) v)
        (same.1 ∙ e ∙ ap (λ t. from_predicate t predicate) (sym same.0)) one.0 in
    (ih.0, (ih.1.0 ∙ same.0, ih.1.1 ∙ same.1, ih.1.2 ∙ same.2), omega (arith, ih.2, one.2))
