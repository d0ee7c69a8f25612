-- ===== src/Tower/Waits.antt =====
-- src/tower_adapter.rs: every call, sleep and readiness wait that a service begins, and the time that it
-- is given.
use svc_resillience_rs.Prelude.{
  ℕ, ◌+◌, ◌≤◌, ◌<◌, ◌≡◌, true, false, Option, none, some, List, [], ◌∷◌, arith, All, Duration,
}
use svc_resillience_rs.Deadline.{is_exhausted, clamp_child, can_wait}
use svc_resillience_rs.Retry.{RetryPolicy}
use svc_resillience_rs.Tokio.{elapsed}
use svc_resillience_rs.Tower.Kept.{WaitsKeep, loop_keeps}
use svc_resillience_rs.Tower.Loop.{service_call_returns}
use svc_resillience_rs.Tower.{TowerRequestFactory, Downstream, ServiceRun, service_call}

-- A wait: when it began, and how long it may take, `none` if nothing limits it.
pub record Wait : Type 0 where
  pub at : ℕ
  pub given : Option Duration

-- The service's surroundings, with every wait written down, the last one first.
abbrev pub logged : {S T E : Type 0} → Downstream S T E → Downstream (S × List Wait) T E
logged d = record {
  now = λ (s, waits). d.now s;
  std_now = λ (s, waits). d.std_now s;
  call = λ (s, waits) given.
      let (output, s') = d.call s given in
      (output, (s', record { at = d.now s; given = some given } ∷ waits));
  ready_within = λ (s, waits) given.
      let (output, s') = d.ready_within s given in
      (output, (s', record { at = d.now s; given = some given } ∷ waits));
  ready = λ (s, waits).
      let (output, s') = d.ready s in (output, (s', record { at = d.now s; given = none } ∷ waits));
  sleep =
      λ (s, waits) delay. (d.sleep s delay, record { at = d.now s; given = some delay } ∷ waits);
  classify = d.classify;
  draw = d.draw;
}

-- It ends by the deadline at the latest: it is limited, and to a time that is over by then.
abbrev pub EndsBy : ℕ → ℕ → Option Duration → Type 0
EndsBy deadline at (some given) = at + given ≤ deadline
EndsBy deadline at none = false ≡ true

abbrev pub IsWithin : ℕ → Wait → Type 0
IsWithin deadline w = (w.at < deadline) × EndsBy deadline w.at w.given

module _ {S T E : Type 0} (r : TowerRequestFactory) (d : Downstream S T E) (limit : ℕ)
    (bound : r.budget.core.limit ≡ some limit) where
  abbrev AllWithin : S × List Wait → Type 0
  AllWithin (s, waits) = All (IsWithin (r.budget.started + limit)) waits

  waits-AllWithin : WaitsKeep r (logged d) AllWithin
  unfolding is_exhausted clamp_child can_wait elapsed
  waits-AllWithin = record {
    call_keeps = λ s h begun. ground arith;
    ready_keeps = λ s requested h begun. ground arith;
    sleep_keeps = λ s delay h waits. ground arith;
  }

-- A request with a limit never waits beyond its deadline: every call, backoff sleep and readiness wait
-- that the service begins on its behalf begins before the deadline, has a time limit, and that time
-- is over by the deadline, whatever the clock, the service and the sleeps do, for a policy that allows at least
-- one attempt.
pub service_call-waits :
    {S T E : Type 0} (p : RetryPolicy) (r : TowerRequestFactory) (d : Downstream S T E) (s : S)
    (limit : ℕ)
    → r.budget.core.limit ≡ some limit
    → 0 < p.max_attempts
    → (x : ServiceRun (S × List Wait) T E) × (service_call p r (logged d) (s, []) ≡ some x)
      × All (IsWithin (r.budget.started + limit)) x.state.1
unfolding service_call
service_call-waits p r d s limit bound pos =
    let (x, returns, _, _, _) = service_call_returns p r (logged d) (s, []) pos in
    let after =
      loop_keeps p r (logged d) (d.std_now s) limit bound _ (waits-AllWithin r d limit bound)
        p.max_attempts 1 (s, []) x tt returns in
    (x, returns, after)
