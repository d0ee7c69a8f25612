-- ===== src/Tower/Loop.antt =====
-- src/tower_adapter.rs: the runs of the service's retry loop.
use svc_resillience_rs.Prelude.{
  ℕ, zero, suc, ◌+◌, ◌-◌, ◌≤◌, ◌<◌, ◌≡◌, refl, ap, ◌∙◌, ◌⊎◌, inl, inr, true, false, max, Option,
  some, arith, Result, ok, err, Duration, Option-cases, Bool-cases,
}
use svc_resillience_rs.Deadline.{is_exhausted}
use svc_resillience_rs.Retry.{do_not_retry, RetryPolicy, delay_after, exceeds, next_delay}
use svc_resillience_rs.Retry.Delays.{next_delay-some, next_delay-none}
use svc_resillience_rs.Tokio.{
  TokioExecutionStop, caller_cancelled, logical_deadline_exceeded, child_timeout,
  backoff_would_exhaust_budget, TokioRequestBudget, elapsed, stop_of, sleep_backoff,
}
use svc_resillience_rs.Tokio as Tokio
use svc_resillience_rs.Tower.{
  TowerRequestFactory, TowerRetryError, readiness, call, runtime, Downstream, timeout_state, Round,
  finish, again, ServiceRun, after_ready, await_ready, pause, after_call, round, service_loop,
  service_call,
}
use svc_resillience_rs.Tower.Stops.{
  IsRuntimeStop, StopsWell, timeout_state-StopsWell, sleep_backoff-StopsWell,
}

module _ {S T E : Type 0} (p : RetryPolicy) (r : TowerRequestFactory) (d : Downstream S T E)
    (started : ℕ) where
  -- Why the loop ends at an attempt with an answer.
  abbrev pub IsEnd : ℕ → Result T (TowerRetryError E) → S → Type 0
  IsEnd attempt (ok response) s = Unit
  IsEnd attempt (err (readiness error)) s = attempt < p.max_attempts
  IsEnd attempt (err (runtime stop)) s = IsRuntimeStop stop
  IsEnd attempt (err (call error)) s =
      (d.classify error ≡ do_not_retry)
      ⊎ (p.max_attempts ≤ attempt)
      ⊎ (exceeds p.max_elapsed (d.std_now s - started)
            (delay_after p.backoff (d.draw attempt) attempt)
          ≡ true)

  abbrev pub IsRound : ℕ → Round S T E → Type 0
  IsRound attempt (finish result s) = IsEnd attempt result s
  IsRound attempt (again s) = attempt < p.max_attempts

  after_ready-IsRound :
      (attempt : ℕ) (x : Result (Result {0, 0} Unit E) TokioExecutionStop × S)
      → attempt < p.max_attempts
      → StopsWell x.0
      → IsRound attempt (after_ready p r d started x)
  unfolding after_ready
  after_ready-IsRound attempt (err stop, s) l h = h
  after_ready-IsRound attempt (ok (err error), s) l h = l
  after_ready-IsRound attempt (ok (ok u), s) l h = l

  await_ready-IsRound :
      (attempt : ℕ) (s : S)
      → attempt < p.max_attempts
      → IsRound attempt (await_ready p r d started s)
  unfolding await_ready
  await_ready-IsRound attempt s l = elim (Option-cases (Tokio.remaining r.budget (d.now s))) [
    | inl e ↦
        rw (e, await_ready) (after_ready-IsRound attempt (ok (d.ready s).0, (d.ready s).1) l tt)
    | inr (left, e) ↦
        rw (e, await_ready)
          (after_ready-IsRound attempt (timeout_state r.budget (d.now s) left (d.ready_within s) s)
            l (timeout_state-StopsWell r.budget (d.now s) left (d.ready_within s) s))
  ]

  pause_cases :
      (attempt : ℕ) (s : S) (delay : Duration) (slept : Result {0, 0} Unit TokioExecutionStop)
      → attempt < p.max_attempts
      → StopsWell slept
      → sleep_backoff r.budget (d.now s) (d.now (d.sleep s delay)) delay ≡ slept
      → IsRound attempt (pause p r d started s delay)
  unfolding pause
  pause_cases attempt s delay (err stop) l h e = rw (e, pause) h
  pause_cases attempt s delay (ok u) l h e =
      rw (e, pause) (await_ready-IsRound attempt (d.sleep s delay) l)

  after_call-IsRound :
      (attempt : ℕ) (x : Result (Result T E) TokioExecutionStop × S)
      → StopsWell x.0
      → IsRound attempt (after_call p r d started attempt x)
  unfolding after_call
  after_call-IsRound attempt (err stop, s) h = h
  after_call-IsRound attempt (ok (ok response), s) h = tt
  after_call-IsRound attempt (ok (err error), s) h =
      elim (Option-cases
        (next_delay p (d.draw attempt) attempt (d.std_now s - started) (d.classify error))) [
          | inl e ↦
              rw (e, after_call)
                (next_delay-none p (d.draw attempt) attempt (d.std_now s - started)
                  (d.classify error) e)
          | inr (delay, e) ↦
              let granted =
                next_delay-some p (d.draw attempt) attempt (d.std_now s - started)
                  (d.classify error) delay e in
              rw (e, after_call)
                (pause_cases attempt s delay _ granted.1
                  (sleep_backoff-StopsWell r.budget (d.now s) (d.now (d.sleep s delay)) delay) refl)
        ]

  round-IsRound : (attempt : ℕ) (s : S) → IsRound attempt (round p r d started attempt s)
  unfolding round
  round-IsRound attempt s =
      after_call-IsRound attempt (timeout_state r.budget (d.now s) r.attempt_timeout (d.call s) s)
        (timeout_state-StopsWell r.budget (d.now s) r.attempt_timeout (d.call s) s)

  -- A run from an attempt on.
  abbrev Ends : ℕ → ℕ → S → Type 0
  Ends fuel attempt s =
      (x : ServiceRun S T E) × (service_loop p r d started fuel attempt s ≡ some x)
      × (x.calls ≤ max p.max_attempts attempt)
      × IsEnd x.calls x.result x.state

  one_round :
      (fuel attempt : ℕ) (s : S) (now : Round S T E)
      → p.max_attempts ≤ attempt + fuel
      → round p r d started attempt s ≡ now
      → IsRound attempt now
      → ((s' : S) → attempt < p.max_attempts → Ends fuel (attempt + 1) s')
      → Ends (suc fuel) attempt s
  unfolding service_loop
  one_round fuel attempt s (finish result s') l e h rest = (
    record { result = result; state = s'; calls = attempt },
    rw (e, service_loop) refl,
    omega arith,
    h,
  )
  one_round fuel attempt s (again s') l e h rest =
      let (x, returns, bound, ends) = rest s' h in
      (x, rw (e, service_loop) returns, omega (arith, bound, h), ends)

  service_loop-Ends :
      (fuel attempt : ℕ) (s : S) → p.max_attempts ≤ attempt + fuel → Ends (suc fuel) attempt s
  service_loop-Ends zero attempt s l =
      one_round zero attempt s _ l refl (round-IsRound attempt s)
        (λ s' h. absurd (omega (arith, h, l)))
  service_loop-Ends (suc fuel) attempt s l =
      one_round (suc fuel) attempt s _ l refl (round-IsRound attempt s)
        (λ s' h. service_loop-Ends fuel (attempt + 1) s' (omega (arith, l)))

exhausted_timeout :
    {A S : Type 0} (b : TokioRequestBudget) (now : ℕ) (requested : Duration)
    (future : Duration → Option A × S) (s : S)
    → is_exhausted b.core (elapsed b now) ≡ true
    → timeout_state b now requested future s ≡ (err logical_deadline_exceeded, s)
unfolding timeout_state
exhausted_timeout b now requested future s e = rw (e, timeout_state) refl

exhausted_round :
    {S T E : Type 0} (p : RetryPolicy) (r : TowerRequestFactory) (d : Downstream S T E)
    (started attempt : ℕ) (s : S)
    → is_exhausted r.budget.core (elapsed r.budget (d.now s)) ≡ true
    → round p r d started attempt s ≡ finish (err (runtime logical_deadline_exceeded)) s
unfolding round after_call
exhausted_round p r d started attempt s e =
    ap (after_call p r d started attempt)
      (exhausted_timeout r.budget (d.now s) r.attempt_timeout (d.call s) s e)

exhausted_loop :
    {S T E : Type 0} (p : RetryPolicy) (r : TowerRequestFactory) (d : Downstream S T E)
    (started fuel attempt : ℕ) (s : S)
    → is_exhausted r.budget.core (elapsed r.budget (d.now s)) ≡ true
    → service_loop p r d started (suc fuel) attempt s
      ≡ some
          (record { result = err (runtime logical_deadline_exceeded); state = s; calls = attempt })
unfolding service_loop
exhausted_loop p r d started fuel attempt s e =
    rw (exhausted_round p r d started attempt s e, service_loop) refl

-- With a policy that allows at least one attempt the service always answers, after at most
-- `max_attempts` attempts. It ends with a downstream error only if the classifier gave up on it,
-- the attempts are used up, or the next delay would exceed the policy's elapsed time; with a
-- readiness error only while attempts were left; and otherwise with the response or with a stop of
-- the runtime, which is never a cancellation. A request whose budget is exhausted at the start
-- ends with the logical deadline and leaves the state as it is.
pub service_call_returns :
    {S T E : Type 0} (p : RetryPolicy) (r : TowerRequestFactory) (d : Downstream S T E) (s : S)
    → 0 < p.max_attempts
    → (x : ServiceRun S T E) × (service_call p r d s ≡ some x)
      × (x.calls ≤ p.max_attempts)
      × IsEnd p r d (d.std_now s) x.calls x.result x.state
      × ((is_exhausted r.budget.core (elapsed r.budget (d.now s)) ≡ false)
          ⊎ ((x.result ≡ err (runtime logical_deadline_exceeded)) × (x.state ≡ s)))
unfolding service_call
service_call_returns p r d s pos =
    let fuel : p.max_attempts ≡ suc (p.max_attempts - 1) = omega arith in
    let enough = ap (λ n. service_loop p r d (d.std_now s) n 1 s) fuel in
    elim (Bool-cases (is_exhausted r.budget.core (elapsed r.budget (d.now s)))) [
      | inl e ↦ (
        record { result = err (runtime logical_deadline_exceeded); state = s; calls = 1 },
        enough ∙ exhausted_loop p r d (d.std_now s) (p.max_attempts - 1) 1 s e,
        omega arith,
        tt,
        inr (refl, refl),
      )
      | inr e ↦
          let (x, returns, bound, ends) =
            service_loop-Ends p r d (d.std_now s) (p.max_attempts - 1) 1 s (omega arith) in
          (x, enough ∙ returns, omega (arith, bound), ends, inl e)
    ]
