-- ===== src/Tower/Kept.antt =====
-- src/tower_adapter.rs: what the waits of a service keep true of the state, its calls keep true.
use svc_resillience_rs.Prelude.{
  ℕ, zero, suc, ◌+◌, ◌-◌, ◌≡◌, refl, subst, inl, inr, Bool, true, false, Option, some, Result, ok,
  err, Duration, Option-cases, Bool-cases, Result-cases,
}
use svc_resillience_rs.Deadline.{is_exhausted, clamp_child, can_wait}
use svc_resillience_rs.Deadline as Deadline
use svc_resillience_rs.Retry.{RetryPolicy, next_delay}
use svc_resillience_rs.Tokio.{
  TokioExecutionStop, TokioRequestBudget, backoff_would_exhaust_budget, elapsed, sleep_backoff,
}
use svc_resillience_rs.Tokio as Tokio
use svc_resillience_rs.Tower.{
  TowerRequestFactory, Downstream, timeout_state, Round, finish, again, ServiceRun, after_ready,
  await_ready, pause, after_call, round, service_loop,
}

module _ {S T E : Type 0} (r : TowerRequestFactory) (d : Downstream S T E) where
  abbrev pub exhausted_at : S → Bool
  exhausted_at s = is_exhausted r.budget.core (elapsed r.budget (d.now s))

  -- What a wait that asks for a time gets.
  abbrev pub given_at : S → Duration → Duration
  given_at s requested = clamp_child r.budget.core (elapsed r.budget (d.now s)) requested

  -- The predicate is kept by each wait that the service begins: a call, and a wait for readiness, before
  -- the deadline; and a sleep that leaves time.
  pub record WaitsKeep (P : S → Type 0) : Type 0 where
    pub call_keeps :
        (s : S) → P s → exhausted_at s ≡ false → P (d.call s (given_at s r.attempt_timeout)).1
    pub ready_keeps :
        (s : S) (requested : Duration)
        → P s
        → exhausted_at s ≡ false
        → P (d.ready_within s (given_at s requested)).1
    pub sleep_keeps :
        (s : S) (delay : Duration)
        → P s
        → can_wait r.budget.core (elapsed r.budget (d.now s)) delay ≡ true
        → P (d.sleep s delay)

module _ {S T E : Type 0} (p : RetryPolicy) (r : TowerRequestFactory) (d : Downstream S T E)
    (started limit : ℕ) (bound : r.budget.core.limit ≡ some limit) (P : S → Type 0)
    (kept : WaitsKeep r d P) where
  abbrev EndsKept : Round S T E → Type 0
  EndsKept (finish result s) = P s
  EndsKept (again s) = P s

  timeout_keeps :
      {A : Type 0} (requested : Duration) (future : Duration → Option A × S) (s : S)
      → P s
      → (exhausted_at r d s ≡ false → P (future (given_at r d s requested)).1)
      → P (timeout_state r.budget (d.now s) requested future s).1
  unfolding timeout_state
  timeout_keeps requested future s h begun = elim (Bool-cases (exhausted_at r d s)) [
    | inl e ↦ rw (e, timeout_state) h
    | inr e ↦ rw (e, timeout_state) (begun e)
  ]

  refused_sleep :
      (now woken : ℕ) (delay : Duration)
      → can_wait r.budget.core (elapsed r.budget now) delay ≡ false
      → sleep_backoff r.budget now woken delay ≡ err backoff_would_exhaust_budget
  unfolding sleep_backoff
  refused_sleep now woken delay h = rw h refl

  after_ready_keeps :
      (outcome : Result (Result {0, 0} Unit E) TokioExecutionStop) (s : S)
      → P s
      → EndsKept (after_ready p r d started (outcome, s))
  unfolding after_ready
  after_ready_keeps (err stop) s h = h
  after_ready_keeps (ok (err error)) s h = h
  after_ready_keeps (ok (ok u)) s h = h

  await_ready_keeps : (s : S) → P s → EndsKept (await_ready p r d started s)
  unfolding await_ready
  await_ready_keeps s h =
      let left = limit - elapsed r.budget (d.now s) in
      let bounded : Tokio.remaining r.budget (d.now s) ≡ some left =
        unfold Tokio.remaining Deadline.remaining elapsed in rw bound refl in
      rw (bounded, await_ready)
        (after_ready_keeps (timeout_state r.budget (d.now s) left (d.ready_within s) s).0 _
          (timeout_keeps left (d.ready_within s) s h (kept.ready_keeps s left h)))

  pause_keeps : (s : S) (delay : Duration) → P s → EndsKept (pause p r d started s delay)
  unfolding pause
  pause_keeps s delay h =
      elim (Bool-cases (can_wait r.budget.core (elapsed r.budget (d.now s)) delay)) [
        | inl waits ↦
            elim (Result-cases (sleep_backoff r.budget (d.now s) (d.now (d.sleep s delay)) delay)) [
              | inl (u, e) ↦
                  rw (e, pause)
                    (await_ready_keeps (d.sleep s delay) (kept.sleep_keeps s delay h waits))
              | inr (stop, e) ↦ rw (e, pause, waits) (kept.sleep_keeps s delay h waits)
            ]
        | inr refused ↦
            rw (refused_sleep (d.now s) (d.now (d.sleep s delay)) delay refused, pause, refused) h
      ]

  after_call_keeps :
      (attempt : ℕ) (result : Result (Result T E) TokioExecutionStop) (s : S)
      → P s
      → EndsKept (after_call p r d started attempt (result, s))
  unfolding after_call
  after_call_keeps attempt (err stop) s h = h
  after_call_keeps attempt (ok (ok response)) s h = h
  after_call_keeps attempt (ok (err error)) s h =
      elim (Option-cases
        (next_delay p (d.draw attempt) attempt (d.std_now s - started) (d.classify error))) [
          | inl e ↦ rw (e, after_call) h
          | inr (delay, e) ↦ rw (e, after_call) (pause_keeps s delay h)
        ]

  round_keeps : (attempt : ℕ) (s : S) → P s → EndsKept (round p r d started attempt s)
  unfolding round
  round_keeps attempt s h =
      after_call_keeps attempt (timeout_state r.budget (d.now s) r.attempt_timeout (d.call s) s).0 _
        (timeout_keeps r.attempt_timeout (d.call s) s h (kept.call_keeps s h))

  ends_at : (x y : ServiceRun S T E) → some x ≡ some y → x.state ≡ y.state
  ends_at x y h = cc

  loop_round :
      (fuel attempt : ℕ) (s : S) (now : Round S T E) (x : ServiceRun S T E)
      → round p r d started attempt s ≡ now
      → EndsKept now
      → ((s' : S) → P s' → service_loop p r d started fuel (attempt + 1) s' ≡ some x → P x.state)
      → service_loop p r d started (suc fuel) attempt s ≡ some x
      → P x.state
  unfolding service_loop
  loop_round fuel attempt s (finish result s') x e h rest ends =
      let same : s' ≡ x.state =
        ends_at (record { result = result; state = s'; calls = attempt }) x
          (rw (e, service_loop) at ends) in
      subst P same h
  loop_round fuel attempt s (again s') x e h rest ends = rest s' h (rw (e, service_loop) at ends)

  -- So it holds at the end of every run that begins with it.
  pub loop_keeps :
      (fuel attempt : ℕ) (s : S) (x : ServiceRun S T E)
      → P s
      → service_loop p r d started fuel attempt s ≡ some x
      → P x.state
  unfolding service_loop
  loop_keeps zero attempt s x h ends = cc
  loop_keeps (suc fuel) attempt s x h ends =
      loop_round fuel attempt s _ x refl (round_keeps attempt s h)
        (λ s' h' ends'. loop_keeps fuel (attempt + 1) s' x h' ends') ends
