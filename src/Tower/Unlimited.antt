-- ===== src/Tower/Unlimited.antt =====
-- src/tower_adapter.rs and src/retry.rs: without a limit on the request's time, the service's loop is
-- the core's `retry`.
use native.Mathlib.Numerals.{add-one}
use mathlib.Core.Option.{map as option_map}
use svc_resillience_rs.Prelude.{
  ℕ, zero, suc, ◌+◌, ◌-◌, ◌≡◌, refl, ap, subst, sym, inl, inr, Option, none, some, List, [], ◌∷◌,
  arith, Result, ok, err, map_err, Duration, Option-cases, Result-cases,
}
use svc_resillience_rs.Deadline.{LogicalRequestBudget, is_exhausted, clamp_child, can_wait}
use svc_resillience_rs.Deadline as Deadline
use svc_resillience_rs.Retry.{
  RetryPolicy, delay_after, next_delay, Run, Caller, retry_loop, retry_sync,
}
use svc_resillience_rs.Retry.Delays.{next_delay-some}
use svc_resillience_rs.Retry.Loop.{loop-ok, loop-none, loop-some}
use svc_resillience_rs.Tokio.{TokioRequestBudget, elapsed, sleep_backoff}
use svc_resillience_rs.Tokio as Tokio
use svc_resillience_rs.Tower.{
  TowerRequestFactory, call, Downstream, timeout_state, again, ServiceRun, after_ready, await_ready,
  pause, after_call, round, service_loop, service_call,
}

module _ {S T E : Type 0} (p : RetryPolicy) (r : TowerRequestFactory) (d : Downstream S T E)
    (outcome : S → Result T E) (started : ℕ) where
  -- What lies between two calls: the backoff sleep after attempt `n` and the wait for readiness.
  abbrev pub prepared : ℕ → S → S
  prepared zero s = s
  prepared (suc n) s = (d.ready (d.sleep s (delay_after p.backoff (d.draw (suc n)) (suc n)))).1

  -- The service as a caller of the core's `retry`, which counts its calls; what lies between two
  -- calls is done at the start of the next one.
  abbrev pub as_caller : Caller (ℕ × S) T E
  as_caller = record {
    operation =
        λ (n, s). (outcome (prepared n s), (suc n, (d.call (prepared n s) r.attempt_timeout).1));
    elapsed = λ (n, s) attempt. d.std_now s - started;
    classify = d.classify;
    draw = d.draw;
  }

  abbrev pub as_service : Run (ℕ × S) T E → ServiceRun S T E
  as_service x = record { result = map_err call x.result; state = x.state.1; calls = x.calls }

unlimited_timeout :
    {A S : Type 0} (b : TokioRequestBudget) (now : ℕ) (requested : Duration)
    (future : Duration → Option A × S) (s : S) (a : A)
    → b.core.limit ≡ none
    → (future requested).0 ≡ some a
    → timeout_state b now requested future s ≡ (ok a, (future requested).1)
unfolding timeout_state clamp_child is_exhausted
unlimited_timeout b now requested future s a e h = ground arith

unlimited_sleep :
    (b : TokioRequestBudget) (now woken : ℕ) (delay : Duration)
    → b.core.limit ≡ none
    → sleep_backoff b now woken delay ≡ ok tt
unfolding sleep_backoff can_wait is_exhausted
unlimited_sleep b now woken delay e = ground arith

unlimited_remaining :
    (b : TokioRequestBudget) (now : ℕ) → b.core.limit ≡ none → Tokio.remaining b now ≡ none
unfolding Tokio.remaining Deadline.remaining
unlimited_remaining b now e = rw e refl

module _ {S T E : Type 0} (p : RetryPolicy) (r : TowerRequestFactory) (d : Downstream S T E)
    (outcome : S → Result T E) (started : ℕ) (unlimited : r.budget.core.limit ≡ none)
    (completes : (s : S) → (d.call s r.attempt_timeout).0 ≡ some (outcome s))
    (gets_ready : (s : S) → (d.ready s).0 ≡ ok tt) where
  abbrev after : S → S
  after s = (d.call s r.attempt_timeout).1

  round_unlimited :
      (attempt : ℕ) (s : S)
      → round p r d started attempt s ≡ after_call p r d started attempt (ok (outcome s), after s)
  unfolding round
  round_unlimited attempt s = ap (after_call p r d started attempt) (
      unlimited_timeout r.budget (d.now s) r.attempt_timeout (d.call s) s (outcome s) unlimited
        (completes s))

  ready_unlimited : (s : S) → await_ready p r d started s ≡ again (d.ready s).1
  unfolding await_ready after_ready
  ready_unlimited s =
      rw (unlimited_remaining r.budget (d.now s) unlimited, await_ready)
        (rw (gets_ready s, after_ready) refl)

  pause_unlimited :
      (s : S) (delay : Duration) → pause p r d started s delay ≡ again (d.ready (d.sleep s delay)).1
  unfolding pause
  pause_unlimited s delay =
      rw
        (
          unlimited_sleep r.budget (d.now s) (d.now (d.sleep s delay)) delay unlimited,
          pause,
          ready_unlimited (d.sleep s delay),
        )
        refl

  abbrev caller : Caller (ℕ × S) T E
  caller = as_caller p r d outcome started

  abbrev serve : Option (Run (ℕ × S) T E) → Option (ServiceRun S T E)
  serve = option_map (as_service p r d outcome started)

  abbrev here : ℕ → S → S
  here n s = prepared p r d outcome started n s

  -- One round of the service against one of the core's loop.
  round-ok :
      (fuel attempt n : ℕ) (sleeps : List Duration) (s : S) (value : T)
      → outcome (here n s) ≡ ok value
      → service_loop p r d started (suc fuel) attempt (here n s)
        ≡ serve (retry_loop p caller (suc fuel) attempt sleeps (n, s))
  unfolding service_loop after_call
  round-ok fuel attempt n sleeps s value e =
      rw
        (
          round_unlimited attempt (here n s),
          e,
          service_loop,
          loop-ok p caller fuel attempt sleeps (n, s) value e,
        )
        refl

  -- The core's decision after a failed call, which the service asks for too.
  abbrev decision : ℕ → E → S → Option Duration
  decision attempt error s =
      next_delay p (d.draw attempt) attempt (d.std_now s - started) (d.classify error)

  round-none :
      (fuel attempt n : ℕ) (sleeps : List Duration) (s : S) (error : E)
      → outcome (here n s) ≡ err error
      → decision attempt error (after (here n s)) ≡ none
      → service_loop p r d started (suc fuel) attempt (here n s)
        ≡ serve (retry_loop p caller (suc fuel) attempt sleeps (n, s))
  unfolding service_loop after_call
  round-none fuel attempt n sleeps s error e no_more =
      rw
        (
          round_unlimited attempt (here n s),
          e,
          after_call,
          no_more,
          service_loop,
          loop-none p caller fuel attempt sleeps (n, s) error e no_more,
        )
        refl

  round-some :
      (fuel n : ℕ) (sleeps : List Duration) (s : S) (error : E) (delay : Duration)
      → outcome (here n s) ≡ err error
      → decision (suc n) error (after (here n s)) ≡ some delay
      → service_loop p r d started fuel (suc n + 1) (here (suc n) (after (here n s)))
        ≡ serve (retry_loop p caller fuel (suc n + 1) (delay ∷ sleeps) (suc n, after (here n s)))
      → service_loop p r d started (suc fuel) (suc n) (here n s)
        ≡ serve (retry_loop p caller (suc fuel) (suc n) sleeps (n, s))
  unfolding service_loop after_call
  round-some fuel n sleeps s error delay e more rest =
      let granted = next_delay-some p (d.draw (suc n)) (suc n) _ (d.classify error) delay more in
      let woken =
        subst
          (λ (t : Duration).
            service_loop p r d started fuel (suc n + 1) (d.ready (d.sleep (after (here n s)) t)).1
            ≡ serve
                (retry_loop p caller fuel (suc n + 1) (delay ∷ sleeps) (suc n, after (here n s))))
          (sym granted.3) rest in
      rw
        (
          round_unlimited (suc n) (here n s),
          e,
          after_call,
          more,
          pause_unlimited (after (here n s)) delay,
          service_loop,
          loop-some p caller fuel (suc n) sleeps (n, s) error e delay more,
        )
        woken

  loop_agrees :
      (fuel n : ℕ) (sleeps : List Duration) (s : S)
      → service_loop p r d started fuel (suc n) (here n s)
        ≡ serve (retry_loop p caller fuel (suc n) sleeps (n, s))
  unfolding service_loop retry_loop
  loop_agrees zero n sleeps s = refl
  loop_agrees (suc fuel) n sleeps s = elim (Result-cases (outcome (here n s))) [
    | inl (value, e) ↦ round-ok fuel (suc n) n sleeps s value e
    | inr (error, e) ↦ elim (Option-cases (decision (suc n) error (after (here n s)))) [
      | inl no_more ↦ round-none fuel (suc n) n sleeps s error e no_more
      | inr (delay, more) ↦
          round-some fuel n sleeps s error delay e more
            (rw add-one (loop_agrees fuel (suc n) (delay ∷ sleeps) (after (here n s))))
    ]
  ]

-- If the request has no limit, every call completes within the attempt's timeout, and the service
-- always becomes ready, then a call of the service does what the core's `retry` does with the
-- service as its operation: the same result, with a downstream error as `call`, the same number of
-- calls, and the same state at the end.
pub service_call-eq-retry_sync :
    {S T E : Type 0} (p : RetryPolicy) (r : TowerRequestFactory) (d : Downstream S T E)
    (outcome : S → Result T E) (s : S)
    → r.budget.core.limit ≡ none
    → ((s' : S) → (d.call s' r.attempt_timeout).0 ≡ some (outcome s'))
    → ((s' : S) → (d.ready s').0 ≡ ok tt)
    → service_call p r d s
      ≡ option_map
          (as_service p r d outcome (d.std_now s))
          (retry_sync p (as_caller p r d outcome (d.std_now s)) (0, s))
unfolding service_call retry_sync
service_call-eq-retry_sync p r d outcome s unlimited completes gets_ready =
    loop_agrees p r d outcome (d.std_now s) unlimited completes gets_ready p.max_attempts 0 [] s
