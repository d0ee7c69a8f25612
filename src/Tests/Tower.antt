-- ===== src/Tests/Tower.antt =====
-- Runs of src/tower_adapter.rs.
use mathlib.Core.Option.{map as option_map}
use svc_resillience_rs.Prelude.{
  List, [], ◌∷◌, All, ℕ, ◌+◌, ◌≤◌, ◌≡◌, refl, ◌⊎◌, false, if◌then◌else◌, leb, ◌==◌, arith, Option,
  none, some, Result, ok, err, Duration,
}
use svc_resillience_rs.Prelude.Words.{saturating_pow_u32}
use svc_resillience_rs.Deadline.{is_exhausted, clamp_child, can_wait}
use svc_resillience_rs.Retry.{
  RetryPolicy, no_jitter, retry, do_not_retry, retry_sync, next_delay, delay_after,
}
use svc_resillience_rs.Tokio.{TokioExecutionStop, logical_deadline_exceeded, elapsed, sleep_backoff}
use svc_resillience_rs.Tokio as Tokio
use svc_resillience_rs.Tower.{
  TowerRequestFactory, readiness, runtime, display_retry_error, Downstream, timeout_state,
  ServiceRun, await_ready, pause, after_call, round, service_loop, service_call,
}
use svc_resillience_rs.Tower.Unlimited.{as_caller, as_service, service_call-eq-retry_sync}
use svc_resillience_rs.Tower.Service.{
  TowerRetryLayer, layer, Poll, pending, done, poll_ready, ready_for, call,
}
use svc_resillience_rs.Tower.Bounds.{KeepsTime, service_call_in_time}
use svc_resillience_rs.Tower.Waits.{Wait, logged, IsWithin, service_call-waits}
use svc_resillience_rs.Tower.Loop.{IsEnd, service_call_returns}

-- The state is the time and the number of calls. A call takes 10 ns; the first one fails.
abbrev flaky_call : ℕ × ℕ → Duration → Option (Result ℕ ℕ) × (ℕ × ℕ)
flaky_call (time, calls) given =
    if leb 10 given
    then (some (if calls == 0 then err 7 else ok 42), (time + 10, calls + 1))
    else (none, (time + given, calls))

abbrev service : Downstream (ℕ × ℕ) ℕ ℕ
service = record {
  now = λ s. s.0;
  std_now = λ s. s.0;
  call = flaky_call;
  ready_within = λ s given. (some (ok tt), s);
  ready = λ s. (ok tt, s);
  sleep = λ s delay. (s.0 + delay, s.1);
  classify = λ e. retry;
  draw = λ attempt n. 0;
}

abbrev patient : RetryPolicy
patient = record {
  max_attempts = 3;
  max_elapsed = none;
  backoff = record { initial = 5; maximum = 100; factor = 2; jitter = no_jitter };
}

abbrev request : TowerRequestFactory
request = record {
  budget = record { core = record { limit = some 100 }; started = 0 };
  attempt_timeout = 20;
}

served :
    service_call patient request service (0, 0)
    ≡ some (record { result = ok 42; state = (25, 2); calls = 2 })
unfolding service_call service_loop round after_call pause await_ready timeout_state sleep_backoff
    next_delay delay_after saturating_pow_u32 is_exhausted clamp_child can_wait Tokio.remaining
served = refl

service-KeepsTime : KeepsTime service 0
service-KeepsTime = record {
  call_forward = λ s given. ground arith;
  call_ends = λ s given. ground arith;
  ready_forward = λ s given. omega arith;
  ready_ends = λ s given. omega arith;
  sleep_forward = λ s delay. omega arith;
  sleep_ends = λ s delay. omega arith;
}

service_call_in_time_example :
    (x : ServiceRun (ℕ × ℕ) ℕ ℕ) × (service_call patient request service (0, 0) ≡ some x)
    × (x.state.0 ≤ 0 + 100 + 0)
service_call_in_time_example =
    service_call_in_time patient request service (0, 0) 100 0 refl service-KeepsTime (omega arith)
      (omega arith) (omega arith)

-- A call of 10 ns, a backoff of 5 ns, a wait for readiness, and a call.
waits_of :
    service_call patient request (logged service) ((0, 0), [])
    ≡ some (record {
      result = ok 42;
      state = (
        (25, 2),
        record { at = 15; given = some 20 }
            ∷ record { at = 15; given = some 85 }
            ∷ record { at = 10; given = some 5 }
            ∷ record { at = 0; given = some 20 }
            ∷ [],
      );
      calls = 2;
    })
unfolding service_call service_loop round after_call pause await_ready timeout_state sleep_backoff
    next_delay delay_after saturating_pow_u32 is_exhausted clamp_child can_wait Tokio.remaining
waits_of = refl

service_call-waits_example :
    (x : ServiceRun ((ℕ × ℕ) × List Wait) ℕ ℕ) × (service_call patient request
        (logged service)
        ((0, 0), [])
      ≡ some x)
    × All (IsWithin (0 + 100)) x.state.1
service_call-waits_example =
    service_call-waits patient request service (0, 0) 100 refl (omega arith)

text :
    display_retry_error (λ e. e) (λ s. "stop") (readiness "closed")
    ≡ "service readiness failed: closed"
unfolding display_retry_error
text = refl

service_call_returns_example :
    (x : ServiceRun (ℕ × ℕ) ℕ ℕ) × (service_call patient request service (0, 0) ≡ some x)
    × (x.calls ≤ 3)
    × IsEnd patient request service 0 x.calls x.result x.state
    × ((is_exhausted request.budget.core (elapsed request.budget 0) ≡ false)
        ⊎ ((x.result ≡ err (runtime logical_deadline_exceeded)) × (x.state ≡ (0, 0))))
service_call_returns_example = service_call_returns patient request service (0, 0) (omega arith)

-- The same service without a limit on the request's time.
abbrev unhurried : TowerRequestFactory
unhurried = record {
  budget = record { core = record { limit = none }; started = 0 };
  attempt_timeout = 20;
}

abbrev flaky_outcome : ℕ × ℕ → Result ℕ ℕ
flaky_outcome (time, calls) = if calls == 0 then err 7 else ok 42

served_by_retry :
    option_map
      (as_service patient unhurried service flaky_outcome 0)
      (retry_sync patient (as_caller patient unhurried service flaky_outcome 0) (0, (0, 0)))
    ≡ some (record { result = ok 42; state = (25, 2); calls = 2 })
unfolding retry_sync next_delay delay_after saturating_pow_u32
served_by_retry = refl

service_call-eq-retry_sync_example :
    service_call patient unhurried service (0, 0)
    ≡ option_map
        (as_service patient unhurried service flaky_outcome 0)
        (retry_sync patient (as_caller patient unhurried service flaky_outcome 0) (0, (0, 0)))
service_call-eq-retry_sync_example =
    service_call-eq-retry_sync patient unhurried service flaky_outcome (0, 0) refl (λ s. refl)
      (λ s. refl)

-- A wrapped service that counts its polls and is ready at the third.
abbrev third_poll : ℕ → Poll (Result {0, 0} Unit ℕ) × ℕ
third_poll polls = (if leb 2 polls then done (ok tt) else pending, polls + 1)

abbrev retrying : TowerRetryLayer ℕ
retrying = record { policy = patient; classify = λ e. retry }

-- A service that answers with the number of its polls.
abbrev counted : Downstream (ℕ × ℕ) ℕ ℕ
counted = record {
  now = λ s. s.1;
  std_now = λ s. s.1;
  call = λ (polls, time) given. (some (ok polls), (polls, time + 1));
  ready_within = λ s given. (some (ok tt), s);
  ready = λ s. (ok tt, s);
  sleep = λ s delay. s;
  classify = λ e. do_not_retry;
  draw = λ attempt n. 0;
}

ready_at_third : ready_for third_poll 5 (layer retrying 0) ≡ some (ok tt, layer retrying 3)
unfolding ready_for layer poll_ready
ready_at_third = refl

called : (call (λ polls. 0) counted (layer retrying 3) unhurried 0).0 ≡ layer retrying 0
unfolding call layer
called = refl
