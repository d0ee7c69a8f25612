-- ===== src/Tests/Breaker.antt =====
-- Runs of src/circuit_breaker.rs.
use svc_resillience_rs.Prelude.{
  ◌++◌, ℕ, ◌≡◌, refl, List, [], ◌∷◌, false, ok, err, done, arith, count_by, is_ok, if◌then◌else◌,
}
use svc_resillience_rs.Breaker.{
  CircuitState, CircuitBreakerConfig, zero_failure_threshold, zero_open_timeout,
  zero_half_open_success_threshold, config_new, CircuitBreakerRejected, circuit_breaker_rejected,
  CircuitBreakerCallError, rejected, inner, PermitKind, Mode, Shared, Clock, Exit, returned, new,
  state, refresh_open_state, CircuitBreakerPermit, try_acquire, success, failure, drop_permit,
}
use svc_resillience_rs.Breaker as Breaker
use svc_resillience_rs.Breaker.Call.{Operation, succeeds, panics, call, answer, call_answers}
use svc_resillience_rs.Breaker.Display.{display_config_error, display_rejected, display_call_error}
use svc_resillience_rs.Breaker.World.{
  World, Event, observe, acquire, succeed, fail, abandon, wait, run, start, is_probe, is_plain,
  failing_calls, succeeding_calls,
}
use svc_resillience_rs.Breaker.Permits.{IsConfig, ModeInv}
use svc_resillience_rs.Breaker.Invariant.{run-start-ModeInv}
use svc_resillience_rs.Breaker.Modes.{opens_at_threshold}
use svc_resillience_rs.Breaker.Recovery.{recovers}
use svc_resillience_rs.Breaker.Circuit as Circuit
use svc_resillience_rs.Breaker.Circuit.{seen, admitted, refused as turned_away, silent}
use svc_resillience_rs.Breaker.Abstraction.{answers, circuit_of}
use svc_resillience_rs.Breaker.Refinement.{fresh, run_refines_circuit}
use svc_resillience_rs.Breaker.Overflow.{overflow_stays_closed}

abbrev two_two : CircuitBreakerConfig
two_two = record { failure_threshold = 2; open_timeout = 10; half_open_success_threshold = 2 }

two_two-IsConfig : IsConfig two_two
two_two-IsConfig = record {
  failures = omega arith;
  failures_u32 = omega arith;
  successes = omega arith;
  successes_u32 = omega arith;
}

configs :
    (config_new 0 1 1 ≡ err zero_failure_threshold)
    × (config_new 1 0 1 ≡ err zero_open_timeout)
    × (config_new 1 1 0 ≡ err zero_half_open_success_threshold)
    × (config_new 2 10 2 ≡ ok two_two)
unfolding config_new
configs = (refl, refl, refl, refl)

texts :
    (display_config_error zero_open_timeout ≡ "open timeout must be greater than zero")
    × (display_call_error (λ e. e) (inner "timeout") ≡ "timeout")
    × (display_call_error (λ e. e) (rejected circuit_breaker_rejected)
        ≡ "circuit breaker rejected the call")
unfolding display_config_error display_call_error display_rejected
texts = (refl, refl, refl)

abbrev lucky : Operation ℕ ℕ
lucky = succeeds 5

-- Two failing calls open the breaker, which turns away the third.
refused :
    call two_two 3
      (record { now = 3; limit = 1000 })
      (λ s. s)
      lucky
      (run two_two 1000 (start 3) (failing_calls 2)).shared
    ≡ (
      record { generation = 1; mode = Mode.opened 13 },
      done (err (rejected circuit_breaker_rejected)),
    )
unfolding call run new Breaker.World.step success failure drop_permit
refused = refl

observed : (state 13 (record { generation = 1; mode = Mode.opened 13 })).1 ≡ CircuitState.half_open
unfolding state
observed = refl

abbrev closed_world : World
closed_world = record {
  shared = record { generation = 0; mode = Mode.closed 0 };
  now = 3;
  permits = [];
}

abbrev open_world : World
open_world = record {
  shared = record { generation = 1; mode = Mode.opened 13 };
  now = 20;
  permits = [];
}

abbrev half_open_world : World
half_open_world = record {
  shared = record { generation = 2; mode = Mode.half_open 1 0 };
  now = 20;
  permits = [];
}

abbrev probe : CircuitBreakerPermit
probe = record { generation = 2; kind = PermitKind.half_open; completed = false }

abbrev clock : Clock
clock = record { now = 20; limit = 1000 }

abbrev last_clock : Clock
last_clock = record { now = 995; limit = 1000 }

abbrev busy : List Event
busy =
    acquire
    ∷ acquire
    ∷ fail 0
    ∷ fail 0
    ∷ wait 10
    ∷ observe
    ∷ acquire
    ∷ acquire
    ∷ acquire
    ∷ abandon 1
    ∷ succeed 0
    ∷ []

run-start-ModeInv_example :
    ModeInv two_two
      (run two_two 1000 (start 3) busy).shared.mode
      (count_by
        (is_plain (run two_two 1000 (start 3) busy).shared.generation)
        (run two_two 1000 (start 3) busy).permits)
      (count_by
        (is_probe (run two_two 1000 (start 3) busy).shared.generation)
        (run two_two 1000 (start 3) busy).permits)
run-start-ModeInv_example =
    run-start-ModeInv two_two 1000 3 busy two_two-IsConfig (omega arith) (omega arith)

opens_at_threshold_example :
    (run two_two 1000 closed_world (failing_calls 2)).shared
    ≡ record { generation = 1; mode = Mode.opened 13 }
opens_at_threshold_example =
    opens_at_threshold two_two 1000 closed_world 2 refl (omega arith) (omega arith) (omega arith)
      (omega arith)

recovers_example :
    (run two_two 1000 open_world (succeeding_calls 2)).shared
    ≡ record { generation = 3; mode = Mode.closed 0 }
recovers_example = recovers two_two 1000 open_world 13 1 refl (omega arith) refl (omega arith)

call_answers_example :
    ((call two_two 20 clock (λ s. s) lucky open_world.shared).1 ≡ (
      if is_ok (try_acquire two_two 20 open_world.shared).1
      then answer lucky
      else done (err (rejected circuit_breaker_rejected))))
    × ((call {T = ℕ} {E = ℕ} two_two 20 clock (λ s. s) panics open_world.shared).0
        ≡ refresh_open_state 20 open_world.shared)
call_answers_example = call_answers two_two 20 clock (λ s. s) lucky open_world.shared (omega arith)

abbrev plain_permit : CircuitBreakerPermit
plain_permit = record { generation = 4; kind = PermitKind.closed; completed = false }

abbrev one_failure : Shared
one_failure = record { generation = 4; mode = Mode.closed 1 }

abbrev left_closed : Shared
left_closed = record { generation = 5; mode = Mode.closed 2 }

overflow_stays_closed_example :
    (failure two_two last_clock plain_permit one_failure ≡ (left_closed, Exit.panicked))
    × (try_acquire two_two 2000 left_closed ≡ (
      left_closed,
      ok (record { generation = 5; kind = PermitKind.closed; completed = false }),
    ))
overflow_stays_closed_example =
    overflow_stays_closed two_two last_clock plain_permit one_failure 1 2000 refl refl refl refl
      (omega arith) (omega arith)

-- Two failures open the circuit; after the timeout a probe is admitted.
told :
    answers two_two 1000 (start 3) (failing_calls 2 ++ acquire ∷ wait 10 ∷ observe ∷ acquire ∷ [])
    ≡ admitted
      ∷ silent
      ∷ admitted
      ∷ silent
      ∷ turned_away
      ∷ silent
      ∷ seen CircuitState.half_open
      ∷ admitted
      ∷ []
unfolding answers run new Breaker.World.step success failure drop_permit
told = refl

run_refines_circuit_example :
    (answers two_two 1000 (start 3) busy, circuit_of (run two_two 1000 (start 3) busy))
    ≡ Circuit.run two_two (fresh 3) busy
run_refines_circuit_example =
    run_refines_circuit two_two 1000 3 busy two_two-IsConfig (omega arith) (omega arith)
