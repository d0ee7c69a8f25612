-- ===== src/Breaker/Overflow.antt =====
-- src/circuit_breaker.rs: `transition_open` adds the timeout to the present instant, a sum that
-- panics beyond the platform's range, after it has moved the generation.
use svc_resillience_rs.Prelude.{
  ℕ, ◌+◌, ◌-◌, ◌^◌, ◌≤◌, ◌<◌, ◌≡◌, false, arith, ok, u32_max, wrapping_add_u64,
}
use svc_resillience_rs.Breaker.{
  CircuitBreakerConfig, CircuitBreakerPermit, Mode, PermitKind, Shared, Clock, panicked,
  try_acquire, failure, drop_permit,
}

module _ (c : CircuitBreakerConfig) (clock : Clock) (p : CircuitBreakerPermit) (s : Shared) where
  -- On a closed breaker, if the instant at which the timeout would end is out of range, the
  -- failure of a call of its generation that reaches the threshold, of 32 bits, panics and the
  -- breaker is not opened: it stays closed, one generation on, and admits every later call.
  pub overflow_stays_closed :
      (failures later : ℕ)
      → s.mode ≡ Mode.closed failures
      → p.generation ≡ s.generation
      → p.kind ≡ PermitKind.closed
      → failures + 1 ≡ c.failure_threshold
      → c.failure_threshold ≤ u32_max
      → clock.limit < clock.now + c.open_timeout
      → let left : Shared = record {
        generation = wrapping_add_u64 s.generation 1;
        mode = Mode.closed c.failure_threshold;
      } in
        (failure c clock p s ≡ (left, panicked))
        × (try_acquire c later left ≡ (
          left,
          ok (record { generation = left.generation; kind = PermitKind.closed; completed = false }),
        ))
  unfolding failure try_acquire
  overflow_stays_closed failures later e g k l m over = ground arith

  -- If it is out of range when a probe fails, the failure panics, the breaker stays half-open one
  -- generation on, and the slots of the other probes that are out are never given back: dropping a
  -- permit of the old generation leaves the state as it is.
  pub overflow_leaks_probes :
      (i k : ℕ) (q : CircuitBreakerPermit)
      → s.mode ≡ Mode.half_open i k
      → s.generation + 1 ≤ 2 ^ 64 - 1
      → p.generation ≡ s.generation
      → p.kind ≡ PermitKind.half_open
      → p.completed ≡ false
      → q.generation ≡ s.generation
      → clock.limit < clock.now + c.open_timeout
      → let left : Shared = record {
        generation = s.generation + 1;
        mode = Mode.half_open (i - 1) k;
      } in
        (failure c clock p s ≡ (left, panicked)) × (drop_permit q left ≡ left)
  unfolding failure drop_permit
  overflow_leaks_probes i k q e small g d f h over = ground arith
