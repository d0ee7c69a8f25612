-- ===== src/Breaker/Modes.antt =====
-- src/circuit_breaker.rs: calls on a closed breaker and on an open one, and stale permits.
use svc_resillience_rs.Prelude.{
  ℕ, zero, suc, ◌+◌, ◌≤◌, ◌<◌, ◌≡◌, ◌≢◌, refl, false, ◌++◌, arith, ok, err, u32_max,
  wrapping_add_u64, dec_lt, lt→ltb, le→ltb_false, ap, if◌then◌else◌, ltb,
}
use svc_resillience_rs.Breaker.{
  CircuitBreakerConfig, CircuitBreakerPermit, Mode, PermitKind, Shared, Clock, returned,
  circuit_breaker_rejected, try_acquire, success, failure, drop_permit,
}
use svc_resillience_rs.Breaker.World.{
  World, acquire, succeed, fail, step, run, run-append, failing_calls, succeeding_calls, in_mode,
  next_mode,
}

module _ (c : CircuitBreakerConfig) (limit : ℕ) where
  -- One failing call on a closed breaker.
  closed_fail :
      (w : World) (f : ℕ)
      → w.shared.mode ≡ Mode.closed f
      → f + 1 < c.failure_threshold
      → c.failure_threshold ≤ u32_max
      → step c limit (step c limit w acquire) (fail 0) ≡ in_mode w (Mode.closed (f + 1))
  unfolding step
  closed_fail w f e l m = ground arith

  closed_fail_last :
      (w : World) (f : ℕ)
      → w.shared.mode ≡ Mode.closed f
      → f + 1 ≡ c.failure_threshold
      → c.failure_threshold ≤ u32_max
      → w.now + c.open_timeout ≤ limit
      → step c limit (step c limit w acquire) (fail 0)
        ≡ next_mode w (Mode.opened (w.now + c.open_timeout))
  unfolding step
  closed_fail_last w f e l m fits = ground arith

  -- Fewer failures than the threshold leave a closed breaker closed, and counted.
  failing_calls-below :
      (w : World) (f k : ℕ)
      → w.shared.mode ≡ Mode.closed f
      → f + k < c.failure_threshold
      → c.failure_threshold ≤ u32_max
      → run c limit w (failing_calls k) ≡ in_mode w (Mode.closed (f + k))
  unfolding run
  failing_calls-below w f zero e l m = ground arith
  failing_calls-below w f (suc k) e l m =
      rw (run, closed_fail w f e (omega arith) m)
        (ground (
          arith,
          failing_calls-below (in_mode w (Mode.closed (f + 1))) (f + 1) k refl (omega arith) m,
        ))

  -- The failure that reaches the threshold opens the breaker.
  failing_calls-at :
      (w : World) (f k : ℕ)
      → w.shared.mode ≡ Mode.closed f
      → f + suc k ≡ c.failure_threshold
      → c.failure_threshold ≤ u32_max
      → w.now + c.open_timeout ≤ limit
      → run c limit w (failing_calls (suc k)) ≡ next_mode w (Mode.opened (w.now + c.open_timeout))
  unfolding run
  failing_calls-at w f zero e l m fits = rw (run, closed_fail_last w f e (omega arith) m fits) refl
  failing_calls-at w f (suc k) e l m fits =
      rw (run, closed_fail w f e (omega arith) m)
        (ground (
          arith,
          failing_calls-at (in_mode w (Mode.closed (f + 1))) (f + 1) k refl (omega arith) m fits,
        ))

  failing_calls-from_zero :
      (w : World) (k : ℕ)
      → w.shared.mode ≡ Mode.closed 0
      → k < c.failure_threshold
      → c.failure_threshold ≤ u32_max
      → run c limit w (failing_calls k) ≡ in_mode w (Mode.closed k)
  failing_calls-from_zero w k e l m = ground (arith, failing_calls-below w 0 k e (omega arith) m)

  -- Up to `failure_threshold` consecutive failing calls on a closed breaker with no failure
  -- counted, for a positive threshold of 32 bits and a timeout that fits into the clock: below
  -- that number it stays closed at the same generation and counts them, and at exactly that number
  -- it is open, for `open_timeout` from then, at the next generation.
  pub opens_at_threshold :
      (w : World) (k : ℕ)
      → w.shared.mode ≡ Mode.closed 0
      → 0 < c.failure_threshold
      → c.failure_threshold ≤ u32_max
      → w.now + c.open_timeout ≤ limit
      → k ≤ c.failure_threshold
      → (run c limit w (failing_calls k)).shared ≡ (
          if ltb k c.failure_threshold
          then record { generation = w.shared.generation; mode = Mode.closed k }
          else record {
            generation = wrapping_add_u64 w.shared.generation 1;
            mode = Mode.opened (w.now + c.open_timeout);
          })
  opens_at_threshold w zero e p m fits le = ground (arith, failing_calls-from_zero w 0 e p m)
  opens_at_threshold w (suc k) e p m fits le = elim (dec_lt (suc k) c.failure_threshold) [
    | yes h ↦ rw (lt→ltb _ _ h) (ap (λ v. v.shared) (failing_calls-from_zero w (suc k) e h m))
    | no h ↦
        rw (le→ltb_false (suc k) c.failure_threshold (omega arith))
          (ap (λ v. v.shared) (failing_calls-at w 0 k e (omega arith) m fits))
  ]

  closed_succeed :
      (w : World) (f : ℕ)
      → w.shared.mode ≡ Mode.closed f
      → step c limit (step c limit w acquire) (succeed 0) ≡ in_mode w (Mode.closed 0)
  unfolding step
  closed_succeed w f e = ground arith

  -- A success in between starts the count again.
  pub success_resets_failures :
      (w : World) (j : ℕ)
      → w.shared.mode ≡ Mode.closed 0
      → j < c.failure_threshold
      → c.failure_threshold ≤ u32_max
      → (run c limit w (failing_calls j ++ succeeding_calls 1)).shared
        ≡ record { generation = w.shared.generation; mode = Mode.closed 0 }
  unfolding run
  success_resets_failures w j e l m =
      rw
        (
          run-append c limit w (failing_calls j) (succeeding_calls 1),
          failing_calls-from_zero w j e l m,
          run,
        )
        (ap (λ v. v.shared) (closed_succeed (in_mode w (Mode.closed j)) j refl))

  -- An open breaker refuses every call until its timeout has passed and stays as it is; from then on
  -- it lets one probe in, at the next generation.
  pub open_until_timeout :
      (now until : ℕ) (s : Shared)
      → s.mode ≡ Mode.opened until
      → 0 < c.half_open_success_threshold
      → try_acquire c now s ≡ (
          if ltb now until then (s, err circuit_breaker_rejected) else (
            record { generation = wrapping_add_u64 s.generation 1; mode = Mode.half_open 1 0 },
            ok (record {
              generation = wrapping_add_u64 s.generation 1;
              kind = PermitKind.half_open;
              completed = false;
            }),
          ))
  unfolding try_acquire
  open_until_timeout now until s e p = ground arith

  -- A permit of another generation than the breaker's changes nothing, however it ends.
  pub stale_permit :
      (clock : Clock) (p : CircuitBreakerPermit) (s : Shared)
      → p.generation ≢ s.generation
      → (success c p s ≡ s) × (failure c clock p s ≡ (s, returned)) × (drop_permit p s ≡ s)
  unfolding success failure drop_permit
  stale_permit clock p s h = ground arith
