-- ===== src/Breaker/Recovery.antt =====
-- src/circuit_breaker.rs: the half-open phase, from the end of the timeout to the next mode.
use svc_resillience_rs.Prelude.{
  ℕ, zero, suc, ◌+◌, ◌-◌, ◌≤◌, ◌<◌, ◌≡◌, refl, false, List, [], ◌∷◌, arith, ap, ◌∙◌, u32_max,
  wrapping_add_u64, min,
}
use svc_resillience_rs.Breaker.{
  CircuitBreakerConfig, CircuitBreakerPermit, Mode, PermitKind, Shared, Clock, returned, failure,
  drop_permit,
}
use svc_resillience_rs.Breaker.World.{
  World, Event, acquire, succeed, step, run, succeeding_calls, in_mode, next_mode,
}

abbrev pub acquires : ℕ → List Event
acquires zero = []
acquires (suc n) = acquire ∷ acquires n

module _ (c : CircuitBreakerConfig) (limit : ℕ) where
  probe_succeed :
      (w : World) (k : ℕ)
      → w.shared.mode ≡ Mode.half_open 0 k
      → k + 1 < c.half_open_success_threshold
      → c.half_open_success_threshold ≤ u32_max
      → step c limit (step c limit w acquire) (succeed 0) ≡ in_mode w (Mode.half_open 0 (k + 1))
  unfolding step
  probe_succeed w k e l m = ground arith

  probe_succeed_last :
      (w : World) (k : ℕ)
      → w.shared.mode ≡ Mode.half_open 0 k
      → k + 1 ≡ c.half_open_success_threshold
      → c.half_open_success_threshold ≤ u32_max
      → step c limit (step c limit w acquire) (succeed 0) ≡ next_mode w (Mode.closed 0)
  unfolding step
  probe_succeed_last w k e l m = ground arith

  probes_succeed :
      (w : World) (k n : ℕ)
      → w.shared.mode ≡ Mode.half_open 0 k
      → k + suc n ≡ c.half_open_success_threshold
      → c.half_open_success_threshold ≤ u32_max
      → run c limit w (succeeding_calls (suc n)) ≡ next_mode w (Mode.closed 0)
  unfolding run
  probes_succeed w k zero e l m = rw (run, probe_succeed_last w k e (omega arith) m) refl
  probes_succeed w k (suc n) e l m =
      rw (run, probe_succeed w k e (omega arith) m)
        (probes_succeed (in_mode w (Mode.half_open 0 (k + 1))) (k + 1) n refl (omega arith) m)

  -- The first call after the timeout starts the half-open phase.
  timeout_over :
      (w : World) (until : ℕ)
      → w.shared.mode ≡ Mode.opened until
      → until ≤ w.now
      → step c limit w acquire ≡ step c limit (next_mode w (Mode.half_open 0 0)) acquire
  unfolding step
  timeout_over w until e l = ground arith

  -- Once the timeout of an open breaker has passed, `half_open_success_threshold` calls that
  -- succeed one after the other, a positive number of 32 bits, close it, two generations later,
  -- with no failure counted.
  pub recovers :
      (w : World) (until n : ℕ)
      → w.shared.mode ≡ Mode.opened until
      → until ≤ w.now
      → suc n ≡ c.half_open_success_threshold
      → c.half_open_success_threshold ≤ u32_max
      → (run c limit w (succeeding_calls (suc n))).shared ≡ record {
        generation = wrapping_add_u64 (wrapping_add_u64 w.shared.generation 1) 1;
        mode = Mode.closed 0;
      }
  unfolding run
  recovers w until n e l h m =
      ap (λ v. (run c limit (step c limit v (succeed 0)) (succeeding_calls n)).shared)
        (timeout_over w until e l)
      ∙ ap (λ v. v.shared)
          (probes_succeed (next_mode w (Mode.half_open 0 0)) 0 n refl (omega arith) m)

  -- An unfinished probe of the half-open breaker's generation that fails, with a timeout that fits
  -- into the clock, opens the breaker at once, whatever other probes did, for `open_timeout` from
  -- then and at the next generation; one that is dropped gives its slot back and changes nothing
  -- else.
  pub probe_ends :
      (clock : Clock) (p : CircuitBreakerPermit) (s : Shared) (i k : ℕ)
      → s.mode ≡ Mode.half_open i k
      → p.generation ≡ s.generation
      → p.kind ≡ PermitKind.half_open
      → p.completed ≡ false
      → clock.now + c.open_timeout ≤ clock.limit
      → (failure c clock p s ≡ (
        record {
          generation = wrapping_add_u64 s.generation 1;
          mode = Mode.opened (clock.now + c.open_timeout);
        },
        returned,
      ))
        × (drop_permit p s ≡ record s { mode = Mode.half_open (i - 1) k })
  unfolding failure drop_permit
  probe_ends clock p s i k e g d f fits = ground arith

  acquire_probe :
      (w : World) (i k : ℕ)
      → w.shared.mode ≡ Mode.half_open i k
      → i ≤ c.half_open_success_threshold
      → (step c limit w acquire).shared ≡ record {
        generation = w.shared.generation;
        mode = Mode.half_open (min (i + 1) c.half_open_success_threshold) k;
      }
  unfolding step
  acquire_probe w i k e l = ground arith

  -- Of any number of callers that arrive in the half-open phase and do not finish, as many as there
  -- are free slots are admitted, and the breaker stays half-open at the same generation.
  pub probes_admitted :
      (w : World) (n i k : ℕ)
      → w.shared.mode ≡ Mode.half_open i k
      → i ≤ c.half_open_success_threshold
      → (run c limit w (acquires n)).shared ≡ record {
        generation = w.shared.generation;
        mode = Mode.half_open (min (i + n) c.half_open_success_threshold) k;
      }
  unfolding run
  probes_admitted w zero i k e l = ground arith
  probes_admitted w (suc n) i k e l = ground (
    arith,
    acquire_probe w i k e l,
    probes_admitted (step c limit w acquire) n (min (i + 1) c.half_open_success_threshold) k
        (ap (λ s. s.mode) (acquire_probe w i k e l)) (omega arith),
  )
