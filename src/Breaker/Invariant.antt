-- ===== src/Breaker/Invariant.antt =====
-- src/circuit_breaker.rs: what holds between the breaker's state and the permits that are out, in
-- every history that is shorter than the generation counter.
use svc_resillience_rs.Prelude.{
  ℕ, ◌+◌, ◌^◌, ◌≤◌, ◌<◌, ◌≡◌, refl, inl, inr, some, List, [], ◌∷◌, arith, All-erase_idx,
  All-get_elem?, get_elem?, erase_idx, count_by, count_by-erase_idx, length, Option-cases,
}
use svc_resillience_rs.Breaker.{
  CircuitBreakerConfig, CircuitBreakerPermit, Mode, Shared, Clock, new, refresh_open_state,
  try_acquire, success, failure, drop_permit,
}
use svc_resillience_rs.Breaker.World.{
  World, Event, observe, acquire, succeed, fail, abandon, wait, keep_permit, resolve, step, run,
  start, is_probe, is_plain,
}
use svc_resillience_rs.Breaker.Permits.{IsConfig, ModeInv, IsOut, Inv, transition-Inv}

module _ (c : CircuitBreakerConfig) (valid : IsConfig c) where
  pub refresh-Inv :
      (now : ℕ) (s : Shared) (ps : List CircuitBreakerPermit)
      → s.generation + 1 < 2 ^ 64
      → Inv c s ps
      → Inv c (refresh_open_state now s) ps
  unfolding refresh_open_state
  refresh-Inv now s ps l v = ground (
    arith,
    valid.successes,
    transition-Inv c s.generation (s.generation + 1) (Mode.half_open 0 0) ps v.out refl l,
  )

  acquire-Inv :
      (now : ℕ) (s : Shared) (ps : List CircuitBreakerPermit)
      → s.generation + 1 < 2 ^ 64
      → Inv c s ps
      → Inv c (try_acquire c now s).0 (keep_permit (try_acquire c now s).1 ps)
  unfolding try_acquire keep_permit
  acquire-Inv now s ps l v = ground (arith, refresh-Inv now s ps l v)

  pub success-Inv :
      (p : CircuitBreakerPermit) (i : ℕ) (s : Shared) (ps : List CircuitBreakerPermit)
      → s.generation + 1 < 2 ^ 64
      → Inv c s ps
      → get_elem? ps i ≡ some p
      → Inv c (success c p s) (erase_idx ps i)
  unfolding success
  success-Inv p i s ps l v e = ground (
    arith,
    valid.failures,
    valid.successes_u32,
    count_by-erase_idx (is_plain s.generation) ps i p e,
    count_by-erase_idx (is_probe s.generation) ps i p e,
    All-erase_idx (IsOut s.generation) ps i v.out,
    transition-Inv c s.generation (s.generation + 1) (Mode.closed 0) (erase_idx ps i)
        (All-erase_idx (IsOut s.generation) ps i v.out) refl l,
  )

  pub failure-Inv :
      (clock : Clock) (p : CircuitBreakerPermit) (i : ℕ) (s : Shared)
      (ps : List CircuitBreakerPermit)
      → s.generation + 1 < 2 ^ 64
      → clock.now + c.open_timeout ≤ clock.limit
      → Inv c s ps
      → get_elem? ps i ≡ some p
      → Inv c (failure c clock p s).0 (erase_idx ps i)
  unfolding failure
  failure-Inv clock p i s ps l fits v e = ground (
    arith,
    valid.failures_u32,
    count_by-erase_idx (is_plain s.generation) ps i p e,
    count_by-erase_idx (is_probe s.generation) ps i p e,
    All-erase_idx (IsOut s.generation) ps i v.out,
    transition-Inv c s.generation (s.generation + 1) (Mode.opened (clock.now + c.open_timeout))
        (erase_idx ps i) (All-erase_idx (IsOut s.generation) ps i v.out) refl l,
  )

  drop-Inv :
      (p : CircuitBreakerPermit) (i : ℕ) (s : Shared) (ps : List CircuitBreakerPermit)
      → Inv c s ps
      → get_elem? ps i ≡ some p
      → Inv c (drop_permit p s) (erase_idx ps i)
  unfolding drop_permit
  drop-Inv p i s ps v e = ground (
    arith,
    count_by-erase_idx (is_plain s.generation) ps i p e,
    count_by-erase_idx (is_probe s.generation) ps i p e,
    All-get_elem? (IsOut s.generation) ps i p v.out e,
    All-erase_idx (IsOut s.generation) ps i v.out,
  )

  -- Every event keeps the invariant, while the generation has room and the timeout ends in time.
  pub step-Inv :
      (limit : ℕ) (w : World) (e : Event)
      → w.shared.generation + 1 < 2 ^ 64
      → w.now + c.open_timeout ≤ limit
      → Inv c w.shared w.permits
      → Inv c (step c limit w e).shared (step c limit w e).permits
  unfolding step
  step-Inv limit w observe l fits v = refresh-Inv w.now w.shared w.permits l v
  step-Inv limit w acquire l fits v = acquire-Inv w.now w.shared w.permits l v
  step-Inv limit w (succeed i) l fits v = elim (Option-cases (get_elem? w.permits i)) [
    | inl e ↦ rw (e, resolve) v
    | inr (p, e) ↦ rw (e, resolve) (success-Inv p i w.shared w.permits l v e)
  ]
  step-Inv limit w (fail i) l fits v = elim (Option-cases (get_elem? w.permits i)) [
    | inl e ↦ rw (e, resolve) v
    | inr (p, e) ↦ rw (e, resolve) (failure-Inv _ p i w.shared w.permits l fits v e)
  ]
  step-Inv limit w (abandon i) l fits v = elim (Option-cases (get_elem? w.permits i)) [
    | inl e ↦ rw (e, resolve) v
    | inr (p, e) ↦ rw (e, resolve) (drop-Inv p i w.shared w.permits v e)
  ]
  step-Inv limit w (wait d) l fits v = v

-- A call moves the generation by at most one.
pub step_generation-le :
    (c : CircuitBreakerConfig) (limit : ℕ) (w : World) (e : Event)
    → (step c limit w e).shared.generation ≤ w.shared.generation + 1
unfolding step
step_generation-le c limit w observe = ground arith
step_generation-le c limit w acquire = ground arith
step_generation-le c limit w (succeed i) = ground arith
step_generation-le c limit w (fail i) = ground arith
step_generation-le c limit w (abandon i) = ground arith
step_generation-le c limit w (wait d) = ground arith

abbrev pub waited : List Event → ℕ
waited [] = 0
waited (wait d ∷ es) = d + waited es
waited (e ∷ es) = waited es

pub step_now :
    (c : CircuitBreakerConfig) (limit : ℕ) (w : World) (e : Event) (es : List Event)
    → (step c limit w e).now + waited es ≡ w.now + waited (e ∷ es)
unfolding step
step_now c limit w (wait d) es = omega arith
step_now c limit w observe es = refl
step_now c limit w acquire es = refl
step_now c limit w (succeed i) es = ground arith
step_now c limit w (fail i) es = ground arith
step_now c limit w (abandon i) es = ground arith

run-Inv :
    (c : CircuitBreakerConfig)
    → IsConfig c
    → (limit : ℕ) (w : World) (es : List Event) → w.shared.generation + length es < 2 ^ 64
    → w.now + waited es + c.open_timeout ≤ limit
    → Inv c w.shared w.permits
    → Inv c (run c limit w es).shared (run c limit w es).permits
unfolding run
run-Inv c valid limit w [] l fits v = v
run-Inv c valid limit w (e ∷ es) l fits v =
    run-Inv c valid limit (step c limit w e) es (omega (arith, step_generation-le c limit w e))
      (omega (arith, step_now c limit w e es))
      (step-Inv c valid limit w e (omega arith) (omega (arith, step_now c limit w e es)) v)

pub start-Inv : (c : CircuitBreakerConfig) (now : ℕ) → IsConfig c → Inv c (start now).shared []
unfolding new
start-Inv c now valid = record {
  counts = (valid.failures, refl);
  out = tt;
  generation = omega arith;
}

-- In every history of fewer than 2^64 calls on a fresh breaker of a valid configuration, whose
-- timeouts end within the range of `Instant`: while closed the failures are below the threshold and
-- no probe of the generation is out; while open no permit of the generation is out; while half-open
-- `in_flight` is exactly the number of unfinished probes of the generation, at most
-- `half_open_success_threshold`, the successes are below it, and no other permit of it is out.
pub run-start-ModeInv :
    (c : CircuitBreakerConfig) (limit now : ℕ) (es : List Event)
    → IsConfig c
    → length es < 2 ^ 64
    → now + waited es + c.open_timeout ≤ limit
    → let w = run c limit (start now) es in
      ModeInv c w.shared.mode
        (count_by (is_plain w.shared.generation) w.permits)
        (count_by (is_probe w.shared.generation) w.permits)
run-start-ModeInv c limit now es valid l fits =
    (run-Inv c valid limit (start now) es (generation_bound l) fits (start-Inv c now valid)).counts
  where
    generation_bound : length es < 2 ^ 64 → (start now).shared.generation + length es < 2 ^ 64
    generation_bound h = unfold new in omega arith
