-- ===== src/Breaker/Refinement.antt =====
-- src/circuit_breaker.rs: a breaker with its permits behaves as the circuit that they stand for.
use svc_resillience_rs.Prelude.{
  ℕ, ◌+◌, ◌^◌, ◌≤◌, ◌<◌, ◌≡◌, refl, inl, inr, none, some, List, [], ◌∷◌, arith, ap, sym, ◌∙◌,
  All-get_elem?, All-erase_idx, get_elem?, erase_idx, length, Option-cases, count_by-erase_idx,
  map-erase_idx, get_elem?-map-some, get_elem?-map-none,
}
use svc_resillience_rs.Breaker.{
  CircuitBreakerConfig, CircuitBreakerPermit, Mode, Shared, Clock, new, refresh_open_state,
  state_of, try_acquire, success, failure, drop_permit,
}
use svc_resillience_rs.Breaker.World.{
  World, Event, observe, acquire, succeed, fail, abandon, wait, keep_permit, resolve, step, run,
  start, is_plain, is_probe,
}
use svc_resillience_rs.Breaker.Permits.{IsConfig, IsOut, Inv}
use svc_resillience_rs.Breaker.Invariant.{
  refresh-Inv, step-Inv, step_generation-le, waited, step_now, start-Inv,
}
use svc_resillience_rs.Breaker.Circuit as Circuit
use svc_resillience_rs.Breaker.Circuit.{Circuit, Answer, silent}
use svc_resillience_rs.Breaker.Abstraction.{
  phase_of, counts, circuit, circuit_of, admission, answer_of, answers, count_by-counts,
  counts_later,
}

state_of-phase_of : (m : Mode) → state_of m ≡ Circuit.seen_as (phase_of m)
unfolding state_of
state_of-phase_of (Mode.closed failures) = refl
state_of-phase_of (Mode.opened until) = refl
state_of-phase_of (Mode.half_open in_flight successes) = refl

module _ (c : CircuitBreakerConfig) (valid : IsConfig c) where
  refresh_refines :
      (now : ℕ) (s : Shared) (ps : List CircuitBreakerPermit)
      → s.generation + 1 < 2 ^ 64
      → Inv c s ps
      → circuit (refresh_open_state now s) now ps ≡ Circuit.refresh c (circuit s now ps)
  unfolding refresh_open_state Circuit.refresh
  refresh_refines now s ps l v =
      ground (arith, counts_later s.generation (s.generation + 1) ps (omega arith) v.out)

  acquire_refines :
      (now : ℕ) (s : Shared) (ps : List CircuitBreakerPermit)
      → s.generation + 1 < 2 ^ 64
      → Inv c s ps
      → (
        circuit (try_acquire c now s).0 now (keep_permit (try_acquire c now s).1 ps),
        admission (try_acquire c now s).1,
      )
        ≡ Circuit.admit c (Circuit.refresh c (circuit s now ps))
  unfolding try_acquire keep_permit Circuit.admit
  acquire_refines now s ps l v =
      let s' = refresh_open_state now s in
      rw (← refresh_refines now s ps l v)
        (ground (arith, refresh-Inv c valid now s ps l v, count_by-counts s'.generation ps))

  success_refines :
      (p : CircuitBreakerPermit) (i now : ℕ) (s : Shared) (ps : List CircuitBreakerPermit)
      → s.generation + 1 < 2 ^ 64
      → Inv c s ps
      → get_elem? ps i ≡ some p
      → circuit (success c p s) now (erase_idx ps i)
        ≡ Circuit.end c
            (Circuit.count_success c)
            i
            (circuit s now ps)
            (some (counts s.generation p))
  unfolding success Circuit.end Circuit.count_success
  success_refines p i now s ps l v e = ground (
    arith,
    valid.successes_u32,
    count_by-erase_idx (is_plain s.generation) ps i p e,
    count_by-erase_idx (is_probe s.generation) ps i p e,
    map-erase_idx (counts s.generation) ps i,
    All-get_elem? (IsOut s.generation) ps i p v.out e,
    counts_later s.generation (s.generation + 1) (erase_idx ps i) (omega arith)
        (All-erase_idx (IsOut s.generation) ps i v.out),
  )

  failure_refines :
      (clock : Clock) (p : CircuitBreakerPermit) (i : ℕ) (s : Shared)
      (ps : List CircuitBreakerPermit)
      → s.generation + 1 < 2 ^ 64
      → clock.now + c.open_timeout ≤ clock.limit
      → Inv c s ps
      → get_elem? ps i ≡ some p
      → circuit (failure c clock p s).0 clock.now (erase_idx ps i)
        ≡ Circuit.end c
            (Circuit.count_failure c)
            i
            (circuit s clock.now ps)
            (some (counts s.generation p))
  unfolding failure Circuit.end Circuit.count_failure
  failure_refines clock p i s ps l fits v e =
      let left = All-erase_idx (IsOut s.generation) ps i v.out in
      ground (
        arith,
        valid.failures_u32,
        count_by-erase_idx (is_plain s.generation) ps i p e,
        count_by-erase_idx (is_probe s.generation) ps i p e,
        map-erase_idx (counts s.generation) ps i,
        All-get_elem? (IsOut s.generation) ps i p v.out e,
        counts_later s.generation (s.generation + 1) (erase_idx ps i) (omega arith) left,
      )

  drop_refines :
      (p : CircuitBreakerPermit) (i now : ℕ) (s : Shared) (ps : List CircuitBreakerPermit)
      → Inv c s ps
      → get_elem? ps i ≡ some p
      → circuit (drop_permit p s) now (erase_idx ps i)
        ≡ Circuit.end c (λ k. k) i (circuit s now ps) (some (counts s.generation p))
  unfolding drop_permit Circuit.end
  drop_refines p i now s ps v e = ground (
    arith,
    map-erase_idx (counts s.generation) ps i,
    All-get_elem? (IsOut s.generation) ps i p v.out e,
  )

  no_permit :
      (count : Circuit → Circuit) (i : ℕ) (w : World)
      → get_elem? w.permits i ≡ none
      → Circuit.end c count i (circuit_of w) (get_elem? (circuit_of w).counting i) ≡ circuit_of w
  unfolding Circuit.end
  no_permit count i w e = rw (get_elem?-map-none (counts w.shared.generation) w.permits i e) refl

  this_permit :
      (count : Circuit → Circuit) (i : ℕ) (w : World) (p : CircuitBreakerPermit)
      → get_elem? w.permits i ≡ some p
      → Circuit.end c count i (circuit_of w) (get_elem? (circuit_of w).counting i)
        ≡ Circuit.end c count i (circuit_of w) (some (counts w.shared.generation p))
  this_permit count i w p e =
      ap (Circuit.end c count i (circuit_of w))
        (get_elem?-map-some (counts w.shared.generation) w.permits i p e)

  resolve_refines :
      (end : CircuitBreakerPermit → Shared → Shared) (count : Circuit → Circuit) (i : ℕ) (w : World)
      → ((p : CircuitBreakerPermit)
          → get_elem? w.permits i ≡ some p
          → circuit (end p w.shared) w.now (erase_idx w.permits i)
            ≡ Circuit.end c count i (circuit_of w) (some (counts w.shared.generation p)))
      → circuit_of (resolve end i w (get_elem? w.permits i))
        ≡ Circuit.end c count i (circuit_of w) (get_elem? (circuit_of w).counting i)
  unfolding resolve
  resolve_refines end count i w h = elim (Option-cases (get_elem? w.permits i)) [
    | inl e ↦ rw (e, resolve) (sym (no_permit count i w e))
    | inr (p, e) ↦ rw (e, resolve) (h p e ∙ sym (this_permit count i w p e))
  ]

  step_refines :
      (limit : ℕ) (w : World) (e : Event)
      → w.shared.generation + 1 < 2 ^ 64
      → w.now + c.open_timeout ≤ limit
      → Inv c w.shared w.permits
      → (circuit_of (step c limit w e), answer_of c w e) ≡ Circuit.step c (circuit_of w) e
  unfolding step Circuit.step
  step_refines limit w observe l fits v = rw (← refresh_refines w.now w.shared w.permits l v) (
      ap (λ a. (circuit (refresh_open_state w.now w.shared) w.now w.permits, Circuit.seen a))
        (state_of-phase_of (refresh_open_state w.now w.shared).mode))
  step_refines limit w acquire l fits v = acquire_refines w.now w.shared w.permits l v
  step_refines limit w (succeed i) l fits v =
      ap (λ k. (k, silent))
        (resolve_refines (success c) (Circuit.count_success c) i w
          (λ p e. success_refines p i w.now w.shared w.permits l v e))
  step_refines limit w (fail i) l fits v =
      ap (λ k. (k, silent))
        (resolve_refines (λ p s. (failure c (record { now = w.now; limit = limit }) p s).0)
          (Circuit.count_failure c) i w
          (λ p e.
            failure_refines (record { now = w.now; limit = limit }) p i w.shared w.permits l fits v
              e))
  step_refines limit w (abandon i) l fits v =
      ap (λ k. (k, silent))
        (resolve_refines drop_permit (λ k. k) i w
          (λ p e. drop_refines p i w.now w.shared w.permits v e))
  step_refines limit w (wait d) l fits v = refl

  run_refines_from :
      (limit : ℕ) (w : World) (es : List Event)
      → w.shared.generation + length es < 2 ^ 64
      → w.now + waited es + c.open_timeout ≤ limit
      → Inv c w.shared w.permits
      → (answers c limit w es, circuit_of (run c limit w es)) ≡ Circuit.run c (circuit_of w) es
  unfolding answers run Circuit.run
  run_refines_from limit w [] l fits v = refl
  run_refines_from limit w (e ∷ es) l fits v =
      let w' = step c limit w e in
      let fits_now : w.now + c.open_timeout ≤ limit = omega (arith, step_now c limit w e es) in
      let rest =
        run_refines_from limit w' es (omega (arith, step_generation-le c limit w e))
          (omega (arith, step_now c limit w e es))
          (step-Inv c valid limit w e (omega arith) fits_now v) in
      rw (← step_refines limit w e (omega arith) fits_now v, ← rest) refl

-- A fresh circuit.
abbrev pub fresh : ℕ → Circuit
fresh now = record { phase = Circuit.closed 0; now = now; counting = [] }

-- In every history of fewer than 2^64 calls on a fresh breaker of a valid configuration, whose
-- timeouts end within the range of `Instant`, every call is answered as the circuit without
-- generations answers it, in which each phase forgets the permits of the phases before; and at the
-- end the breaker's mode and the permits that still count are those of that circuit.
pub run_refines_circuit :
    (c : CircuitBreakerConfig) (limit now : ℕ) (es : List Event)
    → IsConfig c
    → length es < 2 ^ 64
    → now + waited es + c.open_timeout ≤ limit
    → (answers c limit (start now) es, circuit_of (run c limit (start now) es))
      ≡ Circuit.run c (fresh now) es
unfolding new
run_refines_circuit c limit now es valid l fits =
    run_refines_from c valid limit (start now) es (omega arith) fits (start-Inv c now valid)
