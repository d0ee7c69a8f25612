-- ===== src/Breaker/Call.antt =====
-- src/circuit_breaker.rs: `CircuitBreaker::call`, and how its caller's operation ends.
use svc_resillience_rs.Prelude.{
  ℕ, ◌+◌, ◌≤◌, ◌≡◌, refl, inl, inr, arith, if◌then◌else◌, Result, ok, err, is_ok, Exec, done,
  Result-cases,
}
use svc_resillience_rs.Breaker.{
  CircuitBreakerConfig, circuit_breaker_rejected, CircuitBreakerCallError, rejected, inner, Shared,
  Clock, returned, panicked, refresh_open_state, CircuitBreakerPermit, try_acquire, success,
  failure, drop_permit,
}

-- How the caller's operation ends.
pub data Operation {ℓ κ} (T : Type ℓ) (E : Type κ) : Type (ℓ ⊔ κ) where
  succeeds : T → Operation T E
  fails : E → Operation T E
  panics : Operation T E

-- The end of `CircuitBreaker::call`, with the permit in hand.
unfoldable pub complete {ℓ κ} :
    {T : Type ℓ} {E : Type κ}
    → CircuitBreakerConfig
    → Clock
    → CircuitBreakerPermit
    → Shared
    → Operation T E
    → Shared × Exec (Result T (CircuitBreakerCallError E))
unfolding success failure drop_permit
complete c clock p s (succeeds v) = (success c p s, done (ok v))
complete c clock p s (fails e) =
    let (s', exit) = failure c clock p s in
    (s', elim exit [ returned ↦ done (err (inner e)) | panicked ↦ Exec.panicked ])
complete c clock p s panics = (drop_permit p s, Exec.panicked)

-- `CircuitBreaker::call`. While the operation runs other callers may change the state: `during` is
-- what they make of it, and `clock` the reading after the operation.
unfoldable pub call {ℓ κ} :
    {T : Type ℓ} {E : Type κ}
    → CircuitBreakerConfig
    → ℕ
    → Clock
    → (Shared → Shared)
    → Operation T E
    → Shared
    → Shared × Exec (Result T (CircuitBreakerCallError E))
unfolding try_acquire complete
call c now clock during operation s =
    let (s', admission) = try_acquire c now s in
    elim admission [
      | err e ↦ (s', done (err (rejected e)))
      | ok p ↦ complete c clock p (during s') operation
    ]

-- What the caller of an admitted operation gets.
unfoldable pub answer {ℓ κ} :
    {T : Type ℓ} {E : Type κ} → Operation T E → Exec (Result T (CircuitBreakerCallError E))
answer (succeeds v) = done (ok v)
answer (fails e) = done (err (inner e))
answer panics = Exec.panicked

complete_answers :
    {T E : Type 0} (c : CircuitBreakerConfig) (clock : Clock) (p : CircuitBreakerPermit)
    (s : Shared) (operation : Operation T E)
    → clock.now + c.open_timeout ≤ clock.limit
    → (complete c clock p s operation).1 ≡ answer operation
unfolding complete answer
complete_answers c clock p s (succeeds v) h = refl
complete_answers c clock p s (fails e) h = unfold failure in ground arith
complete_answers c clock p s panics h = refl

admitted_answers :
    {T E : Type 0} (c : CircuitBreakerConfig) (now : ℕ) (clock : Clock) (during : Shared → Shared)
    (operation : Operation T E) (s : Shared)
    → clock.now + c.open_timeout ≤ clock.limit
    → (call c now clock during operation s).1 ≡ (
        if is_ok (try_acquire c now s).1
        then answer operation
        else done (err (rejected circuit_breaker_rejected)))
unfolding call
admitted_answers c now clock during operation s h = elim (Result-cases (try_acquire c now s).1) [
  | inl (p, e) ↦
      rw (e, call) (complete_answers c clock p (during (try_acquire c now s).0) operation h)
  | inr (circuit_breaker_rejected, e) ↦ rw (e, call) refl
]

panic_restores :
    (T E : Type 0) (c : CircuitBreakerConfig) (now : ℕ) (clock : Clock) (s : Shared)
    → (call {T = T} {E = E} c now clock (λ x. x) panics s).0 ≡ refresh_open_state now s
unfolding call complete try_acquire drop_permit
panic_restores T E c now clock s = ground arith

-- A call gives its caller the operation's value, the operation's error as `Inner`, or its panic, if
-- the breaker admits it, and otherwise `Rejected` without running it, whatever other callers do
-- meanwhile, while the timeout fits into the clock. An operation that panics with nothing else going
-- on leaves the breaker as the refresh at the start found it: a probe's slot is given back.
pub call_answers :
    {T E : Type 0} (c : CircuitBreakerConfig) (now : ℕ) (clock : Clock) (during : Shared → Shared)
    (operation : Operation T E) (s : Shared)
    → clock.now + c.open_timeout ≤ clock.limit
    → ((call c now clock during operation s).1 ≡ (
        if is_ok (try_acquire c now s).1
        then answer operation
        else done (err (rejected circuit_breaker_rejected))))
      × ((call {T = T} {E = E} c now clock (λ x. x) panics s).0 ≡ refresh_open_state now s)
call_answers c now clock during operation s h =
    (admitted_answers c now clock during operation s h, panic_restores _ _ c now clock s)
