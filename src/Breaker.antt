-- ===== src/Breaker.antt =====
-- src/circuit_breaker.rs: the circuit breaker's configuration, its state behind the mutex, and the
-- calls on it. A call takes the state that its lock guards and returns the state that it leaves,
-- so an interleaving of callers is a sequence of such calls. A clock reading is an argument.
pub mod Display
pub mod World
pub mod Permits
pub mod Invariant
pub mod Modes
pub mod Recovery
pub mod Overflow
pub mod Circuit
pub mod Abstraction
pub mod Refinement
pub mod Call
use svc_resillience_rs.Prelude.{
  ℕ, ◌+◌, ◌-◌, ◌≡◌, Bool, true, false, Option, none, some, leb, ◌==◌, if◌then◌else◌, Result, ok,
  err, Duration, saturating_add_u32, wrapping_add_u64, Exec, done,
}

pub data CircuitState : Type 0 where
  closed opened half_open : CircuitState

pub data CircuitBreakerConfigError : Type 0 where
  zero_failure_threshold zero_open_timeout zero_half_open_success_threshold :
      CircuitBreakerConfigError

pub record CircuitBreakerConfig : Type 0 where
  pub failure_threshold : ℕ
  pub open_timeout : Duration
  pub half_open_success_threshold : ℕ

unfoldable pub config_new : ℕ → Duration → ℕ → Result CircuitBreakerConfig CircuitBreakerConfigError
config_new failure_threshold open_timeout half_open_success_threshold =
    if failure_threshold == 0
    then err zero_failure_threshold
    else if open_timeout == 0
    then err zero_open_timeout
    else if half_open_success_threshold == 0
    then err zero_half_open_success_threshold
    else ok (record {
      failure_threshold = failure_threshold;
      open_timeout = open_timeout;
      half_open_success_threshold = half_open_success_threshold;
    })

pub data CircuitBreakerRejected : Type 0 where
  circuit_breaker_rejected : CircuitBreakerRejected

pub data CircuitBreakerCallError {ℓ} (E : Type ℓ) : Type ℓ where
  rejected : CircuitBreakerRejected → CircuitBreakerCallError E
  inner : E → CircuitBreakerCallError E

pub data PermitKind : Type 0 where
  closed half_open : PermitKind

pub data Mode : Type 0 where
  closed : (consecutive_failures : ℕ) → Mode
  opened : (until : ℕ) → Mode
  half_open : (in_flight successes : ℕ) → Mode

pub record Shared : Type 0 where
  pub generation : ℕ
  pub mode : Mode

-- A reading of `Instant::now`, with the largest instant that the platform can represent.
pub record Clock : Type 0 where
  pub now : ℕ
  pub limit : ℕ

-- How a call ended. A panic leaves the state as it stood then, since every later `lock` takes the
-- value out of the poisoned mutex.
pub data Exit : Type 0 where
  returned panicked : Exit

unfoldable pub transition_closed : Shared → Shared
transition_closed s = record { generation = wrapping_add_u64 s.generation 1; mode = Mode.closed 0 }

-- The generation moves first; the sum of the instant and the timeout panics beyond the limit.
unfoldable pub transition_open : Duration → Clock → Shared → Shared × Exit
transition_open timeout clock s =
    let moved : Shared = record s { generation = wrapping_add_u64 s.generation 1 } in
    if leb (clock.now + timeout) clock.limit
    then (record moved { mode = Mode.opened (clock.now + timeout) }, returned)
    else (moved, panicked)

unfoldable pub transition_half_open : Shared → Shared
transition_half_open s = record {
  generation = wrapping_add_u64 s.generation 1;
  mode = Mode.half_open 0 0;
}

-- `CircuitBreaker::new`.
unfoldable pub new : Shared
new = record { generation = 0; mode = Mode.closed 0 }

unfoldable pub should_half_open : ℕ → Mode → Bool
should_half_open now (Mode.opened until) = leb until now
should_half_open now _ = false

unfoldable pub refresh_open_state : ℕ → Shared → Shared
unfolding should_half_open transition_half_open
refresh_open_state now s = if should_half_open now s.mode then transition_half_open s else s

unfoldable pub state_of : Mode → CircuitState
state_of (Mode.closed _) = CircuitState.closed
state_of (Mode.opened _) = CircuitState.opened
state_of (Mode.half_open _ _) = CircuitState.half_open

unfoldable pub state : ℕ → Shared → Shared × CircuitState
unfolding refresh_open_state state_of
state now s = let s' = refresh_open_state now s in (s', state_of s'.mode)

pub record CircuitBreakerPermit : Type 0 where
  pub generation : ℕ
  pub kind : PermitKind
  pub completed : Bool

-- The match of `try_acquire` on the mode: the mode that it leaves and the permit's kind.
unfoldable pub admit : ℕ → Mode → Result (Mode × PermitKind) CircuitBreakerRejected
admit threshold (Mode.closed failures) = ok (Mode.closed failures, PermitKind.closed)
admit threshold (Mode.opened until) = err circuit_breaker_rejected
admit threshold (Mode.half_open in_flight successes) =
    if leb threshold in_flight
    then err circuit_breaker_rejected
    else ok (Mode.half_open (in_flight + 1) successes, PermitKind.half_open)

unfoldable pub try_acquire :
    CircuitBreakerConfig → ℕ → Shared → Shared × Result CircuitBreakerPermit CircuitBreakerRejected
unfolding refresh_open_state admit
try_acquire c now s =
    let s' = refresh_open_state now s in
    elim (admit c.half_open_success_threshold s'.mode) [
      | err e ↦ (s', err e)
      | ok (mode, kind) ↦ (
        record s' { mode = mode },
        ok (record { generation = s'.generation; kind = kind; completed = false }),
      )
    ]

-- The match of `record_success`: the mode that it leaves, and `should_close`.
unfoldable pub count_success : CircuitBreakerConfig → Mode → PermitKind → Mode × Bool
count_success c (Mode.closed failures) PermitKind.closed = (Mode.closed 0, false)
count_success c (Mode.half_open in_flight successes) PermitKind.half_open =
    let successes' = saturating_add_u32 successes 1 in
    (Mode.half_open (in_flight - 1) successes', leb c.half_open_success_threshold successes')
count_success c mode _ = (mode, false)

unfoldable pub record_success : CircuitBreakerConfig → ℕ → PermitKind → Shared → Shared
unfolding count_success transition_closed
record_success c generation kind s =
    if s.generation == generation
    then (let (mode, should_close) = count_success c s.mode kind in
        let counted : Shared = record s { mode = mode } in
        if should_close then transition_closed counted else counted)
    else s

-- The match of `record_failure`: the mode that it leaves, and `should_open`.
unfoldable pub count_failure : CircuitBreakerConfig → Mode → PermitKind → Mode × Bool
count_failure c (Mode.closed failures) PermitKind.closed =
    let failures' = saturating_add_u32 failures 1 in
    (Mode.closed failures', leb c.failure_threshold failures')
count_failure c (Mode.half_open in_flight successes) PermitKind.half_open =
    (Mode.half_open (in_flight - 1) successes, true)
count_failure c mode _ = (mode, false)

unfoldable pub record_failure :
    CircuitBreakerConfig → Clock → ℕ → PermitKind → Shared → Shared × Exit
unfolding count_failure transition_open
record_failure c clock generation kind s =
    if s.generation == generation
    then (let (mode, should_open) = count_failure c s.mode kind in
        let counted : Shared = record s { mode = mode } in
        if should_open then transition_open c.open_timeout clock counted else (counted, returned))
    else (s, returned)

-- The slot of an unfinished probe is given back.
unfoldable pub release_probe : Mode → Mode
release_probe (Mode.half_open in_flight successes) = Mode.half_open (in_flight - 1) successes
release_probe mode = mode

unfoldable pub abandon : ℕ → PermitKind → Shared → Shared
unfolding release_probe
abandon generation PermitKind.closed s = s
abandon generation PermitKind.half_open s =
    if s.generation == generation then record s { mode = release_probe s.mode } else s

-- `Drop for CircuitBreakerPermit`.
unfoldable pub drop_permit : CircuitBreakerPermit → Shared → Shared
unfolding abandon
drop_permit p s = if p.completed then s else abandon p.generation p.kind s

-- `CircuitBreakerPermit::success`: the permit is completed before it is dropped.
unfoldable pub success : CircuitBreakerConfig → CircuitBreakerPermit → Shared → Shared
unfolding record_success drop_permit
success c p s = drop_permit (record p { completed = true }) (record_success c p.generation p.kind s)

-- What dropping the permit does once `record_failure` has ended: after a panic `completed` is unset.
unfoldable pub drop_after_failure : CircuitBreakerPermit → Shared × Exit → Shared × Exit
unfolding drop_permit
drop_after_failure p (s, returned) = (drop_permit (record p { completed = true }) s, returned)
drop_after_failure p (s, panicked) = (drop_permit p s, panicked)

-- `CircuitBreakerPermit::failure`.
unfoldable pub failure :
    CircuitBreakerConfig → Clock → CircuitBreakerPermit → Shared → Shared × Exit
unfolding record_failure drop_after_failure
failure c clock p s = drop_after_failure p (record_failure c clock p.generation p.kind s)
