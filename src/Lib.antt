-- ===== src/Lib.antt =====
-- softwheel-resilience: the resilience primitives of one crate, modelled by their source under src/.
-- They compose as follows. A routing table (Routing) is the immutable snapshot that requests are
-- planned from. An eligibility decision (Eligibility) names the routes of one snapshot that may be
-- used; the planner (Shadow) draws a primary and a shadow route from it, and a failover policy
-- (Failover) moves one request from route to route. Around each attempt stand the circuit breaker
-- (Breaker), the bulkhead (Bulkhead), the retry policy and loop (Retry), the retry budget
-- (RetryBudget) and the time budget of the request (Deadline); shadow traffic has its own limits
-- (ShadowPolicy) and outcomes (ShadowOutcome). What happens is told to an observer (Observability),
-- which the adapters turn into metrics (Metrics) and trace events (Tracing).
--
-- Files:
--  * Prelude, Prelude/Tests, Lists, Words, Results: Boolean tests, lists over native numbers,
--    machine words and durations, `Result`, and calls that may panic (`Exec`).
--  * Breaker (src/circuit_breaker.rs): configuration, modes, and every call as a function from the
--    state under the mutex to the state that it leaves. Breaker/Display: the error texts.
--    Breaker/Call: whole calls. Breaker/World: histories of interleaved callers. Breaker/Permits,
--    Invariant, Modes, Recovery, Overflow: the proofs. Breaker/Circuit: the circuit without
--    generations that the breaker stands for. Breaker/Abstraction, Refinement: how, and the proof.
--  * Bulkhead (src/bulkhead.rs): the counter, the reservation loop, permits and calls.
--    Bulkhead/World: threads interleaved at every atomic operation. Bulkhead/Semaphore: the atomic
--    semaphore that it stands for. Bulkhead/History: when calls take effect and when they return.
--    Bulkhead/Admission, Refinement: proofs.
--  * Route (src/routing.rs): identifiers, routes, errors, and sets of identifiers (a `HashSet` is a
--    list without duplicates). Routing (src/routing.rs): the table, selection and the store.
--    Weighted, Weighted/Filtered: the walk of a draw down weighted routes, for all that select.
--  * Eligibility (src/eligibility.rs), Failover (src/failover.rs), Shadow (src/shadow.rs),
--    ShadowPolicy (src/shadow_policy.rs), ShadowOutcome (src/shadow_outcome.rs).
--    ShadowPolicy/Runs: an executor that retries a shadow request while the policy grants it.
--    Failover/Exhaustion: a request that fails on every route. Failover/Bounds, Sequence, Start:
--    proofs. Routing/Snapshots, Eligibility/Snapshots: what one store hands out to any
--    readers and writers, and decisions made from it.
--  * Retry (src/retry.rs), RetryBudget and RetryBudget/Namespace (src/retry_budget.rs), Deadline
--    (src/deadline.rs).
--  * Registry (src/resource_registry.rs): the resources of each route. An `Arc` is an address, and
--    may be shared: what the breakers, bulkheads and budgets of the sets hold lies in one memory.
--    Registry/Refinement: the directory that it stands for. Registry/Layout, Arranged, Laws,
--    Isolation, Retirement: proofs.
--  * Tokio (src/tokio_runtime.rs): the timeouts and sleeps of the Tokio adapter.
--  * Tower (src/tower_adapter.rs): the retry loop of the Tower service, over a downstream service.
--    Tower/Service: the layer, readiness, and calls. Tower/Waits: every wait written
--    down. Tower/Stops, Loop, Kept, Bounds, Unlimited, Readiness: proofs.
--  * Observability (src/observability.rs): events, labels and observers. Metrics
--    (src/metrics_adapter.rs) and Tracing (src/tracing_adapter.rs): what the two observers make of an
--    event. Tracing/Reader: a subscriber that reads an event back. Tracing/Schema: what each field
--    holds. Observability/Labels, Metrics/Kinds, Totals, Vocabulary, Series, Tracing/RoundTrip: proofs.
--  * Tests and its children: runs on concrete inputs.
--
-- Conventions. `u32`, `u64` and `usize` (64 bits) are native numbers with the saturating, checked or
-- wrapping operation of the source written out; `Duration` is a number of nanoseconds with its
-- largest value; `NonZero` arguments are numbers that the theorems assume positive. What the standard
-- library or a caller supplies is an argument: clock readings, the draws of `fastrand` (a function
-- from the end of the range to a number), the operation, the classifier, the health predicate. A
-- panic is a value. A call that holds a lock is one step; where the code releases the lock, other
-- callers' changes are an argument or other steps of a history.
--
-- Fuel. `retry_loop` and `service_loop` take fuel and give `none` without it; `retry_sync` and
-- `service_call` give as much as `max_attempts`: each round is one attempt, and no round
-- asks for another after the last attempt allowed. `ready_for` takes the number of polls that it may
-- make, and `keep_failing`, a request whose every route fails, the number of failures: as many as the
-- route budget are enough. All other loops are structural.
--
-- Not modelled: memory orderings of the atomics; the tasks and wakers of the runtime, so that waiting
-- for readiness is polling again; the request that a Tower factory makes, which is part of the
-- downstream call; what the recorders and subscribers of the metrics and tracing crates do with what
-- they get; accessors that only read one field, which are the fields of the records.
pub mod Prelude
pub mod Breaker
pub mod Observability
pub mod Metrics
pub mod Tracing
pub mod Bulkhead
pub mod Route
pub mod Weighted
pub mod Routing
pub mod Eligibility
pub mod Failover
pub mod Retry
pub mod RetryBudget
pub mod Deadline
pub mod Shadow
pub mod ShadowPolicy
pub mod ShadowOutcome
pub mod Registry
pub mod Tokio
pub mod Tower
pub mod Tests
