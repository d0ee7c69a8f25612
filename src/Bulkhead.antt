-- ===== src/Bulkhead.antt =====
-- src/bulkhead.rs: the concurrency bulkhead. Its counter is an atomic word: each load,
-- compare-exchange and subtraction is one step, and callers interleave between steps.
pub mod World
pub mod Admission
pub mod Semaphore
pub mod History
pub mod Refinement
use svc_resillience_rs.Prelude.{
  ℕ, zero, suc, ◌+◌, ◌-◌, ◌%◌, ◌^◌, Bool, true, false, Option, none, some, List, [], ◌∷◌, String,
  leb, if◌then◌else◌, Result, ok, err, Exec, done, map_err,
}

pub data BulkheadRejected : Type 0 where
  bulkhead_rejected : BulkheadRejected

pub data BulkheadCallError {ℓ} (E : Type ℓ) : Type ℓ where
  rejected : BulkheadRejected → BulkheadCallError E
  inner : E → BulkheadCallError E

unfoldable pub display_rejected : BulkheadRejected → String
display_rejected bulkhead_rejected = "bulkhead rejected the call"

unfoldable pub display_call_error {ℓ} : {E : Type ℓ} → (E → String) → BulkheadCallError E → String
display_call_error display (rejected error) = display_rejected error
display_call_error display (inner error) = display error

pub record Inner : Type 0 where
  pub capacity : ℕ
  pub in_flight : ℕ

-- `Bulkhead::new`, of a capacity that is not zero.
unfoldable pub new : ℕ → Inner
new capacity = record { capacity = capacity; in_flight = 0 }

-- `fetch_sub` wraps around; the `debug_assert` on its result is off in release builds.
unfoldable pub fetch_sub : ℕ → ℕ
fetch_sub in_flight = (in_flight + 2 ^ 64 - 1) % 2 ^ 64

unfoldable pub available : Inner → ℕ
available b = b.capacity - b.in_flight

-- What one compare-exchange of the loop meets: the value that it expects, so that it writes; or
-- another value, or its own at a spurious failure, which the loop goes on with.
pub data Exchange : Type 0 where
  exchanged : Exchange
  observed : (value : ℕ) → Exchange

-- The loop of `try_reserve` from a loaded `current`, against the results of its exchanges; `none`
-- while it is still running when they end.
unfoldable pub reserve_loop : (capacity current : ℕ) → List Exchange → Option Bool
reserve_loop capacity current [] = if leb capacity current then some false else none
reserve_loop capacity current (exchanged ∷ rest) =
    if leb capacity current then some false else some true
reserve_loop capacity current (observed value ∷ rest) =
    let again = reserve_loop capacity value rest in
    if leb capacity current then some false else again

pub record BulkheadPermit : Type 0 where
  pub released : Bool

-- `try_acquire` with nothing else running: `try_reserve` loads, and its first exchange succeeds.
unfoldable pub try_acquire : Inner → Inner × Result BulkheadPermit BulkheadRejected
try_acquire b =
    if leb b.capacity b.in_flight
    then (b, err bulkhead_rejected)
    else (record b { in_flight = b.in_flight + 1 }, ok (record { released = false }))

-- `BulkheadPermit::release_inner`, by `release` and by `Drop`.
unfoldable pub release_inner : BulkheadPermit → Inner → Inner × BulkheadPermit
unfolding fetch_sub
release_inner p b =
    if p.released
    then (b, p)
    else (record b { in_flight = fetch_sub b.in_flight }, record { released = true })

-- `BulkheadPermit::release`: the permit is dropped at the end, released by then.
unfoldable pub release : BulkheadPermit → Inner → Inner
unfolding release_inner
release p b = let (b', p') = release_inner p b in (release_inner p' b').0

-- How the caller's operation ends.
pub data Operation {ℓ κ} (T : Type ℓ) (E : Type κ) : Type (ℓ ⊔ κ) where
  finishes : Result T E → Operation T E
  panics : Operation T E

unfoldable pub outcome {ℓ κ} :
    {T : Type ℓ} {E : Type κ} → Operation T E → Exec (Result T (BulkheadCallError E))
outcome (finishes r) = done (map_err inner r)
outcome panics = Exec.panicked

-- `Bulkhead::call`: the permit is dropped at the end on every path, also when the operation panics.
-- `during` is what other callers make of the counter meanwhile.
unfoldable pub call {ℓ κ} :
    {T : Type ℓ} {E : Type κ}
    → (Inner → Inner)
    → Operation T E
    → Inner
    → Inner × Exec (Result T (BulkheadCallError E))
unfolding try_acquire release_inner outcome
call during operation b =
    let (b', admission) = try_acquire b in
    elim admission [
      | err e ↦ (b', done (err (rejected e)))
      | ok p ↦ ((release_inner p (during b')).0, outcome operation)
    ]
