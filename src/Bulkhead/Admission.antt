-- ===== src/Bulkhead/Admission.antt =====
-- src/bulkhead.rs: what the reservation loop answers, and what acquiring, releasing and whole calls
-- do to the counter.
use svc_resillience_rs.Prelude.{
  ℕ, ◌+◌, ◌^◌, ◌≤◌, ◌<◌, ◌≡◌, Bool, true, false, ◌&&◌, some, List, [], ◌∷◌, ◌++◌, map, arith, ltb,
  if◌then◌else◌, ok, err, done, get_elem?, set, get_elem?-set_self, set-set, set_self,
}
use svc_resillience_rs.Bulkhead.{
  Inner, Exchange, exchanged, observed, reserve_loop, BulkheadPermit, bulkhead_rejected, rejected,
  Operation, outcome, try_acquire, release, release_inner, call,
}
use svc_resillience_rs.Bulkhead.World.{World, idle, reserving, holding, step, run}

abbrev pub all_below : ℕ → List ℕ → Bool
all_below capacity [] = true
all_below capacity (v ∷ vs) = ltb v capacity && all_below capacity vs

-- After any number of lost exchanges and one that succeeds the loop has ended, and it has reserved a
-- slot exactly if every value that it saw was below the capacity.
pub reserve_loop-answers :
    (capacity current : ℕ) (values : List ℕ) (rest : List Exchange)
    → reserve_loop capacity current (map observed values ++ exchanged ∷ rest)
      ≡ some (all_below capacity (current ∷ values))
unfolding reserve_loop
reserve_loop-answers capacity current [] rest = ground arith
reserve_loop-answers capacity current (v ∷ vs) rest =
    ground (arith, reserve_loop-answers capacity v vs rest)

-- A thread that runs alone is through with `try_reserve` in two steps: with a slot if one was free,
-- and otherwise without one and with the counter as it was.
pub reserves_alone :
    (capacity : ℕ) (w : World) (i : ℕ)
    → get_elem? w.threads i ≡ some idle
    → run capacity w ((i, false) ∷ (i, false) ∷ []) ≡ (
        if ltb w.in_flight capacity
        then record { in_flight = w.in_flight + 1; threads = set w.threads i holding }
        else w)
unfolding run step
reserves_alone capacity w i e = ground (
  arith,
  get_elem?-set_self w.threads i idle (reserving w.in_flight) e,
  set-set w.threads i (reserving w.in_flight) holding,
  set-set w.threads i (reserving w.in_flight) idle,
  set_self w.threads i idle e,
)

-- A permit that is released gives back one slot, once: dropping it afterwards does nothing.
pub try_acquire-release :
    (b : Inner) (p : BulkheadPermit) (b' : Inner)
    → b.capacity < 2 ^ 64
    → try_acquire b ≡ (b', ok p)
    → (b'.in_flight ≡ b.in_flight + 1)
      × (b'.in_flight ≤ b.capacity)
      × (release p b' ≡ b)
      × ((release_inner p b').0 ≡ b)
unfolding try_acquire release
try_acquire-release b p b' small e = ground arith

-- For a capacity of 64 bits, a call with nothing else running leaves the counter as it was on
-- every path, a panic of the operation included; it runs the operation exactly if a slot was free.
pub call_alone :
    {T E : Type 0} (operation : Operation T E) (b : Inner)
    → b.capacity < 2 ^ 64
    → call (λ s. s) operation b ≡ (
      b,
      (if ltb b.in_flight b.capacity
          then outcome operation
          else done (err (rejected bulkhead_rejected))),
    )
unfolding call
call_alone operation b small = ground arith
