-- ===== src/Tests/Bulkhead.antt =====
-- Runs of src/bulkhead.rs.
use svc_resillience_rs.Prelude.{
  ℕ, ◌≡◌, refl, List, [], ◌∷◌, Bool, true, false, some, ◌++◌, ok, err, ◌≤◌, arith,
}
use svc_resillience_rs.Bulkhead.{
  Inner, new, available, bulkhead_rejected, inner, display_rejected, display_call_error,
  try_acquire, Operation, finishes, outcome, call,
}
use svc_resillience_rs.Bulkhead.World.{idle, holding, step, run, start, held, run-start-held}
use svc_resillience_rs.Bulkhead.Semaphore.{admitted, refused, replay}
use svc_resillience_rs.Bulkhead.History.{events, events_of, effects, answers, pending}
use svc_resillience_rs.Bulkhead.Refinement.{run_refines}

abbrev one_of_two : Inner
one_of_two = record { capacity = 2; in_flight = 1 }

texts :
    (display_rejected bulkhead_rejected ≡ "bulkhead rejected the call")
    × (display_call_error (λ e. e) (inner "timeout") ≡ "timeout")
unfolding display_rejected display_call_error
texts = (refl, refl)

one_left : (available one_of_two ≡ 1) × (available (new 2) ≡ 2)
unfolding available new
one_left = (refl, refl)

-- Two threads at one slot: both load 0, and only one exchange succeeds.
abbrev race : List (ℕ × Bool)
race = (0, false) ∷ (1, false) ∷ (0, true) ∷ (1, false) ∷ (0, false) ∷ (0, false) ∷ []

race_end : run 1 (start 2) race ≡ record { in_flight = 1; threads = idle ∷ holding ∷ [] }
unfolding run
race_end = refl

run-start-held_example :
    ((run 1 (start 2) race).in_flight ≡ held (run 1 (start 2) race))
    × (held (run 1 (start 2) race) ≤ 1)
run-start-held_example = run-start-held 1 2 race (omega arith)

acquired :
    try_acquire one_of_two
    ≡ (record { capacity = 2; in_flight = 2 }, ok (record { released = false }))
unfolding try_acquire
acquired = refl

abbrev failing : Operation ℕ ℕ
failing = finishes (err 7)

called : call (λ b. b) failing one_of_two ≡ (one_of_two, outcome failing)
unfolding call
called = refl

-- The race, with the thread that lost refused in the end.
race_calls :
    (effects 1 (start 2) race ≡ (1, admitted) ∷ (0, refused) ∷ [])
    × (answers 1 (start 2) race ≡ (1, admitted) ∷ (0, refused) ∷ [])
unfolding effects answers step
race_calls = (refl, refl)

run_refines_example :
    (replay 1 0 (events (effects 1 (start 2) race)) ≡ some (run 1 (start 2) race).in_flight)
    × (events_of 0 (effects 1 (start 2) race)
        ≡ events_of 0 (answers 1 (start 2) race) ++ pending 1 0 (run 1 (start 2) race))
run_refines_example = run_refines 1 2 race 0 (omega arith)
