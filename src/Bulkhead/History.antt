-- ===== src/Bulkhead/History.antt =====
-- src/bulkhead.rs: the calls of interleaved threads, as they take effect and as they return. A call of
-- `try_acquire` takes effect at the load, or the lost exchange, that sees no free slot, or at the
-- exchange that succeeds; a release takes effect at its subtraction.
use svc_resillience_rs.Prelude.{
  ℕ, Bool, not, ◌&&◌, Option, none, some, List, [], ◌∷◌, ◌++◌, map, leb, ◌==◌, if◌then◌else◌,
  get_elem?,
}
use svc_resillience_rs.Bulkhead.Semaphore.{Event, admitted, refused, released}
use svc_resillience_rs.Bulkhead.World.{Thread, idle, reserving, holding, World, step}

-- The call that a step of a thread brings into effect, if any.
abbrev pub effect_of : (capacity in_flight : ℕ) → (spurious : Bool) → Thread → List Event
effect_of capacity in_flight spurious idle = if leb capacity in_flight then refused ∷ [] else []
effect_of capacity in_flight spurious (reserving current) =
    if leb capacity current
    then []
    else if (current == in_flight) && not spurious
    then admitted ∷ []
    else if leb capacity in_flight
    then refused ∷ []
    else []
effect_of capacity in_flight spurious holding = released ∷ []

-- The call that returns at a step of a thread, if any, with its answer.
abbrev pub answer_of : (capacity in_flight : ℕ) → (spurious : Bool) → Thread → List Event
answer_of capacity in_flight spurious idle = []
answer_of capacity in_flight spurious (reserving current) =
    if leb capacity current
    then refused ∷ []
    else if (current == in_flight) && not spurious
    then admitted ∷ []
    else []
answer_of capacity in_flight spurious holding = released ∷ []

-- A call that has taken effect and is yet to return.
abbrev pub pending_of : (capacity : ℕ) → Option Thread → List Event
pending_of capacity (some (reserving current)) = if leb capacity current then refused ∷ [] else []
pending_of capacity _ = []

abbrev pub of_thread : Option Thread → (Thread → List Event) → List Event
of_thread none f = []
of_thread (some t) f = f t

abbrev pub tag : ℕ → List Event → List (ℕ × Event)
tag i es = map (λ e. (i, e)) es

abbrev pub events : List (ℕ × Event) → List Event
events log = map (λ x. x.1) log

-- The events of one thread.
abbrev pub events_of : ℕ → List (ℕ × Event) → List Event
events_of j [] = []
events_of j ((i, e) ∷ log) = if i == j then e ∷ events_of j log else events_of j log

module _ (capacity : ℕ) where
  abbrev pub effect : World → ℕ × Bool → List Event
  effect w (i, spurious) =
      of_thread (get_elem? w.threads i) (effect_of capacity w.in_flight spurious)

  abbrev pub answer : World → ℕ × Bool → List Event
  answer w (i, spurious) =
      of_thread (get_elem? w.threads i) (answer_of capacity w.in_flight spurious)

  -- The calls of a schedule, with their threads, in the order in which they take effect.
  unfoldable pub effects : World → List (ℕ × Bool) → List (ℕ × Event)
  effects w [] = []
  effects w (m ∷ ms) = tag m.0 (effect w m) ++ effects (step capacity w m) ms

  -- And in the order in which they return.
  unfoldable pub answers : World → List (ℕ × Bool) → List (ℕ × Event)
  answers w [] = []
  answers w (m ∷ ms) = tag m.0 (answer w m) ++ answers (step capacity w m) ms

  abbrev pub pending : ℕ → World → List Event
  pending j w = pending_of capacity (get_elem? w.threads j)
