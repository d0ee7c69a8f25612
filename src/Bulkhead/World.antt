-- ===== src/Bulkhead/World.antt =====
-- src/bulkhead.rs under interleaved threads: the counter, and where each thread stands in
-- `try_reserve` and `release_slot`.
use svc_resillience_rs.Prelude.{
  ℕ, zero, suc, ◌+◌, ◌^◌, ◌≤◌, ◌<◌, ◌≡◌, refl, inl, inr, Bool, true, false, not, ◌&&◌, Option, none,
  some, List, [], ◌∷◌, arith, leb, ◌==◌, if◌then◌else◌, get_elem?, set, count_by, count_by-set,
  Option-cases,
}
use svc_resillience_rs.Bulkhead.{fetch_sub}

pub data Thread : Type 0 where
  idle : Thread
  reserving : (current : ℕ) → Thread
  holding : Thread

pub record World : Type 0 where
  pub in_flight : ℕ
  pub threads : List Thread

-- One step of a thread. `spurious` makes a weak exchange fail although the value is the expected one.
unfoldable pub advance : (capacity in_flight : ℕ) → (spurious : Bool) → Thread → ℕ × Thread
unfolding fetch_sub
advance capacity in_flight spurious idle = (in_flight, reserving in_flight)
advance capacity in_flight spurious (reserving current) =
    if leb capacity current
    then (in_flight, idle)
    else if (current == in_flight) && not spurious
    then (current + 1, holding)
    else (in_flight, reserving in_flight)
advance capacity in_flight spurious holding = (fetch_sub in_flight, idle)

unfoldable pub place : World → ℕ → ℕ × Thread → World
place w i (in_flight, t) = record { in_flight = in_flight; threads = set w.threads i t }

unfoldable pub advance_at : (capacity : ℕ) → World → ℕ → Bool → Option Thread → World
unfolding advance place
advance_at capacity w i spurious none = w
advance_at capacity w i spurious (some t) = place w i (advance capacity w.in_flight spurious t)

unfoldable pub step : (capacity : ℕ) → World → ℕ × Bool → World
unfolding advance_at
step capacity w (i, spurious) = advance_at capacity w i spurious (get_elem? w.threads i)

unfoldable pub run : (capacity : ℕ) → World → List (ℕ × Bool) → World
unfolding step
run capacity w [] = w
run capacity w (m ∷ ms) = run capacity (step capacity w m) ms

abbrev pub idle_threads : ℕ → List Thread
idle_threads zero = []
idle_threads (suc n) = idle ∷ idle_threads n

abbrev pub start : ℕ → World
start n = record { in_flight = 0; threads = idle_threads n }

abbrev pub is_holding : Thread → Bool
is_holding idle = false
is_holding (reserving current) = false
is_holding holding = true

abbrev pub held : World → ℕ
held w = count_by is_holding w.threads

pub record Inv (capacity : ℕ) (w : World) : Type 0 where
  pub counted : w.in_flight ≡ held w
  pub bounded : held w ≤ capacity
  pub small : capacity < 2 ^ 64

module _ (capacity : ℕ) (w : World) (i : ℕ) (spurious : Bool) (v : Inv capacity w) where
  place-Inv :
      (t : Thread)
      → get_elem? w.threads i ≡ some t
      → Inv capacity (place w i (advance capacity w.in_flight spurious t))
  unfolding advance place
  place-Inv idle e =
      ground (arith, count_by-set is_holding w.threads i idle (reserving w.in_flight) e)
  place-Inv holding e = ground (arith, count_by-set is_holding w.threads i holding idle e)
  place-Inv (reserving current) e = ground (
    arith,
    count_by-set is_holding w.threads i (reserving current) idle e,
    count_by-set is_holding w.threads i (reserving current) holding e,
    count_by-set is_holding w.threads i (reserving current) (reserving w.in_flight) e,
  )

pub step-Inv :
    (capacity : ℕ) (w : World) (m : ℕ × Bool) → Inv capacity w → Inv capacity (step capacity w m)
unfolding step
step-Inv capacity w (i, spurious) v = elim (Option-cases (get_elem? w.threads i)) [
  | inl e ↦ rw (e, advance_at) v
  | inr (t, e) ↦ rw (e, advance_at) (place-Inv capacity w i spurious v t e)
]

idle_threads-held : (n : ℕ) → count_by is_holding (idle_threads n) ≡ 0
idle_threads-held zero = refl
idle_threads-held (suc n) = omega (arith, idle_threads-held n)

run-Inv :
    (capacity : ℕ) (w : World) (ms : List (ℕ × Bool))
    → Inv capacity w
    → Inv capacity (run capacity w ms)
unfolding run
run-Inv capacity w [] v = v
run-Inv capacity w (m ∷ ms) v = run-Inv capacity (step capacity w m) ms (step-Inv capacity w m v)

pub start-Inv : (capacity n : ℕ) → capacity < 2 ^ 64 → Inv capacity (start n)
start-Inv capacity n small = record {
  counted = omega (arith, idle_threads-held n);
  bounded = omega (arith, idle_threads-held n);
  small = small;
}

-- For a capacity that fits into 64 bits: in every interleaving of any number of threads, spurious
-- exchange failures included, the counter is exactly the number of permits held, which is at most
-- the capacity.
pub run-start-held :
    (capacity n : ℕ) (ms : List (ℕ × Bool))
    → capacity < 2 ^ 64
    → ((run capacity (start n) ms).in_flight ≡ held (run capacity (start n) ms))
      × (held (run capacity (start n) ms) ≤ capacity)
run-start-held capacity n ms small =
    let after = run-Inv capacity (start n) ms (start-Inv capacity n small) in
    (after.counted, after.bounded)
