-- ===== src/Bulkhead/Refinement.antt =====
-- src/bulkhead.rs: under interleaved threads the atomic counter is the semaphore of `Semaphore`.
use mathlib.Core.List.{append_assoc, append-nil}
use svc_resillience_rs.Prelude.{
  ℕ_discrete, sym, ==_iff, ≢→==_false, ℕ, zero, suc, ◌^◌, ◌<◌, ◌≡◌, ◌≢◌, refl, ap, ◌∙◌, inl, inr,
  Bool, some, List, [], ◌∷◌, ◌++◌, arith, ◌==◌, if◌then◌else◌, get_elem?, count_by-set,
  Option-cases, get_elem?-set_self, get_elem?-set_ne,
}
use svc_resillience_rs.Bulkhead.Semaphore.{Event, replay}
use svc_resillience_rs.Bulkhead.World.{
  Thread, idle, reserving, holding, World, advance, place, advance_at, step, run, start,
  idle_threads, Inv, is_holding, step-Inv, start-Inv,
}
use svc_resillience_rs.Bulkhead.History.{
  effect_of, answer_of, pending_of, tag, events, events_of, effect, answer, effects, answers,
  pending,
}

events-tag :
    (i : ℕ) (es : List Event) (log : List (ℕ × Event)) → events (tag i es ++ log) ≡ es ++ events log
events-tag i [] log = refl
events-tag i (e ∷ es) log = ap (◌∷◌ e) (events-tag i es log)

events_of-tag :
    (j i : ℕ) (es : List Event) (log : List (ℕ × Event))
    → events_of j (tag i es ++ log) ≡ (if i == j then es else []) ++ events_of j log
events_of-tag j i [] log = ground arith
events_of-tag j i (e ∷ es) log = ground (arith, events_of-tag j i es log)

module _ (capacity : ℕ) where
  module _ (w : World) (i : ℕ) (spurious : Bool) (v : Inv capacity w) where
    effect_allowed_at :
        (t : Thread) (rest : List Event)
        → get_elem? w.threads i ≡ some t
        → replay capacity w.in_flight (effect_of capacity w.in_flight spurious t ++ rest)
          ≡ replay capacity (place w i (advance capacity w.in_flight spurious t)).in_flight rest
    unfolding replay advance place
    effect_allowed_at idle rest e = ground arith
    effect_allowed_at (reserving current) rest e = ground arith
    effect_allowed_at holding rest e =
        ground
          (arith, v.counted, v.bounded, v.small, count_by-set is_holding w.threads i holding idle e)

  effect_allowed :
      (w : World) (m : ℕ × Bool) (rest : List Event)
      → Inv capacity w
      → replay capacity w.in_flight (effect capacity w m ++ rest)
        ≡ replay capacity (step capacity w m).in_flight rest
  unfolding step
  effect_allowed w (i, spurious) rest v = elim (Option-cases (get_elem? w.threads i)) [
    | inl e ↦ rw (e, advance_at) refl
    | inr (t, e) ↦ rw (e, advance_at) (effect_allowed_at w i spurious v t rest e)
  ]

  effects_allowed :
      (w : World) (ms : List (ℕ × Bool))
      → Inv capacity w
      → replay capacity w.in_flight (events (effects capacity w ms))
        ≡ some (run capacity w ms).in_flight
  unfolding effects run replay
  effects_allowed w [] v = refl
  effects_allowed w (m ∷ ms) v =
      let rest = effects capacity (step capacity w m) ms in
      ap (replay capacity w.in_flight) (events-tag m.0 (effect capacity w m) rest)
      ∙ effect_allowed w m (events rest) v
      ∙ effects_allowed (step capacity w m) ms (step-Inv capacity w m v)

  -- A step of a thread brings into effect what it returns, or leaves it pending.
  thread_pending :
      (in_flight : ℕ) (spurious : Bool) (t : Thread)
      → pending_of capacity (some t) ++ effect_of capacity in_flight spurious t
        ≡ answer_of capacity in_flight spurious t
          ++ pending_of capacity (some (advance capacity in_flight spurious t).1)
  unfolding advance
  thread_pending in_flight spurious idle = ground arith
  thread_pending in_flight spurious (reserving current) = ground arith
  thread_pending in_flight spurious holding = refl

  own_pending :
      (w : World) (i : ℕ) (spurious : Bool)
      → pending capacity i w ++ effect capacity w (i, spurious)
        ≡ answer capacity w (i, spurious) ++ pending capacity i (step capacity w (i, spurious))
  unfolding step place
  own_pending w i spurious = elim (Option-cases (get_elem? w.threads i)) [
    | inl e ↦ rw (e, advance_at, e) refl
    | inr (t, e) ↦
        rw (e, advance_at, get_elem?-set_self w.threads i t _ e)
          (thread_pending w.in_flight spurious t)
  ]

  other_pending :
      (w : World) (i j : ℕ) (spurious : Bool)
      → i ≢ j
      → pending capacity j (step capacity w (i, spurious)) ≡ pending capacity j w
  unfolding step place
  other_pending w i j spurious ne = elim (Option-cases (get_elem? w.threads i)) [
    | inl e ↦ rw (e, advance_at) refl
    | inr (t, e) ↦ rw (e, advance_at, get_elem?-set_ne w.threads i j _ ne) refl
  ]

  step-pending :
      (j : ℕ) (w : World) (m : ℕ × Bool)
      → pending capacity j w ++ (if m.0 == j then effect capacity w m else [])
        ≡ (if m.0 == j then answer capacity w m else []) ++ pending capacity j (step capacity w m)
  step-pending j w (i, spurious) = elim (ℕ_discrete i j) [
    | yes e ↦ rw (← e, (==_iff i i).1 refl) (own_pending w i spurious)
    | no ne ↦ rw (≢→==_false i j ne, append-nil) (sym (other_pending w i j spurious ne))
  ]

  returned :
      (j : ℕ) (w : World) (ms : List (ℕ × Bool))
      → pending capacity j w ++ events_of j (effects capacity w ms)
        ≡ events_of j (answers capacity w ms) ++ pending capacity j (run capacity w ms)
  unfolding effects answers run
  returned j w [] = rw append-nil refl
  returned j w (m ∷ ms) =
      let w' = step capacity w m in
      let own : List Event = if m.0 == j then answer capacity w m else [] in
      rw
        (
          events_of-tag j m.0 (effect capacity w m) (effects capacity w' ms),
          events_of-tag j m.0 (answer capacity w m) (answers capacity w' ms),
          ← append_assoc (pending capacity j w),
          step-pending j w m,
          append_assoc own (pending capacity j w') (events_of j (effects capacity w' ms)),
          append_assoc own (events_of j (answers capacity w' ms))
              (pending capacity j (run capacity w' ms)),
          returned j w' ms,
        )
        refl

idle_pending : (capacity n j : ℕ) → pending_of capacity (get_elem? (idle_threads n) j) ≡ []
idle_pending capacity zero j = refl
idle_pending capacity (suc n) zero = refl
idle_pending capacity (suc n) (suc j) = idle_pending capacity n j

-- For a capacity that fits into 64 bits: whatever the interleaving of any number of threads, the
-- calls are, in the order in which they take effect, a run of the atomic semaphore of that capacity
-- that ends at the value of the counter. Each thread's calls return with the answers and in the
-- order in which they took effect; at most a refusal is yet to return.
pub run_refines :
    (capacity n : ℕ) (ms : List (ℕ × Bool)) (j : ℕ)
    → capacity < 2 ^ 64
    → (replay capacity 0 (events (effects capacity (start n) ms))
        ≡ some (run capacity (start n) ms).in_flight)
      × (events_of j (effects capacity (start n) ms)
          ≡ events_of j (answers capacity (start n) ms)
            ++ pending capacity j (run capacity (start n) ms))
run_refines capacity n ms j small = (
  effects_allowed capacity (start n) ms (start-Inv capacity n small),
  rw (idle_pending capacity n j) at (returned capacity j (start n) ms),
)
