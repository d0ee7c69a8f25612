-- ===== src/Breaker/Circuit.antt =====
-- What src/circuit_breaker.rs promises, with no generations, permit kinds or slots: three phases, and
-- permits each of which counts until the phase that it was given in ends.
use svc_resillience_rs.Prelude.{
  ℕ, ◌+◌, Bool, true, false, Option, none, some, List, [], ◌∷◌, map, leb, if◌then◌else◌, get_elem?,
  erase_idx, count_by,
}
use svc_resillience_rs.Breaker.{CircuitState, CircuitBreakerConfig}
use svc_resillience_rs.Breaker.World.{Event, observe, acquire, succeed, fail, abandon, wait}

pub data Phase : Type 0 where
  closed : (failures : ℕ) → Phase
  opened : (until : ℕ) → Phase
  half_open : (successes : ℕ) → Phase

-- For each permit that is out, whether it still counts.
pub record Circuit : Type 0 where
  pub phase : Phase
  pub now : ℕ
  pub counting : List Bool

-- What a caller is told.
pub data Answer : Type 0 where
  seen : CircuitState → Answer
  admitted refused silent : Answer

abbrev pub seen_as : Phase → CircuitState
seen_as (closed failures) = CircuitState.closed
seen_as (opened until) = CircuitState.opened
seen_as (half_open successes) = CircuitState.half_open

abbrev pub stale : List Bool → List Bool
stale bs = map (λ b. false) bs

-- A new phase begins: no permit that is out counts any more.
abbrev pub enter : Circuit → Phase → Circuit
enter k phase = record k { phase = phase; counting = stale k.counting }

abbrev pub in_flight : Circuit → ℕ
in_flight k = count_by (λ b. b) k.counting

module _ (c : CircuitBreakerConfig) where
  -- The timeout of an open circuit is noticed at the next call.
  unfoldable pub refresh : Circuit → Circuit
  refresh k = elim k.phase [
    | opened until ↦ if leb until k.now then enter k (half_open 0) else k
    | _ ↦ k
  ]

  unfoldable pub admit : Circuit → Circuit × Answer
  admit k = elim k.phase [
    | closed failures ↦ (record k { counting = true ∷ k.counting }, admitted)
    | opened until ↦ (k, refused)
    | half_open successes ↦
        if leb c.half_open_success_threshold (in_flight k)
        then (k, refused)
        else (record k { counting = true ∷ k.counting }, admitted)
  ]

  unfoldable pub count_success : Circuit → Circuit
  count_success k = elim k.phase [
    | closed failures ↦ record k { phase = closed 0 }
    | opened until ↦ k
    | half_open successes ↦
        if leb c.half_open_success_threshold (successes + 1)
        then enter k (closed 0)
        else record k { phase = half_open (successes + 1) }
  ]

  unfoldable pub count_failure : Circuit → Circuit
  count_failure k = elim k.phase [
    | closed failures ↦
        if leb c.failure_threshold (failures + 1)
        then enter k (opened (k.now + c.open_timeout))
        else record k { phase = closed (failures + 1) }
    | opened until ↦ k
    | half_open successes ↦ enter k (opened (k.now + c.open_timeout))
  ]

  -- The permit is gone; its outcome counts if the permit did.
  unfoldable pub end : (Circuit → Circuit) → ℕ → Circuit → Option Bool → Circuit
  end count i k none = k
  end count i k (some counts) =
      let left : Circuit = record k { counting = erase_idx k.counting i } in
      if counts then count left else left

  unfoldable pub step : Circuit → Event → Circuit × Answer
  unfolding refresh admit count_success count_failure end
  step k observe = (refresh k, seen (seen_as (refresh k).phase))
  step k acquire = admit (refresh k)
  step k (succeed i) = (end count_success i k (get_elem? k.counting i), silent)
  step k (fail i) = (end count_failure i k (get_elem? k.counting i), silent)
  step k (abandon i) = (end (λ left. left) i k (get_elem? k.counting i), silent)
  step k (wait elapsed) = (record k { now = k.now + elapsed }, silent)

  -- The answers to a history, and the circuit that it leaves.
  unfoldable pub run : Circuit → List Event → List Answer × Circuit
  unfolding step
  run k [] = ([], k)
  run k (e ∷ es) =
      let (k', answer) = step k e in
      let (answers, end_circuit) = run k' es in (answer ∷ answers, end_circuit)
