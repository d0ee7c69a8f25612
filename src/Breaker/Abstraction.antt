-- ===== src/Breaker/Abstraction.antt =====
-- src/circuit_breaker.rs: the circuit that a breaker and its permits stand for.
use svc_resillience_rs.Prelude.{
  ℕ, ◌+◌, ◌<◌, ◌≡◌, refl, Bool, List, [], ◌∷◌, map, arith, ◌==◌, All, count_by, Result, ok, err,
}
use svc_resillience_rs.Breaker.{
  CircuitBreakerConfig, CircuitBreakerRejected, CircuitBreakerPermit, Mode, Shared, state,
  try_acquire,
}
use svc_resillience_rs.Breaker.World.{
  World, Event, observe, acquire, succeed, fail, abandon, wait, step, is_plain, is_probe,
}
use svc_resillience_rs.Breaker.Permits.{IsOut}
use svc_resillience_rs.Breaker.Circuit.{
  Phase, closed, opened, half_open, Circuit, Answer, seen, admitted, refused, silent, stale,
}

abbrev pub phase_of : Mode → Phase
phase_of (Mode.closed failures) = closed failures
phase_of (Mode.opened until) = opened until
phase_of (Mode.half_open in_flight successes) = half_open successes

-- A permit counts as long as its generation is the present one.
abbrev pub counts : ℕ → CircuitBreakerPermit → Bool
counts g p = p.generation == g

abbrev pub circuit : Shared → ℕ → List CircuitBreakerPermit → Circuit
circuit s now ps = record {
  phase = phase_of s.mode;
  now = now;
  counting = map (counts s.generation) ps;
}

abbrev pub circuit_of : World → Circuit
circuit_of w = circuit w.shared w.now w.permits

abbrev pub admission : Result CircuitBreakerPermit CircuitBreakerRejected → Answer
admission (ok p) = admitted
admission (err e) = refused

-- What the breaker tells the caller of an event.
abbrev pub answer_of : CircuitBreakerConfig → World → Event → Answer
answer_of c w observe = seen (state w.now w.shared).1
answer_of c w acquire = admission (try_acquire c w.now w.shared).1
answer_of c w (succeed i) = silent
answer_of c w (fail i) = silent
answer_of c w (abandon i) = silent
answer_of c w (wait elapsed) = silent

module _ (c : CircuitBreakerConfig) (limit : ℕ) where
  unfoldable pub answers : World → List Event → List Answer
  answers w [] = []
  answers w (e ∷ es) = answer_of c w e ∷ answers (step c limit w e) es

pub count_by-counts :
    (g : ℕ) (ps : List CircuitBreakerPermit)
    → count_by (λ b. b) (map (counts g) ps) ≡ count_by (is_plain g) ps + count_by (is_probe g) ps
count_by-counts g [] = omega arith
count_by-counts g (p ∷ ps) = ground (arith, count_by-counts g ps, p.kind)

-- Once the generation has moved on, no permit of before counts.
pub counts_later :
    (g h : ℕ) (ps : List CircuitBreakerPermit)
    → g < h
    → All (IsOut g) ps
    → map (counts h) ps ≡ stale (map (counts g) ps)
counts_later g h [] l a = refl
counts_later g h (p ∷ ps) l a = ground (arith, counts_later g h ps l a.1)
