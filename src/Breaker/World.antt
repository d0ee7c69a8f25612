-- ===== src/Breaker/World.antt =====
-- src/circuit_breaker.rs under interleaved callers: one breaker, the permits that are out, and the
-- time. Each event is one call that takes the lock; any order of events is a history.
use svc_resillience_rs.Prelude.{
  ℕ, zero, suc, ◌+◌, ◌≡◌, refl, ◌++◌, wrapping_add_u64, Bool, true, false, ◌&&◌, Option, none, some,
  List, [], ◌∷◌, ◌==◌, Result, ok, err, get_elem?, erase_idx, count_by,
}
use svc_resillience_rs.Breaker.{
  CircuitBreakerConfig, CircuitBreakerRejected, CircuitBreakerPermit, PermitKind, Mode, Shared, new,
  state, try_acquire, success, failure, drop_permit,
}

pub record World : Type 0 where
  pub shared : Shared
  pub now : ℕ
  pub permits : List CircuitBreakerPermit

pub data Event : Type 0 where
  observe acquire : Event
  succeed fail abandon : (index : ℕ) → Event
  wait : (elapsed : ℕ) → Event

unfoldable pub keep_permit :
    Result CircuitBreakerPermit CircuitBreakerRejected
    → List CircuitBreakerPermit
    → List CircuitBreakerPermit
keep_permit (ok p) ps = p ∷ ps
keep_permit (err e) ps = ps

-- What the holder of a permit makes of the shared state; an index that names no permit does nothing.
unfoldable pub resolve :
    (CircuitBreakerPermit → Shared → Shared) → ℕ → World → Option CircuitBreakerPermit → World
resolve end index w none = w
resolve end index w (some p) = record w {
  shared = end p w.shared;
  permits = erase_idx w.permits index;
}

unfoldable pub step : CircuitBreakerConfig → ℕ → World → Event → World
unfolding keep_permit resolve state try_acquire success failure drop_permit
step c limit w observe = record w { shared = (state w.now w.shared).0 }
step c limit w acquire =
    let (s, admission) = try_acquire c w.now w.shared in
    record w { shared = s; permits = keep_permit admission w.permits }
step c limit w (succeed i) = resolve (success c) i w (get_elem? w.permits i)
step c limit w (fail i) =
    resolve (λ p s. (failure c (record { now = w.now; limit = limit }) p s).0) i w
      (get_elem? w.permits i)
step c limit w (abandon i) = resolve drop_permit i w (get_elem? w.permits i)
step c limit w (wait elapsed) = record w { now = w.now + elapsed }

unfoldable pub run : CircuitBreakerConfig → ℕ → World → List Event → World
unfolding step
run c limit w [] = w
run c limit w (e ∷ es) = run c limit (step c limit w e) es

abbrev pub start : ℕ → World
start now = record { shared = new; now = now; permits = [] }

abbrev pub is_half_open : PermitKind → Bool
is_half_open PermitKind.closed = false
is_half_open PermitKind.half_open = true

abbrev pub is_closed : PermitKind → Bool
is_closed PermitKind.closed = true
is_closed PermitKind.half_open = false

-- An unfinished probe of the generation `g`, and an unfinished call that was admitted while closed.
abbrev pub is_probe : ℕ → CircuitBreakerPermit → Bool
is_probe g p = (p.generation == g) && is_half_open p.kind

abbrev pub is_plain : ℕ → CircuitBreakerPermit → Bool
is_plain g p = (p.generation == g) && is_closed p.kind

abbrev pub probes : World → ℕ
probes w = count_by (is_probe w.shared.generation) w.permits

abbrev pub plain : World → ℕ
plain w = count_by (is_plain w.shared.generation) w.permits

-- `k` calls one after the other, each failing or each succeeding.
abbrev pub failing_calls : ℕ → List Event
failing_calls zero = []
failing_calls (suc k) = acquire ∷ fail 0 ∷ failing_calls k

abbrev pub succeeding_calls : ℕ → List Event
succeeding_calls zero = []
succeeding_calls (suc k) = acquire ∷ succeed 0 ∷ succeeding_calls k

abbrev pub in_mode : World → Mode → World
in_mode w mode = record w { shared = record { generation = w.shared.generation; mode = mode } }

abbrev pub next_mode : World → Mode → World
next_mode w mode = record w {
  shared = record { generation = wrapping_add_u64 w.shared.generation 1; mode = mode };
}

module _ (c : CircuitBreakerConfig) (limit : ℕ) where
  pub run-append :
      (w : World) (es fs : List Event)
      → run c limit w (es ++ fs) ≡ run c limit (run c limit w es) fs
  unfolding run
  run-append w [] fs = refl
  run-append w (e ∷ es) fs = run-append (step c limit w e) es fs
