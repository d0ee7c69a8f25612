-- ===== src/Breaker/Permits.antt =====
-- src/circuit_breaker.rs: the mode against the permits of its generation that are out.
use svc_resillience_rs.Prelude.{
  ℕ, ◌+◌, ◌^◌, ◌≤◌, ◌<◌, ◌≡◌, refl, false, List, [], ◌∷◌, arith, All, count_by, u32_max,
}
use svc_resillience_rs.Breaker.{CircuitBreakerConfig, CircuitBreakerPermit, Mode, Shared}
use svc_resillience_rs.Breaker.World.{is_probe, is_plain}

-- A configuration as `config_new` returns it.
pub record IsConfig (c : CircuitBreakerConfig) : Type 0 where
  pub failures : 0 < c.failure_threshold
  pub failures_u32 : c.failure_threshold ≤ u32_max
  pub successes : 0 < c.half_open_success_threshold
  pub successes_u32 : c.half_open_success_threshold ≤ u32_max

-- The mode against the unfinished permits of its generation: `plain` admitted while closed, `probes`
-- admitted while half-open.
abbrev pub ModeInv : CircuitBreakerConfig → Mode → (plain probes : ℕ) → Type 0
ModeInv c (Mode.closed failures) plain probes = (failures < c.failure_threshold) × (probes ≡ 0)
ModeInv c (Mode.opened until) plain probes = (plain ≡ 0) × (probes ≡ 0)
ModeInv c (Mode.half_open in_flight successes) plain probes =
    (plain ≡ 0)
    × (in_flight ≡ probes)
    × (in_flight ≤ c.half_open_success_threshold)
    × (successes < c.half_open_success_threshold)

abbrev pub IsOut : ℕ → CircuitBreakerPermit → Type 0
IsOut g p = (p.generation ≤ g) × (p.completed ≡ false)

pub record Inv (c : CircuitBreakerConfig) (s : Shared) (ps : List CircuitBreakerPermit)
    : Type 0 where
  pub counts :
      ModeInv c s.mode (count_by (is_plain s.generation) ps) (count_by (is_probe s.generation) ps)
  pub out : All (IsOut s.generation) ps
  pub generation : s.generation < 2 ^ 64

-- No permit is of a later generation.
count_probe_later :
    (g h : ℕ) (ps : List CircuitBreakerPermit)
    → g < h
    → All (IsOut g) ps
    → count_by (is_probe h) ps ≡ 0
count_probe_later g h [] l a = refl
count_probe_later g h (p ∷ ps) l a = ground (arith, count_probe_later g h ps l a.1)

count_plain_later :
    (g h : ℕ) (ps : List CircuitBreakerPermit)
    → g < h
    → All (IsOut g) ps
    → count_by (is_plain h) ps ≡ 0
count_plain_later g h [] l a = refl
count_plain_later g h (p ∷ ps) l a = ground (arith, count_plain_later g h ps l a.1)

pub IsOut-later :
    (g h : ℕ) (ps : List CircuitBreakerPermit) → g ≤ h → All (IsOut g) ps → All (IsOut h) ps
IsOut-later g h [] l a = tt
IsOut-later g h (p ∷ ps) l a = ((omega arith, a.0.1), IsOut-later g h ps l a.1)

-- A transition leaves every permit behind.
pub transition-Inv :
    (c : CircuitBreakerConfig) (g h : ℕ) (mode : Mode) (ps : List CircuitBreakerPermit)
    → All (IsOut g) ps
    → h ≡ g + 1
    → h < 2 ^ 64
    → ModeInv c mode 0 0
    → Inv c (record { generation = h; mode = mode }) ps
transition-Inv c g h mode ps a e l m = record {
  counts = ground (
    arith,
    count_plain_later g h ps (omega arith) a,
    count_probe_later g h ps (omega arith) a,
    m,
  );
  out = IsOut-later g h ps (omega arith) a;
  generation = l;
}
