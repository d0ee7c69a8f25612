-- ===== src/Retry/Backoff.antt =====
-- src/retry.rs: the bounds of the delays.
use svc_resillience_rs.Prelude.{
  ℕ, zero, suc, ◌+◌, ◌-◌, ◌*◌, ◌/◌, ◌^◌, ◌≤◌, ◌<◌, ◌≡◌, refl, min, arith, ok, Duration,
  duration_max, u32_max, u64_max, dec_lt, subst,
}
use svc_resillience_rs.Prelude.Words.{saturating_pow_u32, saturating_pow_u32-le}
use native.Mathlib.Nat.{pow-suc, pow-zero, mul_comm, min-eq_left, min-eq_right}
use svc_resillience_rs.Retry.{
  Jitter, no_jitter, full, equal, ExponentialBackoff, backoff_new, delay_cap, jittered, delay_after,
}

cut_product : (b x m : ℕ) → 0 < m → min (b * min x m) m ≡ min (x * b) m
cut_product b x m p = elim (dec_lt m x) [
  | yes over ↦ elim (dec_lt 0 b) [
    | yes pos ↦
        let low : m ≤ b * m = grind arith in
        let high : m ≤ x * b = grind arith in
        rw (min-eq_right {n = m} {m = x} (omega arith)) (omega (arith, low, high))
    | no zero_b ↦ let e : b ≡ 0 = omega arith in rw e (omega arith)
  ]
  | no within ↦ rw (min-eq_left {n = x} {m = m} (omega arith)) (rw (mul_comm b x) refl)
]

-- Saturating exponentiation is exponentiation cut off at the largest word.
pub saturating_pow_u32-min : (b e : ℕ) → saturating_pow_u32 b e ≡ min (b ^ e) u32_max
unfolding saturating_pow_u32
saturating_pow_u32-min b zero = simp pow-zero (omega arith)
saturating_pow_u32-min b (suc e) =
    rw (saturating_pow_u32-min b e, pow-suc) (cut_product b (b ^ e) u32_max (omega arith))

-- A source of draws stays within its range.
abbrev pub IsDraw : (ℕ → ℕ) → Type 0
IsDraw draw = (n : ℕ) → draw n ≤ n

-- Where a delay lies, by the jitter and the cap.
abbrev pub IsJittered : Jitter → Duration → Duration → Type 0
IsJittered no_jitter cap delay = delay ≡ cap
IsJittered full cap delay = delay ≤ cap
IsJittered equal cap delay = (cap / 2 ≤ delay) × (delay ≤ cap)

jittered-IsJittered :
    (j : Jitter) (draw : ℕ → ℕ) (cap : Duration)
    → IsDraw draw
    → cap ≤ duration_max
    → IsJittered j cap (jittered j draw cap)
unfolding jittered
jittered-IsJittered no_jitter draw cap d m = refl
jittered-IsJittered full draw cap d m = omega (arith, d (min cap u64_max))
jittered-IsJittered equal draw cap d m = omega (arith, d (min (cap - cap / 2) u64_max))

jittered-le : (j : Jitter) (cap delay : Duration) → IsJittered j cap delay → delay ≤ cap
jittered-le no_jitter cap delay h = omega arith
jittered-le full cap delay h = h
jittered-le equal cap delay h = h.1

-- The cap after an attempt is the initial delay times the factor to the power of the attempts before
-- it, cut off at the maximum, where a power beyond 32 bits counts as the largest such number; the
-- maximum is a duration. The delay is the cap without jitter, lies between nothing and the cap with
-- full jitter, and between half the cap and the cap with equal jitter; so it never exceeds the
-- maximum.
pub delay_after_bounds :
    (b : ExponentialBackoff) (draw : ℕ → ℕ) (attempt : ℕ)
    → IsDraw draw
    → b.maximum ≤ duration_max
    → let cap : Duration = min (b.initial * min (b.factor ^ (attempt - 1)) u32_max) b.maximum in
      IsJittered b.jitter cap (delay_after b draw attempt)
      × (delay_after b draw attempt ≤ b.maximum)
unfolding delay_after delay_cap
delay_after_bounds b draw attempt d m =
    let cap : delay_cap b attempt
        ≡ min (b.initial * min (b.factor ^ (attempt - 1)) u32_max) b.maximum =
      rw (saturating_pow_u32-min b.factor (attempt - 1)) (omega arith) in
    let placed = jittered-IsJittered b.jitter draw (delay_cap b attempt) d (omega (arith, cap)) in
    (
      subst (λ n. IsJittered b.jitter n (delay_after b draw attempt)) cap placed,
      omega (arith, cap, jittered-le b.jitter _ _ placed),
    )

pow_pos : (b e : ℕ) → 1 ≤ b → 1 ≤ saturating_pow_u32 b e
unfolding saturating_pow_u32
pow_pos b zero h = omega arith
pow_pos b (suc e) h =
    let ih = pow_pos b e h in
    let product : 1 ≤ b * saturating_pow_u32 b e = grind arith in omega (arith, product)

pow_grows : (b e : ℕ) → 1 ≤ b → saturating_pow_u32 b e ≤ saturating_pow_u32 b (suc e)
unfolding saturating_pow_u32
pow_grows b e h =
    let product : saturating_pow_u32 b e ≤ b * saturating_pow_u32 b e = grind arith in
    omega (arith, product, saturating_pow_u32-le b e)

abbrev cap_at : ℕ → ℕ → ℕ → ℕ
cap_at initial maximum power = min (min (initial * power) duration_max) maximum

cap_at_mono :
    (initial maximum p q : ℕ) → p ≤ q → cap_at initial maximum p ≤ cap_at initial maximum q
cap_at_mono initial maximum p q h =
    let product : initial * p ≤ initial * q = grind arith in omega (arith, product)

cap_at-low :
    (initial maximum p : ℕ)
    → 1 ≤ p
    → initial ≤ maximum
    → maximum ≤ duration_max
    → initial ≤ cap_at initial maximum p
cap_at-low initial maximum p h l m =
    let product : initial ≤ initial * p = grind arith in omega (arith, product)

backoff_new-ok :
    (initial maximum factor : ℕ) (jitter : Jitter) (b : ExponentialBackoff)
    → backoff_new initial maximum factor jitter ≡ ok b
    → (b ≡ record { initial = initial; maximum = maximum; factor = factor; jitter = jitter })
      × (initial ≤ maximum)
      × (1 ≤ factor)
unfolding backoff_new
backoff_new-ok initial maximum factor j b h = ground arith

caps :
    (initial maximum factor attempt : ℕ) (jitter : Jitter)
    → initial ≤ maximum
    → 1 ≤ factor
    → maximum ≤ duration_max
    → let b : ExponentialBackoff = record {
      initial = initial;
      maximum = maximum;
      factor = factor;
      jitter = jitter;
    } in
      (delay_cap b 1 ≡ initial)
      × (initial ≤ delay_cap b attempt)
      × (delay_cap b attempt ≤ delay_cap b (attempt + 1))
      × (delay_cap b attempt ≤ maximum)
unfolding delay_cap saturating_pow_u32
caps initial maximum factor zero j l f m = (omega arith, omega arith, omega arith, omega arith)
caps initial maximum factor (suc a) j l f m =
    let here : suc a - 1 ≡ a = omega arith in
    let next : suc a + 1 - 1 ≡ suc a = omega arith in
    rw (here, next)
      (
        omega arith,
        cap_at-low initial maximum (saturating_pow_u32 factor a) (pow_pos factor a f) l m,
        cap_at_mono initial maximum _ _ (pow_grows factor a f),
        omega arith,
      )

-- A configuration that `ExponentialBackoff::new` accepts, with a maximum that is a duration, has
-- delay caps that never fall from one attempt to the next, that start at the initial delay and
-- stay between it and the maximum.
pub delay_cap_grows :
    (initial maximum factor : ℕ) (jitter : Jitter) (b : ExponentialBackoff) (attempt : ℕ)
    → backoff_new initial maximum factor jitter ≡ ok b
    → maximum ≤ duration_max
    → (delay_cap b 1 ≡ initial)
      × (initial ≤ delay_cap b attempt)
      × (delay_cap b attempt ≤ delay_cap b (attempt + 1))
      × (delay_cap b attempt ≤ maximum)
delay_cap_grows initial maximum factor jitter b attempt h m =
    let facts = backoff_new-ok initial maximum factor jitter b h in
    rw facts.0 (caps initial maximum factor attempt jitter facts.1 facts.2 m)
