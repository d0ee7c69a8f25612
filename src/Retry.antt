-- ===== src/Retry.antt =====
-- src/retry.rs: bounded exponential backoff with jitter, the retry policy, and the retry loop.
pub mod Backoff
pub mod Delays
pub mod Loop
use svc_resillience_rs.Prelude.{
  ℕ, zero, suc, ◌+◌, ◌-◌, ◌/◌, min, Bool, true, false, ◌||◌, Option, none, some, List, [], ◌∷◌,
  String, leb, ltb, ◌==◌, if◌then◌else◌, Result, ok, err, Duration, saturating_add_duration,
  saturating_mul_duration, saturating_pow_u32, u64_max,
}

pub data RetryDecision : Type 0 where
  retry do_not_retry : RetryDecision

pub data Jitter : Type 0 where
  no_jitter full equal : Jitter

pub data BackoffConfigError : Type 0 where
  zero_initial_delay maximum_below_initial factor_below_one : BackoffConfigError

unfoldable pub display_backoff_error : BackoffConfigError → String
display_backoff_error zero_initial_delay = "initial delay must be greater than zero"
display_backoff_error maximum_below_initial = "maximum delay must not be below initial delay"
display_backoff_error factor_below_one = "backoff factor must be at least one"

pub record ExponentialBackoff : Type 0 where
  pub initial : Duration
  pub maximum : Duration
  pub factor : ℕ
  pub jitter : Jitter

-- `ExponentialBackoff::new`.
unfoldable pub backoff_new :
    Duration → Duration → ℕ → Jitter → Result ExponentialBackoff BackoffConfigError
backoff_new initial maximum factor jitter =
    if initial == 0
    then err zero_initial_delay
    else if ltb maximum initial
    then err maximum_below_initial
    else if ltb factor 1
    then err factor_below_one
    else ok (record { initial = initial; maximum = maximum; factor = factor; jitter = jitter })

-- `draw n` is what `fastrand::u64` draws from `0..=n`.
unfoldable pub random_duration : (ℕ → ℕ) → Duration → Duration
random_duration draw maximum = draw (min maximum u64_max)

-- The cap on the delay after an attempt.
unfoldable pub delay_cap : ExponentialBackoff → ℕ → Duration
delay_cap b attempt =
    min (saturating_mul_duration b.initial (saturating_pow_u32 b.factor (attempt - 1))) b.maximum

unfoldable pub jittered : Jitter → (ℕ → ℕ) → Duration → Duration
unfolding random_duration
jittered no_jitter draw cap = cap
jittered full draw cap = random_duration draw cap
jittered equal draw cap = saturating_add_duration (cap / 2) (random_duration draw (cap - cap / 2))

-- `ExponentialBackoff::delay_after`.
unfoldable pub delay_after : ExponentialBackoff → (ℕ → ℕ) → ℕ → Duration
unfolding delay_cap jittered
delay_after b draw attempt = jittered b.jitter draw (delay_cap b attempt)

pub record RetryPolicy : Type 0 where
  pub max_attempts : ℕ
  pub max_elapsed : Option Duration
  pub backoff : ExponentialBackoff

-- `RetryPolicy::new`, of a positive number of attempts.
unfoldable pub policy_new : ℕ → ExponentialBackoff → RetryPolicy
policy_new max_attempts backoff = record {
  max_attempts = max_attempts;
  max_elapsed = none;
  backoff = backoff;
}

unfoldable pub with_max_elapsed : RetryPolicy → Duration → RetryPolicy
with_max_elapsed p max_elapsed = record p { max_elapsed = some max_elapsed }

abbrev pub is_do_not_retry : RetryDecision → Bool
is_do_not_retry retry = false
is_do_not_retry do_not_retry = true

-- The test of `next_delay` on the elapsed time.
unfoldable pub exceeds : Option Duration → Duration → Duration → Bool
exceeds none elapsed delay = false
exceeds (some max_elapsed) elapsed delay = ltb max_elapsed (saturating_add_duration elapsed delay)

-- `RetryPolicy::next_delay`.
unfoldable pub next_delay : RetryPolicy → (ℕ → ℕ) → ℕ → Duration → RetryDecision → Option Duration
unfolding exceeds
next_delay p draw attempt elapsed decision =
    let delay = delay_after p.backoff draw attempt in
    if is_do_not_retry decision || leb p.max_attempts attempt
    then none
    else if exceeds p.max_elapsed elapsed delay
    then none
    else some delay

-- What a run of the loop has done when it returns: its result, how often it called the operation, and
-- the delays that it slept, the last one first.
pub record Run {ℓ κ μ} (S : Type ℓ) (T : Type κ) (E : Type μ) : Type (ℓ ⊔ κ ⊔ μ) where
  pub result : Result T E
  pub state : S
  pub calls : ℕ
  pub sleeps : List Duration

-- What the loop does not implement: the operation, as a change of the caller's state; the clock, read
-- after each attempt; the classifier; and the draws of the jitter.
pub record Caller {ℓ κ μ} (S : Type ℓ) (T : Type κ) (E : Type μ) : Type (ℓ ⊔ κ ⊔ μ) where
  pub operation : S → Result T E × S
  pub elapsed : S → ℕ → Duration
  pub classify : E → RetryDecision
  pub draw : ℕ → ℕ → ℕ

module _ {ℓ κ μ} {S : Type ℓ} {T : Type κ} {E : Type μ} (p : RetryPolicy) (c : Caller S T E) where
  -- The loop of `retry` and of `retry_async`, from an attempt on. `none` means that the fuel ran out.
  unfoldable pub retry_loop : ℕ → ℕ → List Duration → S → Option (Run S T E)
  retry_loop zero attempt sleeps s = none
  retry_loop (suc fuel) attempt sleeps s =
      let (outcome, s') = c.operation s in
      elim outcome [
        | ok value ↦
            some (record { result = ok value; state = s'; calls = attempt; sleeps = sleeps })
        | err error ↦
            elim (next_delay p (c.draw attempt) attempt (c.elapsed s' attempt) (c.classify error)) [
              | none ↦
                  some (record { result = err error; state = s'; calls = attempt; sleeps = sleeps })
              | some delay ↦ retry_loop fuel (attempt + 1) (delay ∷ sleeps) s'
            ]
      ]

  -- `retry`: the loop from the first attempt. As many rounds as attempts are allowed are enough.
  unfoldable pub retry_sync : S → Option (Run S T E)
  unfolding retry_loop
  retry_sync s = retry_loop p.max_attempts 1 [] s
