-- ===== src/Retry/Loop.antt =====
-- src/retry.rs: the runs of the retry loop.
use svc_resillience_rs.Prelude.{
  ℕ, zero, suc, ◌+◌, ◌-◌, ◌≤◌, ◌<◌, max, ◌≡◌, refl, ap, sym, ◌∙◌, ◌⊎◌, inl, inr, true, none, some,
  List, [], ◌∷◌, arith, length, Result, ok, err, Duration, Option-cases, Result-cases,
}
use svc_resillience_rs.Retry.{
  retry, do_not_retry, RetryPolicy, delay_after, exceeds, next_delay, Run, Caller, retry_loop,
  retry_sync,
}
use svc_resillience_rs.Retry.Delays.{next_delay-some, next_delay-none}

module _ {S T E : Type 0} (p : RetryPolicy) (c : Caller S T E) where
  -- The caller's state after `n` calls of the operation.
  abbrev pub state_after : ℕ → S → S
  state_after zero s = s
  state_after (suc n) s = state_after n (c.operation s).1

  -- The outcome of the call after `n` others.
  abbrev pub outcome_after : ℕ → S → Result T E
  outcome_after n s = (c.operation (state_after n s)).0

  abbrev pub IsRetryable : Result T E → Type 0
  IsRetryable (ok value) = ⊥
  IsRetryable (err error) = c.classify error ≡ retry

  -- The first `n` calls all failed with errors that the classifier calls retryable.
  abbrev pub AllRetryable : ℕ → S → Type 0
  AllRetryable zero s = Unit
  AllRetryable (suc n) s = IsRetryable (c.operation s).0 × AllRetryable n (c.operation s).1

  -- Why the loop ends at an attempt whose outcome, and the clock after it, are given.
  abbrev pub Stops : ℕ → Duration → Result T E → Type 0
  Stops attempt elapsed (ok value) = Unit
  Stops attempt elapsed (err error) =
      (c.classify error ≡ do_not_retry)
      ⊎ (p.max_attempts ≤ attempt)
      ⊎ (exceeds p.max_elapsed elapsed (delay_after p.backoff (c.draw attempt) attempt) ≡ true)

  -- What a run from an attempt on has done: `retries` more calls than one.
  pub record Explains (attempt slept : ℕ) (s : S) (r : Run S T E) : Type 0 where
    pub retries : ℕ
    pub calls : r.calls ≡ attempt + retries
    pub within : r.calls ≤ max p.max_attempts attempt
    pub last : r.result ≡ outcome_after retries s
    pub after : r.state ≡ state_after (suc retries) s
    pub earlier : AllRetryable retries s
    pub stops : Stops r.calls (c.elapsed r.state r.calls) r.result
    pub slept_once_each : length r.sleeps ≡ retries + slept

  pub loop-ok :
      (fuel attempt : ℕ) (sleeps : List Duration) (s : S) (value : T)
      → (c.operation s).0 ≡ ok value
      → retry_loop p c (suc fuel) attempt sleeps s
        ≡ some (record {
          result = ok value;
          state = (c.operation s).1;
          calls = attempt;
          sleeps = sleeps;
        })
  unfolding retry_loop
  loop-ok fuel attempt sleeps s value e = rw (e, retry_loop) refl

  module _ (fuel attempt : ℕ) (sleeps : List Duration) (s : S) (error : E)
      (failed : (c.operation s).0 ≡ err error) where
    pub loop-none :
        next_delay p
            (c.draw attempt)
            attempt
            (c.elapsed (c.operation s).1 attempt)
            (c.classify error)
          ≡ none
        → retry_loop p c (suc fuel) attempt sleeps s
          ≡ some (record {
            result = err error;
            state = (c.operation s).1;
            calls = attempt;
            sleeps = sleeps;
          })
    unfolding retry_loop
    loop-none n = ground arith

    pub loop-some :
        (delay : Duration)
        → next_delay p
            (c.draw attempt)
            attempt
            (c.elapsed (c.operation s).1 attempt)
            (c.classify error)
          ≡ some delay
        → retry_loop p c (suc fuel) attempt sleeps s
          ≡ retry_loop p c fuel (attempt + 1) (delay ∷ sleeps) (c.operation s).1
    unfolding retry_loop
    loop-some delay n = ground arith

  -- A round that retries, put before what the rest of the run does.
  Explains-again :
      (attempt : ℕ) (sleeps : List Duration) (s : S) (error : E) (delay : Duration) (r : Run S T E)
      → (c.operation s).0 ≡ err error
      → c.classify error ≡ retry
      → attempt < p.max_attempts
      → Explains (attempt + 1) (length (delay ∷ sleeps)) (c.operation s).1 r
      → Explains attempt (length sleeps) s r
  Explains-again attempt sleeps s error delay r e d l x = record {
    retries = suc x.retries;
    calls = omega (arith, x.calls);
    within = omega (arith, x.within);
    last = x.last;
    after = x.after;
    earlier = (rw e d, x.earlier);
    stops = x.stops;
    slept_once_each = omega (arith, x.slept_once_each);
  }

  Stops-here :
      (attempt : ℕ) (sleeps : List Duration) (s : S) (result : Result T E)
      → (c.operation s).0 ≡ result
      → Stops attempt (c.elapsed (c.operation s).1 attempt) result
      → Explains attempt
          (length sleeps)
          s
          (record { result = result; state = (c.operation s).1; calls = attempt; sleeps = sleeps })
  Stops-here attempt sleeps s result e stop = record {
    retries = 0;
    calls = omega arith;
    within = omega arith;
    last = sym e;
    after = refl;
    earlier = tt;
    stops = stop;
    slept_once_each = omega arith;
  }

  abbrev Finishes : ℕ → ℕ → List Duration → S → Type 0
  Finishes fuel attempt sleeps s =
      (r : Run S T E) × (retry_loop p c fuel attempt sleeps s ≡ some r)
      × Explains attempt (length sleeps) s r

  loop-failed :
      (fuel attempt : ℕ) (sleeps : List Duration) (s : S) (error : E)
      → (c.operation s).0 ≡ err error
      → p.max_attempts ≤ attempt + fuel
      → ((delay : Duration)
          → attempt < p.max_attempts
          → Finishes fuel (attempt + 1) (delay ∷ sleeps) (c.operation s).1)
      → Finishes (suc fuel) attempt sleeps s
  loop-failed fuel attempt sleeps s error e l rest =
      elim (Option-cases (
        next_delay p (c.draw attempt) attempt (c.elapsed (c.operation s).1 attempt)
          (c.classify error))) [
            | inl n ↦ (
              _,
              loop-none fuel attempt sleeps s error e n,
              Stops-here attempt sleeps s (err error) e (next_delay-none p _ _ _ _ n),
            )
            | inr (delay, n) ↦
                let granted = next_delay-some p _ _ _ _ delay n in
                let (r, returns, x) = rest delay granted.1 in
                (
                  r,
                  loop-some fuel attempt sleeps s error e delay n ∙ returns,
                  Explains-again attempt sleeps s error delay r e granted.0 granted.1 x,
                )
          ]

  loop-ends :
      (fuel attempt : ℕ) (sleeps : List Duration) (s : S)
      → p.max_attempts ≤ attempt + fuel
      → ((error : E) → (c.operation s).0 ≡ err error → Finishes (suc fuel) attempt sleeps s)
      → Finishes (suc fuel) attempt sleeps s
  loop-ends fuel attempt sleeps s l failed = elim (Result-cases (c.operation s).0) [
    | inl (value, e) ↦
        (_, loop-ok fuel attempt sleeps s value e, Stops-here attempt sleeps s (ok value) e tt)
    | inr (error, e) ↦ failed error e
  ]

  loop-Finishes :
      (fuel attempt : ℕ) (sleeps : List Duration) (s : S)
      → p.max_attempts ≤ attempt + fuel
      → Finishes (suc fuel) attempt sleeps s
  loop-Finishes zero attempt sleeps s l =
      loop-ends zero attempt sleeps s l
        λ error e. loop-failed zero attempt sleeps s error e l λ delay h. absurd (omega arith)
  loop-Finishes (suc fuel) attempt sleeps s l = loop-ends (suc fuel) attempt sleeps s l λ error e.
      loop-failed (suc fuel) attempt sleeps s error e l
        λ delay h. loop-Finishes fuel (attempt + 1) (delay ∷ sleeps) (c.operation s).1 (omega arith)

  -- With a policy that allows at least one attempt `retry` always returns, after at most
  -- `max_attempts` calls of the operation. Its result and the caller's state are those of the last
  -- call; every earlier call failed with an error that the classifier called retryable, and it
  -- slept exactly once after each; and if it returns an error, then that error is not retryable,
  -- or the attempts are used up, or the next delay would exceed the budget of elapsed time.
  pub retry_returns :
      (s : S)
      → 0 < p.max_attempts
      → (r : Run S T E) × (retry_sync p c s ≡ some r)
        × Explains 1 0 s r
        × (r.calls ≤ p.max_attempts)
  unfolding retry_sync
  retry_returns s pos =
      let (r, returns, x) = loop-Finishes (p.max_attempts - 1) 1 [] s (omega arith) in
      let fuel : p.max_attempts ≡ suc (p.max_attempts - 1) = omega arith in
      (r, ap (λ n. retry_loop p c n 1 [] s) fuel ∙ returns, x, omega (arith, x.within))
