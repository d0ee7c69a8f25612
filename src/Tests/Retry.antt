-- ===== src/Tests/Retry.antt =====
-- Runs of src/retry.rs, src/retry_budget.rs and src/deadline.rs.
use svc_resillience_rs.Prelude.{
  ℕ, ◌+◌, ◌*◌, ◌≡◌, refl, List, [], ◌∷◌, some, Result, ok, err, ◌≤◌, arith, ◌==◌, if◌then◌else◌,
}
use svc_resillience_rs.Prelude.Words.{saturating_pow_u32}
use svc_resillience_rs.Retry.{
  retry, full, equal, zero_initial_delay, maximum_below_initial, factor_below_one,
  display_backoff_error, ExponentialBackoff, backoff_new, delay_after, RetryPolicy, policy_new,
  with_max_elapsed, next_delay, Run, Caller, retry_sync,
}
use svc_resillience_rs.Retry.Backoff.{IsDraw, IsJittered, delay_after_bounds}
use svc_resillience_rs.Retry.Loop.{Explains, retry_returns}
use svc_resillience_rs.RetryBudget.{RetryBudgetConfig}
use svc_resillience_rs.RetryBudget.{
  PrimaryRetryBudget, ShadowRetryBudget, try_acquire_retry, record_success, new,
}
use svc_resillience_rs.RetryBudget.Namespace.{
  Book, primary_namespace, shadow_namespace, book_all, opening_book, budget_new, available_retries,
  book_all_bounded,
}
use svc_resillience_rs.RetryBudget.Accounting.{Call, acquire_retry, succeed}

abbrev doubling : ExponentialBackoff
doubling = record { initial = 10; maximum = 1000; factor = 2; jitter = equal }

backoffs :
    (backoff_new 0 10 2 full ≡ err zero_initial_delay)
    × (backoff_new 10 9 2 full ≡ err maximum_below_initial)
    × (backoff_new 10 10 0 full ≡ err factor_below_one)
    × (display_backoff_error factor_below_one ≡ "backoff factor must be at least one")
unfolding backoff_new display_backoff_error
backoffs = (refl, refl, refl, refl)

doubling_ok : backoff_new 10 1000 2 equal ≡ ok doubling
unfolding backoff_new
doubling_ok = refl

least : IsDraw (λ n. 0)
least n = omega arith

delay_after_bounds_example :
    IsJittered equal 80 (delay_after doubling (λ n. 0) 4) × (delay_after doubling (λ n. 0) 4 ≤ 1000)
delay_after_bounds_example = delay_after_bounds doubling (λ n. 0) 4 least (omega arith)

abbrev three_times : RetryPolicy
three_times = record { max_attempts = 3; max_elapsed = some 100; backoff = doubling }

three_times_built : with_max_elapsed (policy_new 3 doubling) 100 ≡ three_times
unfolding with_max_elapsed policy_new
three_times_built = refl

-- An operation that fails twice and then succeeds; its state is the number of calls so far.
abbrev flaky : ℕ → Result ℕ ℕ × ℕ
flaky calls = (if calls == 2 then ok 42 else err calls, calls + 1)

abbrev flaky_caller : Caller ℕ ℕ ℕ
flaky_caller = record {
  operation = flaky;
  elapsed = λ s attempt. attempt;
  classify = λ e. retry;
  draw = λ attempt n. 0;
}

flaky_run :
    retry_sync three_times flaky_caller 0
    ≡ some (record { result = ok 42; state = 3; calls = 3; sleeps = 10 ∷ 5 ∷ [] })
unfolding retry_sync next_delay delay_after saturating_pow_u32
flaky_run = refl

retry_returns_example :
    (r : Run ℕ ℕ ℕ) × (retry_sync three_times flaky_caller 0 ≡ some r)
    × Explains three_times flaky_caller 1 0 0 r
    × (r.calls ≤ 3)
retry_returns_example = retry_returns three_times flaky_caller 0 (omega arith)

abbrev small_budget : RetryBudgetConfig
small_budget = record { capacity = 2; replenish_per_success = 1 }

abbrev traffic : List Call
traffic = acquire_retry ∷ acquire_retry ∷ acquire_retry ∷ succeed ∷ acquire_retry ∷ []

abbrev primary_book : Book PrimaryRetryBudget
primary_book = book_all (opening_book small_budget) traffic

-- The third retry is refused; the success pays for the fourth.
booked : primary_book ≡ record {
  budget = record { inner = record { config = small_budget; available = 0 } };
  retries = 3;
  successes = 1;
}
unfolding book_all budget_new try_acquire_retry record_success new
booked = refl

book_all_bounded_example :
    (available_retries (book_all (opening_book {B = ShadowRetryBudget} small_budget) traffic).budget
      ≤ 2)
    × (available_retries
            (book_all (opening_book {B = ShadowRetryBudget} small_budget) traffic).budget
          + (book_all (opening_book {B = ShadowRetryBudget} small_budget) traffic).retries
        ≤ 2 + 1 * (book_all (opening_book {B = ShadowRetryBudget} small_budget) traffic).successes)
book_all_bounded_example = book_all_bounded ShadowRetryBudget small_budget traffic
