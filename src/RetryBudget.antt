-- ===== src/RetryBudget.antt =====
-- src/retry_budget.rs: the shared cross-request retry budget. `PrimaryRetryBudget` and
-- `ShadowRetryBudget` are two types that the macro makes over one `SharedRetryBudget`; each call
-- holds the lock, so callers interleave call by call.
pub mod Accounting
pub mod Namespace
use svc_resillience_rs.Prelude.{
  ℕ, ◌+◌, ◌-◌, min, List, [], ◌∷◌, ◌==◌, if◌then◌else◌, saturating_add_u32,
}

-- Both numbers are positive.
pub record RetryBudgetConfig : Type 0 where
  pub capacity : ℕ
  pub replenish_per_success : ℕ

pub data RetryBudgetDecision : Type 0 where
  admitted : (remaining : ℕ) → RetryBudgetDecision
  suppressed : RetryBudgetDecision

pub record SharedRetryBudget : Type 0 where
  pub config : RetryBudgetConfig
  pub available : ℕ

unfoldable pub new : RetryBudgetConfig → SharedRetryBudget
new config = record { config = config; available = config.capacity }

unfoldable pub try_acquire_retry : SharedRetryBudget → SharedRetryBudget × RetryBudgetDecision
try_acquire_retry b =
    if b.available == 0
    then (b, suppressed)
    else (record b { available = b.available - 1 }, admitted (b.available - 1))

unfoldable pub record_success : SharedRetryBudget → SharedRetryBudget × ℕ
record_success b =
    let available' =
      min (saturating_add_u32 b.available b.config.replenish_per_success) b.config.capacity in
    (record b { available = available' }, available')

-- The two namespaces that the macro makes.
pub record PrimaryRetryBudget : Type 0 where
  pub inner : SharedRetryBudget

pub record ShadowRetryBudget : Type 0 where
  pub inner : SharedRetryBudget
