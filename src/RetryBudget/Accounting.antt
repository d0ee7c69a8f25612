-- ===== src/RetryBudget/Accounting.antt =====
-- src/retry_budget.rs: how many retries any sequence of calls admits.
use svc_resillience_rs.Prelude.{
  ℕ, zero, suc, ◌+◌, ◌-◌, ◌*◌, ◌≤◌, ◌≡◌, refl, ap, min, List, [], ◌∷◌, arith,
}
use svc_resillience_rs.RetryBudget.{
  RetryBudgetConfig, RetryBudgetDecision, admitted, suppressed, SharedRetryBudget, new,
  try_acquire_retry, record_success,
}

pub data Call : Type 0 where
  acquire_retry succeed : Call

abbrev pub admissions : RetryBudgetDecision → ℕ
admissions (admitted remaining) = 1
admissions suppressed = 0

-- What a sequence of calls, from any callers, has done.
pub record Ledger : Type 0 where
  pub budget : SharedRetryBudget
  pub retries : ℕ
  pub successes : ℕ

unfoldable pub enter : Ledger → Call → Ledger
unfolding try_acquire_retry record_success
enter l acquire_retry =
    let (b, decision) = try_acquire_retry l.budget in
    record l { budget = b; retries = l.retries + admissions decision }
enter l succeed = record l { budget = (record_success l.budget).0; successes = l.successes + 1 }

unfoldable pub enter_all : Ledger → List Call → Ledger
unfolding enter
enter_all l [] = l
enter_all l (k ∷ ks) = enter_all (enter l k) ks

pub record IsBalanced (c : RetryBudgetConfig) (l : Ledger) : Type 0 where
  pub config : l.budget.config ≡ c
  pub bounded : l.budget.available ≤ c.capacity
  pub balance : l.budget.available + l.retries ≤ c.capacity + c.replenish_per_success * l.successes

distribute : (a b : ℕ) → a * (b + 1) ≡ a * b + a
distribute a b = omega arith

opened : (c : RetryBudgetConfig) → (new c).config ≡ c
unfolding new
opened c = refl

start_bounded : (c : RetryBudgetConfig) → (new c).available ≤ c.capacity
unfolding new
start_bounded c = omega arith

start_balance :
    (c : RetryBudgetConfig) → (new c).available + 0 ≤ c.capacity + c.replenish_per_success * 0
unfolding new
start_balance c = omega arith

enter-IsBalanced :
    (c : RetryBudgetConfig) (l : Ledger) (k : Call) → IsBalanced c l → IsBalanced c (enter l k)
unfolding enter
enter-IsBalanced c l acquire_retry v = ground arith
enter-IsBalanced c l succeed v =
    let rate : l.budget.config.replenish_per_success ≡ c.replenish_per_success =
      ap (λ d. d.replenish_per_success) v.config in
    let room : l.budget.config.capacity ≡ c.capacity = ap (λ d. d.capacity) v.config in
    record {
      config = v.config;
      bounded = omega (arith, room);
      balance =
          omega (arith, room, rate, v.balance, distribute c.replenish_per_success l.successes);
    }

enter_all-IsBalanced :
    (c : RetryBudgetConfig) (l : Ledger) (ks : List Call)
    → IsBalanced c l
    → IsBalanced c (enter_all l ks)
unfolding enter_all
enter_all-IsBalanced c l [] v = v
enter_all-IsBalanced c l (k ∷ ks) v =
    enter_all-IsBalanced c (enter l k) ks (enter-IsBalanced c l k v)

abbrev pub opening : RetryBudgetConfig → Ledger
opening c = record { budget = new c; retries = 0; successes = 0 }

-- Whatever sequence of calls a budget sees, it never has more tokens than its capacity, and it has
-- admitted at most as many retries as its capacity and `replenish_per_success` for each success pay
-- for, less the tokens that are left.
pub retries_bounded :
    (c : RetryBudgetConfig) (ks : List Call)
    → let l = enter_all (opening c) ks in
      (l.budget.available ≤ c.capacity)
      × (l.budget.available + l.retries ≤ c.capacity + c.replenish_per_success * l.successes)
retries_bounded c ks =
    let v =
      enter_all-IsBalanced c (opening c) ks
        (record { config = opened c; bounded = start_bounded c; balance = start_balance c }) in
    (v.bounded, v.balance)

abbrev pub retries_only : ℕ → List Call
retries_only zero = []
retries_only (suc n) = acquire_retry ∷ retries_only n

enter-acquire_retry :
    (l : Ledger)
    → ((enter l acquire_retry).retries ≡ l.retries + min 1 l.budget.available)
      × ((enter l acquire_retry).budget.available ≡ l.budget.available - 1)
unfolding enter try_acquire_retry
enter-acquire_retry l = ground arith

drained :
    (l : Ledger) (n : ℕ)
    → (enter_all l (retries_only n)).retries ≡ l.retries + min n l.budget.available
unfolding enter_all
drained l zero = omega arith
drained l (suc n) =
    let now = enter-acquire_retry l in
    omega (arith, drained (enter l acquire_retry) n, now.0, now.1)

-- Of any number of retries with no success between them, whoever asks, exactly as many are admitted
-- as the budget has tokens at the start: its capacity.
pub retries_admitted :
    (c : RetryBudgetConfig) (n : ℕ)
    → (enter_all (opening c) (retries_only n)).retries ≡ min n c.capacity
unfolding new
retries_admitted c n = omega (arith, drained (opening c) n)
