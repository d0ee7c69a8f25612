-- ===== src/RetryBudget/Namespace.antt =====
-- src/retry_budget.rs: the two public budgets, of one macro over the shared budget. They are distinct
-- types with the same operations.
use svc_resillience_rs.Prelude.{ℕ, ◌+◌, ◌*◌, ◌≤◌, ◌≡◌, refl, ap, sym, subst, ◌∙◌, List, [], ◌∷◌}
use svc_resillience_rs.RetryBudget.{
  RetryBudgetConfig, RetryBudgetDecision, SharedRetryBudget, PrimaryRetryBudget, ShadowRetryBudget,
  new, try_acquire_retry, record_success,
}
use svc_resillience_rs.RetryBudget.Accounting.{
  Call, acquire_retry, succeed, admissions, Ledger, enter, enter_all, opening, retries_bounded,
}

-- What the macro is given: a type around the shared budget.
pub record Namespace (B : Type 0) : Type 0 where
  pub wrap : SharedRetryBudget → B
  pub inner : B → SharedRetryBudget
  pub inner-wrap : (b : SharedRetryBudget) → inner (wrap b) ≡ b

instance abbrev pub primary_namespace : Namespace PrimaryRetryBudget
primary_namespace = record {
  wrap = λ b. record { inner = b };
  inner = λ b. b.inner;
  inner-wrap = λ b. refl;
}

instance abbrev pub shadow_namespace : Namespace ShadowRetryBudget
shadow_namespace = record {
  wrap = λ b. record { inner = b };
  inner = λ b. b.inner;
  inner-wrap = λ b. refl;
}

module _ {B : Type 0} ⦃n : Namespace B⦄ where
  -- `new` of the public budget.
  unfoldable pub budget_new : RetryBudgetConfig → B
  budget_new config = n.wrap (new config)

  unfoldable pub acquire : B → B × RetryBudgetDecision
  acquire b = let (inner', decision) = try_acquire_retry (n.inner b) in (n.wrap inner', decision)

  unfoldable pub replenish : B → B × ℕ
  replenish b = let (inner', available) = record_success (n.inner b) in (n.wrap inner', available)

  unfoldable pub available_retries : B → ℕ
  available_retries b = (n.inner b).available

  unfoldable pub config_of : B → RetryBudgetConfig
  config_of b = (n.inner b).config

-- What a sequence of calls of a public budget, from any callers, has done.
pub record Book (B : Type 0) : Type 0 where
  pub budget : B
  pub retries : ℕ
  pub successes : ℕ

module _ {B : Type 0} ⦃n : Namespace B⦄ where
  unfoldable pub book : Book B → Call → Book B
  unfolding acquire replenish
  book l acquire_retry =
      let (b, decision) = acquire l.budget in
      record l { budget = b; retries = l.retries + admissions decision }
  book l succeed = record l { budget = (replenish l.budget).0; successes = l.successes + 1 }

  unfoldable pub book_all : Book B → List Call → Book B
  unfolding book
  book_all l [] = l
  book_all l (k ∷ ks) = book_all (book l k) ks

  abbrev pub opening_book : RetryBudgetConfig → Book B
  opening_book c = record { budget = budget_new c; retries = 0; successes = 0 }

  -- The ledger of the shared budget inside.
  abbrev ledger : Book B → Ledger
  ledger l = record { budget = n.inner l.budget; retries = l.retries; successes = l.successes }

  ledger-book : (l : Book B) (k : Call) → ledger (book l k) ≡ enter (ledger l) k
  unfolding book enter
  ledger-book l acquire_retry = rw (n.inner-wrap (try_acquire_retry (n.inner l.budget)).0) refl
  ledger-book l succeed = rw (n.inner-wrap (record_success (n.inner l.budget)).0) refl

  ledger-book_all : (l : Book B) (ks : List Call) → ledger (book_all l ks) ≡ enter_all (ledger l) ks
  unfolding book_all enter_all
  ledger-book_all l [] = refl
  ledger-book_all l (k ∷ ks) = rw (← ledger-book l k) (ledger-book_all (book l k) ks)

module _ (B : Type 0) ⦃n : Namespace B⦄ where
  -- Whatever sequence of calls a public budget, primary or shadow, sees: it never has more tokens
  -- than its capacity, and it has admitted at most as many retries as its capacity and
  -- `replenish_per_success` for each success pay for, less the tokens that are left.
  pub book_all_bounded :
      (c : RetryBudgetConfig) (ks : List Call)
      → let l = book_all (opening_book {B = B} c) ks in
        (available_retries l.budget ≤ c.capacity)
        × (available_retries l.budget + l.retries
            ≤ c.capacity + c.replenish_per_success * l.successes)
  unfolding available_retries budget_new
  book_all_bounded c ks =
      let opened : ledger (opening_book {B = B} c) ≡ opening c = rw (n.inner-wrap (new c)) refl in
      let inside = ledger-book_all (opening_book {B = B} c) ks ∙ ap (λ l. enter_all l ks) opened in
      subst
        (λ (l : Ledger).
          (l.budget.available ≤ c.capacity)
          × (l.budget.available + l.retries ≤ c.capacity + c.replenish_per_success * l.successes))
        (sym inside) (retries_bounded c ks)
