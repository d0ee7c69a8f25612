-- ===== src/Deadline.antt =====
-- src/deadline.rs: the time budget of one logical request. Elapsed time is an argument.
pub mod Laws
use svc_resillience_rs.Prelude.{
  ℕ, ◌-◌, min, Bool, true, false, not, ◌&&◌, Option, none, some, leb, ltb, ◌==◌, Duration,
}
use mathlib.Core.Option

pub record LogicalRequestBudget : Type 0 where
  pub limit : Option Duration

unfoldable pub unlimited : LogicalRequestBudget
unlimited = record { limit = none }

unfoldable pub bounded : Duration → LogicalRequestBudget
bounded limit = record { limit = some limit }

-- `Duration::saturating_sub` is the truncated difference.
unfoldable pub remaining : LogicalRequestBudget → Duration → Option Duration
remaining b elapsed = Option.map (λ limit. limit - elapsed) b.limit

unfoldable pub is_exhausted : LogicalRequestBudget → Duration → Bool
is_exhausted b elapsed = elim b.limit [ none ↦ false | some limit ↦ leb limit elapsed ]

unfoldable pub clamp_child : LogicalRequestBudget → Duration → Duration → Duration
unfolding remaining
clamp_child b elapsed requested = elim (remaining b elapsed) [
  | some left ↦ min requested left
  | none ↦ requested
]

unfoldable pub can_wait : LogicalRequestBudget → Duration → Duration → Bool
unfolding remaining
can_wait b elapsed delay = elim (remaining b elapsed) [
  | some left ↦ not (left == 0) && ltb delay left
  | none ↦ true
]
