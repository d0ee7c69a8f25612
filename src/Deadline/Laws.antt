-- ===== src/Deadline/Laws.antt =====
-- src/deadline.rs: the promises of a request's budget to the work below it.
use svc_resillience_rs.Prelude.{
  ◌+◌, ◌≤◌, ◌≡◌, ◌⊎◌, max, true, false, not, Option, none, some, arith, Duration,
}
use svc_resillience_rs.Deadline.{
  LogicalRequestBudget, remaining, is_exhausted, clamp_child, can_wait, bounded, unlimited,
}

-- A wait is allowed exactly if the budget is not used up when the wait is over: the check of a budget
-- after waking and the check before sleeping agree, on every limit.
pub can_wait_iff :
    (b : LogicalRequestBudget) (elapsed delay : Duration)
    → can_wait b elapsed delay ≡ not (is_exhausted b (elapsed + delay))
unfolding can_wait is_exhausted
can_wait_iff b elapsed delay = ground arith

-- Work that is clamped to the budget gets no more time than it asked for, and, on a bounded budget that
-- is not exhausted, is over by the limit; on an exhausted one it gets none.
pub clamp_child_bounds :
    (limit elapsed requested : Duration)
    → (clamp_child (bounded limit) elapsed requested ≤ requested)
      × (elapsed + clamp_child (bounded limit) elapsed requested ≤ max limit elapsed)
      × ((is_exhausted (bounded limit) elapsed ≡ true)
          ⊎ ((elapsed + clamp_child (bounded limit) elapsed requested ≤ limit)
              × (is_exhausted (bounded limit) elapsed ≡ false)))
      × (clamp_child unlimited elapsed requested ≡ requested)
unfolding clamp_child is_exhausted bounded unlimited
clamp_child_bounds limit elapsed requested = ground arith

abbrev pub Left : Option Duration → Option Duration → Type 0
Left (some a) (some b) = a ≤ b
Left none none = Unit
Left _ _ = ⊥

-- As time goes on the budget that remains never grows, and an exhausted budget stays exhausted.
pub remaining_falls :
    (b : LogicalRequestBudget) (elapsed later : Duration)
    → elapsed ≤ later
    → Left (remaining b later) (remaining b elapsed)
      × ((is_exhausted b elapsed ≡ false) ⊎ (is_exhausted b later ≡ true))
unfolding remaining is_exhausted
remaining_falls b elapsed later h = ground arith
