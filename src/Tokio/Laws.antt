-- ===== src/Tokio/Laws.antt =====
-- src/tokio_runtime.rs: which time a future gets and which stop is reported, and the two checks
-- around a backoff sleep.
use svc_resillience_rs.Prelude.{
  ℕ, ◌+◌, ◌-◌, ◌≤◌, ◌<◌, ◌≡◌, ◌⊎◌, min, not, Option, arith, if◌then◌else◌, ok, err, ok_or, is_ok,
  Duration,
}
use svc_resillience_rs.Deadline.{bounded, is_exhausted, clamp_child, can_wait}
use svc_resillience_rs.Deadline.Laws.{can_wait_iff}
use svc_resillience_rs.Tokio.{
  logical_deadline_exceeded, child_timeout, backoff_would_exhaust_budget, TokioRequestBudget,
  from_start, timeout, sleep_backoff,
}

-- Under a limit, a timeout that starts at or after the deadline reports it without giving the future
-- any time; one whose requested time ends before the deadline gives the future that time, and running
-- out of it is a child timeout; any other gives the future what is left until the deadline, and
-- running out of that is the logical deadline.
pub timeout_cases :
    {T : Type 0} (limit started now requested : ℕ) (future : Duration → Option T)
    → let result = timeout (from_start (bounded limit) started) now requested future in
      ((limit ≤ now - started) × (result ≡ err logical_deadline_exceeded))
      ⊎ ((now - started + requested < limit) × (result ≡ ok_or (future requested) child_timeout))
      ⊎ ((now - started < limit)
          × (limit ≤ now - started + requested)
          × (result ≡ ok_or (future (limit - (now - started))) logical_deadline_exceeded))
unfolding timeout from_start bounded is_exhausted clamp_child
timeout_cases limit started now requested future =
    let e : ℕ = now - started in
    let whole : e + requested < limit → min requested (limit - e) ≡ requested = λ h. omega arith in
    let part : limit ≤ e + requested → min requested (limit - e) ≡ limit - e = λ h. omega arith in
    ground (arith, whole, part)

-- A backoff sleep that starts no earlier than the budget and wakes on time ends well exactly if
-- the check before it allowed the wait, and its only other end is `BackoffWouldExhaustBudget`: the
-- check after it never differs. However late it wakes, a sleep was refused by the first check, or
-- ends well exactly if the budget is not exhausted on waking.
pub sleep_backoff_agrees :
    (b : TokioRequestBudget) (now delay woken : ℕ)
    → b.started ≤ now
    → (sleep_backoff b now (now + delay) delay ≡ (
        if can_wait b.core (now - b.started) delay
        then ok tt
        else err backoff_would_exhaust_budget))
      × ((sleep_backoff b now woken delay ≡ err backoff_would_exhaust_budget)
          ⊎ (is_exhausted b.core (woken - b.started)
              ≡ not (is_ok (sleep_backoff b now woken delay))))
unfolding sleep_backoff
sleep_backoff_agrees b now delay woken h =
    let on_time : now + delay - b.started ≡ now - b.started + delay = omega arith in
    ground (arith, on_time, can_wait_iff b.core (now - b.started) delay)
