-- ===== src/Tests/Tokio.antt =====
-- Runs of src/tokio_runtime.rs.
use svc_resillience_rs.Prelude.{
  ℕ, ◌≡◌, refl, true, if◌then◌else◌, Option, none, some, ok, err, Duration, leb,
}
use svc_resillience_rs.Deadline.{is_exhausted, clamp_child}
use svc_resillience_rs.Tokio.{
  caller_cancelled, logical_deadline_exceeded, child_timeout, TokioRequestBudget, remaining,
  timeout, timeout_or_cancel,
}

-- A future that needs 30 ns.
abbrev thirty : Duration → Option ℕ
thirty given = if leb 30 given then some 42 else none

abbrev hundred : TokioRequestBudget
hundred = record { core = record { limit = some 100 }; started = 5 }

runs :
    (timeout hundred 15 50 thirty ≡ ok 42)
    × (timeout hundred 15 20 thirty ≡ err child_timeout)
    × (timeout hundred 95 20 thirty ≡ err logical_deadline_exceeded)
    × (timeout_or_cancel hundred 15 50 thirty true ≡ err caller_cancelled)
    × (remaining hundred 95 ≡ some 10)
unfolding timeout timeout_or_cancel remaining is_exhausted clamp_child
runs = (refl, refl, refl, refl, refl)
