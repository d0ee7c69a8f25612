-- ===== src/Tower/Stops.antt =====
-- src/tower_adapter.rs: the stops that the waits of a round report.
use svc_resillience_rs.Prelude.{
  ℕ, inl, inr, Option, none, some, arith, Result, ok, err, ok_or, Duration, Bool-cases,
}
use svc_resillience_rs.Deadline.{is_exhausted}
use svc_resillience_rs.Tokio.{
  TokioExecutionStop, caller_cancelled, TokioRequestBudget, elapsed, stop_of, sleep_backoff,
}
use svc_resillience_rs.Tower.{timeout_state}

abbrev pub IsRuntimeStop : TokioExecutionStop → Type 0
IsRuntimeStop caller_cancelled = ⊥
IsRuntimeStop _ = Unit

abbrev pub StopsWell {ℓ} : {A : Type ℓ} → Result A TokioExecutionStop → Type 0
StopsWell (err stop) = IsRuntimeStop stop
StopsWell (ok a) = Unit

stop_of-IsRuntimeStop :
    (left : Option Duration) (requested : Duration) → IsRuntimeStop (stop_of left requested)
unfolding stop_of
stop_of-IsRuntimeStop none requested = tt
stop_of-IsRuntimeStop (some left) requested = ground arith

ok_or-StopsWell :
    {A : Type 0} (o : Option A) (stop : TokioExecutionStop)
    → IsRuntimeStop stop
    → StopsWell (ok_or o stop)
ok_or-StopsWell none stop h = h
ok_or-StopsWell (some a) stop h = tt

pub timeout_state-StopsWell :
    {A S : Type 0} (b : TokioRequestBudget) (now : ℕ) (requested : Duration)
    (future : Duration → Option A × S) (s : S)
    → StopsWell (timeout_state b now requested future s).0
unfolding timeout_state
timeout_state-StopsWell b now requested future s =
    elim (Bool-cases (is_exhausted b.core (elapsed b now))) [
      | inl e ↦ rw (e, timeout_state) tt
      | inr e ↦ rw (e, timeout_state) (ok_or-StopsWell _ _ (stop_of-IsRuntimeStop _ requested))
    ]

pub sleep_backoff-StopsWell :
    (b : TokioRequestBudget) (now woken : ℕ) (delay : Duration)
    → StopsWell (sleep_backoff b now woken delay)
unfolding sleep_backoff
sleep_backoff-StopsWell b now woken delay = ground arith
