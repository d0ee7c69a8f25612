-- ===== src/Tower/Readiness.antt =====
-- src/tower_adapter.rs: waiting for readiness, and the call that follows.
use svc_resillience_rs.Prelude.{
  ℕ, zero, suc, ◌<◌, ◌≡◌, refl, ◌∙◌, arith, some, Result, ok, err, map_err,
}
use svc_resillience_rs.Tower.{TowerRequestFactory, readiness, Downstream, service_call}
use svc_resillience_rs.Tower.Service.{
  TowerRetryLayer, layer, TowerRetryService, Poll, pending, done, readiness_of, poll_ready,
  ready_for, call,
}

module _ {I E : Type 0} (poll : I → Poll (Result {0, 0} Unit E) × I) where
  -- The wrapped service after `n` polls.
  abbrev pub polled : ℕ → I → I
  polled zero i = i
  polled (suc n) i = polled n (poll i).1

  -- The first `n` polls all found it pending.
  abbrev pub AllPending : ℕ → I → Type 0
  AllPending zero i = Unit
  AllPending (suc n) i = ((poll i).0 ≡ pending) × AllPending n (poll i).1

  answered :
      (polls : ℕ) (s : TowerRetryService I E) (answer : Result {0, 0} Unit E)
      → (poll s.inner).0 ≡ done answer
      → ready_for poll (suc polls) s
        ≡ some (map_err readiness answer, record s { inner = (poll s.inner).1 })
  unfolding ready_for poll_ready readiness_of
  answered polls s (ok u) h = ground arith
  answered polls s (err error) h = ground arith

  still_pending :
      (polls : ℕ) (s : TowerRetryService I E)
      → (poll s.inner).0 ≡ pending
      → ready_for poll (suc polls) s ≡ ready_for poll polls (record s { inner = (poll s.inner).1 })
  unfolding ready_for poll_ready readiness_of
  still_pending polls s h = ground arith

  ready_for-polled :
      (n polls : ℕ) (s : TowerRetryService I E) (answer : Result {0, 0} Unit E)
      → n < polls
      → AllPending n s.inner
      → (poll (polled n s.inner)).0 ≡ done answer
      → ready_for poll polls s
        ≡ some (map_err readiness answer, record s { inner = polled (suc n) s.inner })
  ready_for-polled n zero s answer l h a = absurd (omega arith)
  ready_for-polled zero (suc polls) s answer l h a = answered polls s answer a
  ready_for-polled (suc n) (suc polls) s answer l h a =
      still_pending polls s h.0
      ∙ ready_for-polled n polls (record s { inner = (poll s.inner).1 }) answer (omega arith) h.1 a

  -- If the wrapped service is pending for `n` polls and then answers, `ready_for` gives that answer,
  -- with an error as `readiness`, once it may poll more than `n` times. A call that follows is made by
  -- the instance that was polled, with the layer's policy and classifier, and the service keeps a clone
  -- of it.
  pub ready_for-call :
      {W T : Type 0} (n polls : ℕ) (l : TowerRetryLayer E) (inner : I)
      (answer : Result {0, 0} Unit E) (clone : I → I) (d : Downstream (I × W) T E)
      (r : TowerRequestFactory) (w : W)
      → n < polls
      → AllPending n inner
      → (poll (polled n inner)).0 ≡ done answer
      → (ready_for poll polls (layer l inner)
          ≡ some (map_err readiness answer, layer l (polled (suc n) inner)))
        × (call clone d (layer l (polled (suc n) inner)) r w ≡ (
          layer l (clone (polled (suc n) inner)),
          service_call l.policy r (record d { classify = l.classify }) (polled (suc n) inner, w),
        ))
  unfolding layer call
  ready_for-call n polls l inner answer clone d r w fits h a =
      (ready_for-polled n polls (layer l inner) answer fits h a, refl)
