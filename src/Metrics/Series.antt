-- ===== src/Metrics/Series.antt =====
-- src/metrics_adapter.rs: the label sets that the observer writes to.
use text.Mathlib.TextPositions.{eq_refl}
use svc_resillience_rs.Prelude.{
  ◌≡◌, ◌↔◌, refl, Bool, true, Option, none, some, List, [], ◌∷◌, map, String, if◌then◌else◌, All,
  Duration, ok,
}
use svc_resillience_rs.Route.{RouteId, route_id_new}
use svc_resillience_rs.Metrics.Vocabulary.{
  member, is_route_key, vocabulary, role_member, rejection_member, suppression_member,
  outcome_member, stage_member, sampling_member, state_member, bool_member, or_true, route_member,
}
use svc_resillience_rs.Observability.{
  TrafficRole, RejectionReason, ResilienceEvent, attempt_admitted, attempt_rejected,
  attempt_completed, retry_scheduled, retry_suppressed, breaker_transition, bulkhead_admission,
  route_selected, route_failover, shadow_sampled, shadow_completed,
}
use svc_resillience_rs.Metrics.{route_label, Labels, Emission, counter, histogram, emissions}

abbrev optional : Option RouteId → List RouteId
optional none = []
optional (some i) = i ∷ []

-- The routes that an event is about.
abbrev pub routes_of : ResilienceEvent → List RouteId
routes_of (attempt_admitted role i ordinal) = i ∷ []
routes_of (attempt_rejected role i reason) = optional i
routes_of (attempt_completed role i ordinal outcome latency) = i ∷ []
routes_of (retry_scheduled role i ordinal backoff) = i ∷ []
routes_of (retry_suppressed role i ordinal reason) = i ∷ []
routes_of (breaker_transition role i from to) = i ∷ []
routes_of (bulkhead_admission role i admitted) = i ∷ []
routes_of (route_selected role generation i) = i ∷ []
routes_of (route_failover generation ordinal i j outcome) = i ∷ optional j
routes_of (shadow_sampled generation outcome) = []
routes_of (shadow_completed generation i outcome) = i ∷ []
routes_of (ResilienceEvent.logical_deadline_exhausted role stage) = []

-- The event with its ordinals, generation and duration taken away.
abbrev pub without_numbers : ResilienceEvent → ResilienceEvent
without_numbers (attempt_admitted role i ordinal) = attempt_admitted role i 0
without_numbers (attempt_completed role i ordinal outcome latency) =
    attempt_completed role i 0 outcome 0
without_numbers (retry_scheduled role i ordinal backoff) = retry_scheduled role i 0 0
without_numbers (retry_suppressed role i ordinal reason) = retry_suppressed role i 0 reason
without_numbers (route_selected role generation i) = route_selected role 0 i
without_numbers (route_failover generation ordinal i j outcome) = route_failover 0 0 i j outcome
without_numbers (shadow_sampled generation outcome) = shadow_sampled 0 outcome
without_numbers (shadow_completed generation i outcome) = shadow_completed 0 i outcome
without_numbers e = e

-- A label names one of the routes, or `none`; or it is of the vocabulary.
abbrev pub is_bounded : List RouteId → String × String → Bool
is_bounded routes (key, value) =
    member value
      (if is_route_key key then "none" ∷ map (λ (i : RouteId). i.id) routes else vocabulary)

module _ {F : Type 0} where
  abbrev pub labels_of : Emission F → Labels
  labels_of (counter name labels increment) = labels
  labels_of (histogram name labels value) = labels

  abbrev pub name_of : Emission F → String
  name_of (counter name labels increment) = name
  name_of (histogram name labels value) = name

  abbrev pub series_of : Emission F → String × Labels
  series_of m = (name_of m, labels_of m)

  -- All labels of an emission are bounded.
  abbrev pub IsBounded : List RouteId → Emission F → Type 0
  IsBounded routes m = All (λ label. is_bounded routes label ≡ true) (labels_of m)

member-optional :
    (o : Option RouteId)
    → member (route_label o) ("none" ∷ map (λ (i : RouteId). i.id) (optional o)) ≡ true
unfolding route_label
member-optional none = refl
member-optional (some i) = route_member i []

member_next :
    (i : RouteId) (o : Option RouteId)
    → member (route_label o) ("none" ∷ i.id ∷ map (λ (j : RouteId). j.id) (optional o)) ≡ true
unfolding route_label
member_next i none = refl
member_next i (some j) = simp (eq_refl, or_true)

module _ {F : Type 0} (as_secs_f64 : Duration → F) where
  emissions_known : (e : ResilienceEvent) → All (IsBounded (routes_of e)) (emissions as_secs_f64 e)
  unfolding emissions
  emissions_known (attempt_admitted role i ordinal) =
      ((role_member role, (route_member i [], tt)), tt)
  emissions_known (attempt_rejected role i reason) =
      ((role_member role, (member-optional i, (rejection_member reason, tt))), tt)
  emissions_known (attempt_completed role i ordinal outcome latency) = (
    (role_member role, (route_member i [], (outcome_member outcome, tt))),
    ((role_member role, (route_member i [], (outcome_member outcome, tt))), tt),
  )
  emissions_known (retry_scheduled role i ordinal backoff) = (
    (role_member role, (route_member i [], tt)),
    ((role_member role, (route_member i [], tt)), tt),
  )
  emissions_known (retry_suppressed role i ordinal reason) =
      ((role_member role, (route_member i [], (suppression_member reason, tt))), tt)
  emissions_known (breaker_transition role i from to) =
      ((role_member role, (route_member i [], (state_member from, (state_member to, tt)))), tt)
  emissions_known (bulkhead_admission role i admitted) =
      ((role_member role, (route_member i [], (bool_member admitted, tt))), tt)
  emissions_known (route_selected role generation i) =
      ((role_member role, (route_member i [], tt)), tt)
  emissions_known (route_failover generation ordinal i j outcome) =
      ((route_member i _, (member_next i j, (outcome_member outcome, tt))), tt)
  emissions_known (shadow_sampled generation outcome) = ((sampling_member outcome, tt), tt)
  emissions_known (shadow_completed generation i outcome) =
      ((route_member i [], (outcome_member outcome, tt)), tt)
  emissions_known (ResilienceEvent.logical_deadline_exhausted role stage) =
      ((role_member role, (stage_member stage, tt)), tt)

  unlabelled :
      (e : ResilienceEvent)
      → map series_of (emissions as_secs_f64 e)
        ≡ map series_of (emissions as_secs_f64 (without_numbers e))
  unfolding emissions
  unlabelled (attempt_admitted role i ordinal) = refl
  unlabelled e = refl

  -- The labels of a route are `none` or the identifier of a route of the event, every other label is
  -- of a fixed vocabulary of 25 texts, and which series an event writes to does not depend on its
  -- ordinals, its generation or its duration.
  pub emissions-IsBounded :
      (e : ResilienceEvent)
      → All (IsBounded (routes_of e)) (emissions as_secs_f64 e)
        × (map series_of (emissions as_secs_f64 e)
            ≡ map series_of (emissions as_secs_f64 (without_numbers e)))
  emissions-IsBounded e = (emissions_known e, unlabelled e)

  label_injective :
      (role : TrafficRole) (reason : RejectionReason) (i : RouteId)
      → emissions as_secs_f64 (attempt_rejected role none reason)
        ≡ emissions as_secs_f64 (attempt_rejected role (some i) reason)
      → i.id ≡ "none"
  unfolding emissions route_label
  label_injective role reason i h = cc

  -- A rejection without a route and a rejection at a route are told apart by what they emit exactly
  -- if the route's identifier is not `none`; the routing table admits that identifier.
  pub none_collides :
      (role : TrafficRole) (reason : RejectionReason) (i : RouteId)
      → ((emissions as_secs_f64 (attempt_rejected role none reason)
            ≡ emissions as_secs_f64 (attempt_rejected role (some i) reason))
          ↔ (i.id ≡ "none"))
        × (route_id_new "none" ≡ ok (record { id = "none" }))
  unfolding emissions route_label route_id_new
  none_collides role reason i = ((label_injective role reason i, λ e. rw e refl), refl)
