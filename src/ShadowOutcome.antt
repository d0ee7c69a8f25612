-- ===== src/ShadowOutcome.antt =====
-- src/shadow_outcome.rs: how shadow work ended, and what is observed of it.
pub mod Laws
use svc_resillience_rs.Prelude.{ℕ, Bool, true, false, Option, none, some}
use mathlib.Core.Option
use svc_resillience_rs.Route.{RouteId}
use svc_resillience_rs.Shadow.{RoutePlan}

pub data ShadowOutcome {ℓ} (E : Type ℓ) : Type ℓ where
  succeeded overloaded cancelled deadline_exceeded : ShadowOutcome E
  failed : E → ShadowOutcome E

unfoldable pub is_success {ℓ} : {E : Type ℓ} → ShadowOutcome E → Bool
is_success succeeded = true
is_success overloaded = false
is_success cancelled = false
is_success deadline_exceeded = false
is_success (failed e) = false

unfoldable pub error {ℓ} : {E : Type ℓ} → ShadowOutcome E → Option E
error succeeded = none
error overloaded = none
error cancelled = none
error deadline_exceeded = none
error (failed e) = some e

unfoldable pub map_error {ℓ κ} :
    {E : Type ℓ} {F : Type κ} → ShadowOutcome E → (E → F) → ShadowOutcome F
map_error succeeded map = succeeded
map_error overloaded map = overloaded
map_error cancelled map = cancelled
map_error deadline_exceeded map = deadline_exceeded
map_error (failed e) map = failed (map e)

pub record ShadowObservation : Type 0 where
  pub generation : ℕ
  pub route_id : RouteId

-- `ShadowObservation::from_plan`.
unfoldable pub from_plan : RoutePlan → Option ShadowObservation
from_plan p = Option.map (λ i. record { generation = p.generation; route_id = i }) p.shadow
