-- ===== src/Shadow/Display.antt =====
-- src/shadow.rs: `Display` of the errors.
use Prim.Native.String.{◌++◌}
use svc_resillience_rs.Prelude.{String}
use svc_resillience_rs.Route.{display_table_error}
use svc_resillience_rs.Eligibility.{display_eligibility_error}
use svc_resillience_rs.Shadow.{
  ShadowSamplingError, parts_per_million_out_of_range, draw_out_of_range, RoutePlanError,
  primary_selection, eligibility, no_eligible_primary,
}

unfoldable pub display_sampling_error : ShadowSamplingError → String
display_sampling_error parts_per_million_out_of_range =
    "shadow sampling parts-per-million must be at most 1,000,000"
display_sampling_error draw_out_of_range = "shadow sampling draw was outside the requested range"

unfoldable pub display_plan_error : RoutePlanError → String
unfolding display_table_error display_eligibility_error
display_plan_error (primary_selection e) =
    "primary route selection failed: " ++ display_table_error e
display_plan_error (eligibility e) =
    "route eligibility is invalid for planning: " ++ display_eligibility_error e
display_plan_error no_eligible_primary = "route eligibility contains no primary route"
