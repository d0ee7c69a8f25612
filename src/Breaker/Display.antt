-- ===== src/Breaker/Display.antt =====
-- src/circuit_breaker.rs: the texts of the `Display` implementations.
use svc_resillience_rs.Prelude.{String}
use svc_resillience_rs.Breaker.{
  CircuitBreakerConfigError, zero_failure_threshold, zero_open_timeout,
  zero_half_open_success_threshold, CircuitBreakerRejected, circuit_breaker_rejected,
  CircuitBreakerCallError, rejected, inner,
}

unfoldable pub display_config_error : CircuitBreakerConfigError → String
display_config_error zero_failure_threshold = "failure threshold must be greater than zero"
display_config_error zero_open_timeout = "open timeout must be greater than zero"
display_config_error zero_half_open_success_threshold =
    "half-open success threshold must be greater than zero"

unfoldable pub display_rejected : CircuitBreakerRejected → String
display_rejected circuit_breaker_rejected = "circuit breaker rejected the call"

unfoldable pub display_call_error {ℓ} :
    {E : Type ℓ} → (E → String) → CircuitBreakerCallError E → String
display_call_error display (rejected error) = display_rejected error
display_call_error display (inner error) = display error
