-- ===== src/CircuitBreaker.antt =====
-- The composite circuit breaker (src/plugins/circuitbreaker/composite/circuitbreaker.rs and
-- src/core/model/circuitbreaker.rs).
pub mod Rule
pub mod State
pub mod Resource
pub mod Breaker
pub mod Transitions
pub mod Recovery
pub mod History
pub mod Verdict
pub mod Flow
pub mod Forget
pub mod Handler
pub mod Tests
