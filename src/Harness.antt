-- ===== src/Harness.antt =====
-- core/harness: the circuit breaker, the retry strategies, the quota managers and the harness.
pub mod CircuitBreaker
pub mod Retry
pub mod Quota
pub mod AgentHarness
