-- ===== src/CircuitBreaker.antt =====
-- internal/infrastructure/circuit_breaker.go.
pub mod Types
pub mod Window
pub mod Machine
pub mod Calls
pub mod Invariant
pub mod Transitions
pub mod Periods
pub mod Execute
mod Examples
