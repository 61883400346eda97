-- ===== src/Retry.antt =====
-- The retry manager: internal/infrastructure/retry.go.
pub mod Types
pub mod Backoff
pub mod Metrics
pub mod Configs
pub mod Loop
mod Examples
