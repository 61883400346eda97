-- ===== src/RateLimiter.antt =====
-- internal/infrastructure/error_rate_limiter.go.
pub mod Types
pub mod Bucket
pub mod Limiter
mod Examples
