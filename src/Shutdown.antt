-- ===== src/Shutdown.antt =====
-- Graceful shutdown: internal/server/shutdown.go.
pub mod Types
pub mod Resources
pub mod Sort
pub mod Run
mod Outcome
mod Order
mod Examples
