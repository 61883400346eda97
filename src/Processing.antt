-- ===== src/Processing.antt =====
-- The processing engine: internal/application/processor.go.
pub mod Types
pub mod Url
pub mod File
pub mod Engine
pub mod Steps
pub mod Backpressure
mod Examples
